-- ===== src/MemStore/Validity.antt =====
-- The invariant of the store (CRDT/MemoryStore.go), and that `AppendOp` keeps it.
use gossip_pubsub.Base.{
  length-append, length, ℕ, ◌+◌, ◌%◌, String, ◌≡◌, refl, sym, ap, subst, ◌∙◌, Bool, true, false,
  Option, none, some, [], ◌∷◌, ◌==◌, eq_iff, ltb, arith, inl, inr, Bool-cases, Option-cases,
}
use gossip_pubsub.Base.Words.{u64_mod, add64}
use gossip_pubsub.GoMap.{GoMap, lookup, insert, len, IsMap}
use gossip_pubsub.GoMap.Laws.{lookup-insert, insert-IsMap}
use gossip_pubsub.Clock
use gossip_pubsub.Clock.{VectorClock}
use gossip_pubsub.Clock.Merge.{merge-IsMap, le-merge_left, le-merge_right, copy-IsMap}
use gossip_pubsub.Clock.Increment.{increment-IsMap}
use gossip_pubsub.LwwSet
use gossip_pubsub.LwwSet.{LwwSet, new_lww_set}
use gossip_pubsub.LwwSet.Validity
use gossip_pubsub.LwwSet.Validity.{new_lww_set-IsValid, write, write-IsValid}
use gossip_pubsub.Counter
use gossip_pubsub.Counter.{Counter, new_counter}
use gossip_pubsub.Counter.Convergence
use gossip_pubsub.Counter.Convergence.{new_counter-IsValid, increment_with_timestamp-IsValid}
use gossip_pubsub.Crdt
use gossip_pubsub.Crdt.{Crdt, lww_set, counter, get_key}
use gossip_pubsub.OpHeap
use gossip_pubsub.OpHeap.{Op, OpKind, op_add, op_remove, op_counter_inc, unknown, OpHeap}
use gossip_pubsub.OpHeap.Bounded
use gossip_pubsub.OpHeap.Bounded.{append-IsValid, append_evicts, cap-append, new_op_heap-IsValid}
use gossip_pubsub.MemStore.{
  MemStore, new_mem_store, get_or_create_set, get_or_create_counter, chosen_clock, apply_set_op,
  apply_counter_op, apply_to_set, apply_to_counter, apply_op, log_op, append_op,
}

-- Each object stands under its own key and is valid.
pub record AllValid (m : GoMap Crdt) : Type 0 where
  pub map : IsMap m
  pub keyed : (k : String) (c : Crdt) → lookup k m ≡ some c → get_key c ≡ k
  pub valid : (k : String) (c : Crdt) → lookup k m ≡ some c → Crdt.IsValid c

-- The operations that were appended are those that were evicted and those that are held, counted
-- as uint64.
pub record IsValid (s : MemStore) : Type 0 where
  pub objects : AllValid s.objects
  pub log : OpHeap.Bounded.IsValid s.ops
  pub accounted :
      s.metrics.total_ops_appended ≡ (s.metrics.total_ops_evicted + length s.ops.ops) % u64_mod

pub new_mem_store-IsValid : (max_bytes : ℕ) → IsValid (new_mem_store max_bytes)
unfolding new_mem_store lookup OpHeap.new_op_heap
new_mem_store-IsValid max_bytes = record {
  objects = record { map = tt; keyed = λ k c p. cc; valid = λ k c p. cc };
  log = new_op_heap-IsValid max_bytes;
  accounted = omega arith;
}

AllValid-insert :
    (m : GoMap Crdt) (k : String) (c : Crdt)
    → AllValid m
    → get_key c ≡ k
    → Crdt.IsValid c
    → AllValid (insert k c m)
AllValid-insert m k c h e v = record {
  map = insert-IsMap k c m h.map;
  keyed = λ j d p. elim (Bool-cases (k == j)) [
    | inl same ↦
        let eq : c ≡ d = ground (arith, lookup-insert k j c m) in
        ap get_key (sym eq) ∙ e ∙ (eq_iff k j).0 same
    | inr other ↦ h.keyed j d (ground (arith, lookup-insert k j c m))
  ];
  valid = λ j d p. elim (Bool-cases (k == j)) [
    | inl same ↦ let eq : c ≡ d = ground (arith, lookup-insert k j c m) in subst Crdt.IsValid eq v
    | inr other ↦ h.valid j d (ground (arith, lookup-insert k j c m))
  ];
}

chosen_clock-IsMap :
    (n : String) (ts : VectorClock) (s : LwwSet) → IsMap ts → IsMap (chosen_clock n ts s)
unfolding chosen_clock
chosen_clock-IsMap n ts s h = elim (Bool-cases (ltb 0 (len ts))) [
  | inl given ↦ rw given h
  | inr empty ↦ rw empty (increment-IsMap n _ (copy-IsMap s.timestamp))
]

key-write :
    (e : String) (is_add : Bool) (ts top : VectorClock) (s : LwwSet)
    → (write e is_add ts top s).key ≡ s.key
key-write e true ts top s = refl
key-write e false ts top s = refl

key-increment_with_timestamp :
    (n : String) (v : ℕ) (ts : VectorClock) (c : Counter)
    → (Counter.increment_with_timestamp n v ts c).key ≡ c.key
unfolding Counter.increment_with_timestamp
key-increment_with_timestamp n v ts c = ground arith

-- A set stays valid whatever clock an operation carries.
apply_set_op-IsValid :
    (s : LwwSet) (n e : String) (is_add : Bool) (ts : VectorClock)
    → IsMap ts
    → LwwSet.Validity.IsValid s
    → LwwSet.Validity.IsValid (apply_set_op s n e is_add ts)
unfolding apply_set_op
apply_set_op-IsValid s n e is_add ts m v =
    let chosen = chosen_clock n ts s in
    let cm = chosen_clock-IsMap n ts s m in
    write-IsValid e is_add chosen (Clock.merge s.timestamp chosen) s
      (merge-IsMap s.timestamp chosen) (le-merge_left s.timestamp chosen v.timestamp_map cm)
      (record { clock = cm; below = le-merge_right s.timestamp chosen v.timestamp_map cm }) v

apply_to_set-AllValid :
    (op : Op) (is_add : Bool) (m m' : GoMap Crdt)
    → IsMap op.ts
    → AllValid m
    → apply_to_set op is_add m ≡ some m'
    → AllValid m'
unfolding apply_to_set get_or_create_set
apply_to_set-AllValid op is_add m m' ts h e = go (lookup op.key m) refl
  where
    written : LwwSet → Crdt
    written s = lww_set (apply_set_op s op.node_id op.element is_add op.ts)

    put :
        (s : LwwSet) (n : GoMap Crdt)
        → AllValid n
        → s.key ≡ op.key
        → LwwSet.Validity.IsValid s
        → AllValid (insert op.key (written s) n)
    put s n hn k v =
        AllValid-insert n op.key (written s) hn
          (unfold get_key apply_set_op in key-write op.element is_add _ _ s ∙ k)
          (apply_set_op-IsValid s op.node_id op.element is_add op.ts ts v)

    go : (o : Option Crdt) → lookup op.key m ≡ o → AllValid m'
    go none p =
        let s = new_lww_set op.key in
        let n = insert op.key (lww_set s) m in
        let fresh =
          AllValid-insert m op.key (lww_set s) h (unfold get_key new_lww_set in refl)
            (new_lww_set-IsValid op.key) in
        let eq : insert op.key (written s) n ≡ m' = ground arith in
        subst AllValid eq (put s n fresh (unfold new_lww_set in refl) (new_lww_set-IsValid op.key))
    go (some (lww_set s)) p =
        let eq : insert op.key (written s) m ≡ m' = ground arith in
        subst AllValid eq (
          put s m h (unfold get_key in h.keyed op.key (lww_set s) p) (h.valid op.key (lww_set s) p))
    go (some (counter c)) p = absurd (ground arith)

apply_to_counter-AllValid :
    (op : Op) (m m' : GoMap Crdt) → AllValid m → apply_to_counter op m ≡ some m' → AllValid m'
unfolding apply_to_counter get_or_create_counter
apply_to_counter-AllValid op m m' h e = go (lookup op.key m) refl
  where
    written : Counter → Crdt
    written c = counter (apply_counter_op c op.node_id op.value op.ts)

    put :
        (c : Counter) (n : GoMap Crdt)
        → AllValid n
        → c.key ≡ op.key
        → Counter.Convergence.IsValid c
        → AllValid (insert op.key (written c) n)
    put c n hn k v =
        AllValid-insert n op.key (written c) hn
          (unfold get_key apply_counter_op in
            key-increment_with_timestamp op.node_id op.value op.ts c ∙ k)
          (unfold apply_counter_op in
            increment_with_timestamp-IsValid op.node_id op.value op.ts c v)

    go : (o : Option Crdt) → lookup op.key m ≡ o → AllValid m'
    go none p =
        let c = new_counter op.key in
        let n = insert op.key (counter c) m in
        let fresh =
          AllValid-insert m op.key (counter c) h (unfold get_key new_counter in refl)
            (new_counter-IsValid op.key) in
        let eq : insert op.key (written c) n ≡ m' = ground arith in
        subst AllValid eq (put c n fresh (unfold new_counter in refl) (new_counter-IsValid op.key))
    go (some (counter c)) p =
        let eq : insert op.key (written c) m ≡ m' = ground arith in
        subst AllValid eq (
          put c m h (unfold get_key in h.keyed op.key (counter c) p) (h.valid op.key (counter c) p))
    go (some (lww_set s)) p = absurd (ground arith)

apply_op-AllValid :
    (op : Op) (m m' : GoMap Crdt)
    → IsMap op.ts
    → AllValid m
    → apply_op op op.kind m ≡ some m'
    → AllValid m'
unfolding apply_op
apply_op-AllValid op m m' ts h = by_kind op.kind
  where
    by_kind : (k : OpKind) → apply_op op k m ≡ some m' → AllValid m'
    by_kind op_add e = apply_to_set-AllValid op true m m' ts h e
    by_kind op_remove e = apply_to_set-AllValid op false m m' ts h e
    by_kind op_counter_inc e = apply_to_counter-AllValid op m m' h e
    by_kind (unknown k) e = let eq : m ≡ m' = cc in subst AllValid eq h

log_op-IsValid : (now : ℕ) (op : Op) (s : MemStore) → IsValid s → IsValid (log_op now op s)
unfolding log_op add64
log_op-IsValid now op s v =
    let kept = append-IsValid op s.ops v.log in
    let split = (append_evicts op s.ops v.log).0 in
    let count = length-append (OpHeap.append op s.ops).1 (OpHeap.append op s.ops).0.ops in
    let count' = length-append s.ops.ops (op ∷ []) in
    let same = ap length split in
    elim (Bool-cases (ltb 0 (length (OpHeap.append op s.ops).1))) [
      | inl some_evicted ↦
          rw some_evicted
            (record { objects = v.objects; log = kept; accounted = omega (arith, v.accounted) })
      | inr none_evicted ↦
          rw none_evicted
            (record { objects = v.objects; log = kept; accounted = ground (arith, v.accounted) })
    ]

-- `AppendOp` keeps the invariant, whether it accepts the operation or refuses it.
pub append_op-IsValid :
    (now : ℕ) (op : Op) (s : MemStore) → IsMap op.ts → IsValid s → IsValid (append_op now op s).1
unfolding append_op
append_op-IsValid now op s ts v = elim (Option-cases (apply_op op op.kind s.objects)) [
  | inl e ↦ rw (e, append_op) v
  | inr (m, e) ↦
      rw (e, append_op)
        (log_op-IsValid now op (record s { objects = m })
          (record {
            objects = apply_op-AllValid op s.objects m ts v.objects e;
            log = v.log;
            accounted = v.accounted;
          }))
]

cap-log_op : (now : ℕ) (op : Op) (s : MemStore) → (log_op now op s).ops.cap_bytes ≡ s.ops.cap_bytes
unfolding log_op
cap-log_op now op s = elim (Bool-cases (ltb 0 (length (OpHeap.append op s.ops).1))) [
  | inl e ↦ rw e (cap-append op s.ops)
  | inr e ↦ rw e (cap-append op s.ops)
]

-- The bound of the log is the one that the store was created with.
pub cap-append_op :
    (now : ℕ) (op : Op) (s : MemStore) → (append_op now op s).1.ops.cap_bytes ≡ s.ops.cap_bytes
unfolding append_op
cap-append_op now op s = elim (Option-cases (apply_op op op.kind s.objects)) [
  | inl e ↦ rw (e, append_op)
  | inr (m, e) ↦ rw (e, append_op) (cap-log_op now op (record s { objects = m }))
]
