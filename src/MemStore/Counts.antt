-- ===== src/MemStore/Counts.antt =====
-- What counter reads of the store (CRDT/MemoryStore.go) return after `AppendOp`.
use gossip_pubsub.Base.{
  ℕ, String, ◌≡◌, refl, ap, subst, ◌∙◌, Bool, true, false, Option, none, some, ◌==◌, eq_iff,
  if◌then◌else◌, inl, inr, Bool-cases,
}
use gossip_pubsub.Base.Words.{add64}
use gossip_pubsub.GoMap.{lookup, for_range}
use gossip_pubsub.Counter.{new_counter, value}
use gossip_pubsub.Counter.Total.{value-increment_with_timestamp}
use gossip_pubsub.Crdt.{Crdt, lww_set, counter}
use gossip_pubsub.OpHeap.{Op, OpKind, op_add, op_remove, op_counter_inc}
use gossip_pubsub.MemStore.{MemStore, apply_counter_op, append_op, get_counter_value}
use gossip_pubsub.MemStore.Reads.{conflicts, stored, append_op_outcome}

-- The value that a counter read finds, where a missing key counts as 0.
abbrev pub count_of : Option ℕ → ℕ
count_of none = 0
count_of (some v) = v

-- `GetCounterValue` on what stands under the key.
abbrev count_read : Option Crdt → Option ℕ
count_read o = elim o [
  | none ↦ none
  | some (lww_set set) ↦ none
  | some (counter c) ↦ some (value c)
]

count_read-if :
    (b : Bool) (x y : Option Crdt)
    → count_read (if b then x else y) ≡ (if b then count_read x else count_read y)
count_read-if true x y = refl
count_read-if false x y = refl

count_read-stored :
    (op : Op) (o : Option Crdt)
    → conflicts op_counter_inc o ≡ false
    → count_read (stored op op_counter_inc o) ≡ some (add64 (count_of (count_read o)) op.value)
unfolding apply_counter_op value new_counter for_range
count_read-stored op none h =
    ap some (value-increment_with_timestamp op.node_id op.value op.ts (new_counter op.key) ∙ refl)
count_read-stored op (some (counter c)) h =
    ap some (value-increment_with_timestamp op.node_id op.value op.ts c)
count_read-stored op (some (lww_set s)) h = cc

-- An increment that the store accepts adds its value to what a read of the key returns, modulo
-- 2^64, and changes no other counter.
pub get_counter_value-append_op :
    (now : ℕ) (op : Op) (s : MemStore) (j : String)
    → op.kind ≡ op_counter_inc
    → (append_op now op s).0 ≡ none
    → get_counter_value j (append_op now op s).1 ≡ (
        if op.key == j
        then some (add64 (count_of (get_counter_value j s)) op.value)
        else get_counter_value j s)
unfolding get_counter_value
get_counter_value-append_op now op s j k accepted = elim (append_op_outcome now op s) [
  | inl (e, clash) ↦ absurd (cc (ap (λ r. r.0) e))
  | inr (ok_op, free, at) ↦
      let free' : conflicts op_counter_inc (lookup op.key s.objects) ≡ false =
        subst (λ kind. conflicts kind (lookup op.key s.objects) ≡ false) k free in
      let at' : lookup j (append_op now op s).1.objects ≡ (
          if op.key == j
          then stored op op_counter_inc (lookup op.key s.objects)
          else lookup j s.objects) =
        subst
          (λ kind. lookup j (append_op now op s).1.objects ≡ (
            if op.key == j then stored op kind (lookup op.key s.objects) else lookup j s.objects))
          k (at j) in
      ap count_read at'
      ∙ count_read-if (op.key == j) (stored op op_counter_inc (lookup op.key s.objects))
          (lookup j s.objects)
      ∙ elim (Bool-cases (op.key == j)) [
        | inl same ↦ rw same (
            subst
              (λ i.
                count_read (stored op op_counter_inc (lookup op.key s.objects))
                ≡ some (add64 (count_of (count_read (lookup i s.objects))) op.value))
              ((eq_iff op.key j).0 same) (count_read-stored op (lookup op.key s.objects) free'))
        | inr other ↦ rw other
      ]
]

-- The kind of operation that adds or removes.
abbrev pub set_kind : Bool → OpKind
set_kind true = op_add
set_kind false = op_remove

count-stored_set :
    (op : Op) (is_add : Bool) (o : Option Crdt)
    → count_of (count_read (stored op (set_kind is_add) o)) ≡ count_of (count_read o)
count-stored_set op true none = refl
count-stored_set op true (some (lww_set s)) = refl
count-stored_set op true (some (counter c)) = refl
count-stored_set op false none = refl
count-stored_set op false (some (lww_set s)) = refl
count-stored_set op false (some (counter c)) = refl

-- An operation on a set, accepted or not, leaves what every counter counts.
pub count-set_op :
    (now : ℕ) (op : Op) (is_add : Bool) (s : MemStore) (j : String)
    → op.kind ≡ set_kind is_add
    → count_of (get_counter_value j (append_op now op s).1) ≡ count_of (get_counter_value j s)
unfolding get_counter_value
count-set_op now op is_add s j kind = elim (append_op_outcome now op s) [
  | inl (refused, clash) ↦ ap (λ r. count_of (get_counter_value j r.1)) refused
  | inr (ok_op, free, at) ↦
      let old = lookup op.key s.objects in
      ap (λ o. count_of (count_read o)) (at j)
      ∙ ap count_of (count_read-if (op.key == j) (stored op op.kind old) (lookup j s.objects))
      ∙ elim (Bool-cases (op.key == j)) [
        | inl same ↦ rw same (
            ap (λ κ. count_of (count_read (stored op κ old))) kind
            ∙ count-stored_set op is_add old
            ∙ ap (λ i. count_of (count_read (lookup i s.objects))) ((eq_iff op.key j).0 same))
        | inr other ↦ rw other
      ]
]
