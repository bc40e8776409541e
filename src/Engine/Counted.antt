-- ===== src/Engine/Counted.antt =====
-- What `AppendOp` of the store (CRDT/MemoryStore.go) does to the count of each node in each counter.
pub mod Calls
use gossip_pubsub.Base.{
  ℕ, String, ◌≡◌, refl, sym, ap, subst, ◌∙◌, Bool, true, false, ◌&&◌, Option, none, some, [], ◌==◌,
  eq_iff, if◌then◌else◌, inl, inr, Bool-cases, Option-cases, arith,
}
use gossip_pubsub.Base.Words.{add64}
use gossip_pubsub.GoMap.{GoMap, lookup, insert, len, IsMap}
use gossip_pubsub.GoMap.Laws.{lookup-insert, insert-IsMap}
use gossip_pubsub.Clock.{VectorClock}
use gossip_pubsub.Counter.{Counter, new_counter, count_at, add_value, increment_with_timestamp}
use gossip_pubsub.Crdt.{Crdt, lww_set, counter}
use gossip_pubsub.OpHeap.{Op, OpKind, op_add, op_remove, op_counter_inc, unknown}
use gossip_pubsub.MemStore.{
  MemStore, get_or_create_set, get_or_create_counter, apply_counter_op, apply_to_set,
  apply_to_counter, apply_op, log_op, append_op,
}
use gossip_pubsub.MemStore.Reads.{
  conflicts, stored, append_op_outcome, to_set-none, to_set-set, to_set-counter, to_counter-none,
  to_counter-counter, to_counter-set, objects-log_op,
}
use gossip_pubsub.MemStore.Counts.{set_kind}
use gossip_pubsub.Engine.{
  Engine, EngineError, InputError, submit, checked, set_op, counter_op, lww_add, lww_remove,
  counter_inc, validate_input, validate_counter_input,
}
use gossip_pubsub.Engine.Runs.{Call, add, remove, increment, call, call_error}

-- The count of a node in what stands under a key.
abbrev pub count_in : String → Option Crdt → ℕ
count_in p none = 0
count_in p (some (lww_set s)) = 0
count_in p (some (counter c)) = count_at p c.counters

-- The counts of a counter stand under distinct nodes.
abbrev pub HasCounts : Option Crdt → Type 0
HasCounts none = Unit
HasCounts (some (lww_set s)) = Unit
HasCounts (some (counter c)) = IsMap c.counters

count-add_value :
    (n p : String) (v : ℕ) (m : GoMap ℕ)
    → count_at p (add_value n v m) ≡ (if n == p then add64 (count_at p m) v else count_at p m)
unfolding add_value
count-add_value n p v m = ground (arith, eq_iff n p, lookup-insert n p (add64 (count_at n m) v) m)

counters-apply_counter_op :
    (c : Counter) (n : String) (v : ℕ) (ts : VectorClock)
    → (apply_counter_op c n v ts).counters ≡ add_value n v c.counters
unfolding apply_counter_op increment_with_timestamp
counters-apply_counter_op c n v ts = ground arith

pub stored_set :
    (op : Op) (is_add : Bool) (p : String) (o : Option Crdt)
    → (count_in p (stored op (set_kind is_add) o) ≡ count_in p o)
      × (HasCounts o → HasCounts (stored op (set_kind is_add) o))
stored_set op true p none = (refl, λ h. h)
stored_set op true p (some (lww_set s)) = (refl, λ h. h)
stored_set op true p (some (counter c)) = (refl, λ h. h)
stored_set op false p none = (refl, λ h. h)
stored_set op false p (some (lww_set s)) = (refl, λ h. h)
stored_set op false p (some (counter c)) = (refl, λ h. h)

stored_counter :
    (op : Op) (p : String) (c : Counter)
    → count_in p (some (counter (apply_counter_op c op.node_id op.value op.ts)))
      ≡ (if op.node_id == p then add64 (count_at p c.counters) op.value else count_at p c.counters)
stored_counter op p c =
    ap (count_at p) (counters-apply_counter_op c op.node_id op.value op.ts)
    ∙ count-add_value op.node_id p op.value c.counters

pub stored_inc :
    (op : Op) (p : String) (o : Option Crdt)
    → conflicts op_counter_inc o ≡ false
    → count_in p (stored op op_counter_inc o)
      ≡ (if op.node_id == p then add64 (count_in p o) op.value else count_in p o)
unfolding new_counter lookup
stored_inc op p none h = stored_counter op p (new_counter op.key)
stored_inc op p (some (counter c)) h = stored_counter op p c
stored_inc op p (some (lww_set s)) h = cc

HasCounts-apply_counter_op :
    (c : Counter) (n : String) (v : ℕ) (ts : VectorClock)
    → IsMap c.counters
    → IsMap (apply_counter_op c n v ts).counters
unfolding add_value
HasCounts-apply_counter_op c n v ts h =
    subst IsMap (sym (counters-apply_counter_op c n v ts)) (insert-IsMap n _ c.counters h)

pub stored_inc-HasCounts :
    (op : Op) (o : Option Crdt) → HasCounts o → HasCounts (stored op op_counter_inc o)
unfolding new_counter
stored_inc-HasCounts op none h = HasCounts-apply_counter_op (new_counter op.key) _ _ _ tt
stored_inc-HasCounts op (some (counter c)) h = HasCounts-apply_counter_op c _ _ _ h
stored_inc-HasCounts op (some (lww_set s)) h = tt

-- The keys of the objects stay distinct.
abbrev AllMap : Option (GoMap Crdt) → Type 0
AllMap none = Unit
AllMap (some m) = IsMap m

to_set-AllMap :
    (op : Op) (is_add : Bool) (m : GoMap Crdt) (o : Option Crdt)
    → lookup op.key m ≡ o
    → IsMap m
    → AllMap (apply_to_set op is_add m)
to_set-AllMap op is_add m none p h =
    rw (to_set-none op m is_add p, AllMap) (insert-IsMap op.key _ _ (insert-IsMap op.key _ m h))
to_set-AllMap op is_add m (some (lww_set s)) p h =
    rw (to_set-set op m is_add s p, AllMap) (insert-IsMap op.key _ m h)
to_set-AllMap op is_add m (some (counter c)) p h = rw (to_set-counter op m is_add c p, AllMap) tt

to_counter-AllMap :
    (op : Op) (m : GoMap Crdt) (o : Option Crdt)
    → lookup op.key m ≡ o
    → IsMap m
    → AllMap (apply_to_counter op m)
to_counter-AllMap op m none p h =
    rw (to_counter-none op m p, AllMap) (insert-IsMap op.key _ _ (insert-IsMap op.key _ m h))
to_counter-AllMap op m (some (lww_set s)) p h = rw (to_counter-set op m s p, AllMap) tt
to_counter-AllMap op m (some (counter c)) p h =
    rw (to_counter-counter op m c p, AllMap) (insert-IsMap op.key _ m h)

apply_op-AllMap : (op : Op) (kind : OpKind) (m : GoMap Crdt) → IsMap m → AllMap (apply_op op kind m)
unfolding apply_op
apply_op-AllMap op op_add m h = to_set-AllMap op true m (lookup op.key m) refl h
apply_op-AllMap op op_remove m h = to_set-AllMap op false m (lookup op.key m) refl h
apply_op-AllMap op op_counter_inc m h = to_counter-AllMap op m (lookup op.key m) refl h
apply_op-AllMap op (unknown k) m h = h

pub append_op-IsMap :
    (now : ℕ) (op : Op) (s : MemStore) → IsMap s.objects → IsMap (append_op now op s).1.objects
unfolding append_op
append_op-IsMap now op s h =
    go (apply_op op op.kind s.objects) refl (apply_op-AllMap op op.kind s.objects h)
  where
    go :
        (o : Option (GoMap Crdt))
        → apply_op op op.kind s.objects ≡ o
        → AllMap o
        → IsMap (append_op now op s).1.objects
    go none p all = rw (p, append_op) h
    go (some m) p all =
        rw (p, append_op) (subst IsMap (sym (objects-log_op now op (record s { objects = m }))) all)
