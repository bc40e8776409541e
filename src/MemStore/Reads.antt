-- ===== src/MemStore/Reads.antt =====
-- What `AppendOp` of the store (CRDT/MemoryStore.go) does to the object of each key.
use gossip_pubsub.Base.{
  ℕ, ◌<◌, String, ◌≡◌, ◌≢◌, refl, ap, ◌∙◌, Bool, true, false, Option, none, some, [], ◌==◌, eq_iff,
  eq_refl, if◌then◌else◌, arith, ◌⊎◌, inl, inr,
}
use gossip_pubsub.GoMap.{GoMap, lookup, insert, len}
use gossip_pubsub.GoMap.Laws.{lookup-insert}
use gossip_pubsub.Clock
use gossip_pubsub.Clock.{VectorClock, Causality, happens_after}
use gossip_pubsub.Clock.Increment.{HasRoom}
use gossip_pubsub.LwwSet
use gossip_pubsub.LwwSet.{LwwSet, new_lww_set, contains, get_elements, op_clock}
use gossip_pubsub.LwwSet.Validity
use gossip_pubsub.LwwSet.Visible.{contains-apply_op}
use gossip_pubsub.Counter.{Counter, new_counter}
use gossip_pubsub.Crdt.{Crdt, lww_set, counter}
use gossip_pubsub.OpHeap.{Op, OpKind, op_add, op_remove, op_counter_inc, unknown}
use gossip_pubsub.MemStore.{
  MemStore, get_or_create_set, get_or_create_counter, chosen_clock, apply_set_op, apply_counter_op,
  apply_to_set, apply_to_counter, apply_op, log_op, append_op, wrong_type,
}

-- The operation is for the type that the key does not hold.
abbrev pub conflicts : OpKind → Option Crdt → Bool
conflicts op_add (some (counter c)) = true
conflicts op_remove (some (counter c)) = true
conflicts op_counter_inc (some (lww_set s)) = true
conflicts _ _ = false

-- What stands under the key after an accepted operation.
abbrev pub stored : Op → OpKind → Option Crdt → Option Crdt
stored op op_add none =
    some (lww_set (apply_set_op (new_lww_set op.key) op.node_id op.element true op.ts))
stored op op_add (some (lww_set s)) =
    some (lww_set (apply_set_op s op.node_id op.element true op.ts))
stored op op_add (some (counter c)) = some (counter c)
stored op op_remove none =
    some (lww_set (apply_set_op (new_lww_set op.key) op.node_id op.element false op.ts))
stored op op_remove (some (lww_set s)) =
    some (lww_set (apply_set_op s op.node_id op.element false op.ts))
stored op op_remove (some (counter c)) = some (counter c)
stored op op_counter_inc none =
    some (counter (apply_counter_op (new_counter op.key) op.node_id op.value op.ts))
stored op op_counter_inc (some (counter c)) =
    some (counter (apply_counter_op c op.node_id op.value op.ts))
stored op op_counter_inc (some (lww_set s)) = some (lww_set s)
stored op (unknown k) o = o

pub objects-log_op : (now : ℕ) (op : Op) (s : MemStore) → (log_op now op s).objects ≡ s.objects
unfolding log_op
objects-log_op now op s = ground arith

abbrev pub set_after : Op → Bool → LwwSet → Crdt
set_after op is_add s = lww_set (apply_set_op s op.node_id op.element is_add op.ts)

abbrev pub counter_after : Op → Counter → Crdt
counter_after op c = counter (apply_counter_op c op.node_id op.value op.ts)

objects-at :
    (now : ℕ) (op : Op) (s : MemStore) (j : String)
    → lookup j (log_op now op s).objects ≡ lookup j s.objects
objects-at now op s j = ap (lookup j) (objects-log_op now op s)

-- The switch of `AppendOp`, as a fact about each key.
abbrev Switched : Op → OpKind → GoMap Crdt → Option Crdt → Option (GoMap Crdt) → Type 0
Switched op kind m o none = conflicts kind o ≡ true
Switched op kind m o (some m') =
    (conflicts kind o ≡ false)
    × ((j : String) → lookup j m' ≡ (if op.key == j then stored op kind o else lookup j m))

lookup-insert_twice :
    (k j : String) (a b : Crdt) (m : GoMap Crdt)
    → lookup j (insert k b (insert k a m)) ≡ (if k == j then some b else lookup j m)
lookup-insert_twice k j a b m =
    ground (arith, lookup-insert k j a m, lookup-insert k j b (insert k a m))

module _ (op : Op) (m : GoMap Crdt) where
  pub to_set-none :
      (is_add : Bool)
      → lookup op.key m ≡ none
      → apply_to_set op is_add m
        ≡ some (
            insert op.key
              (set_after op is_add (new_lww_set op.key))
              (insert op.key (lww_set (new_lww_set op.key)) m))
  unfolding apply_to_set get_or_create_set
  to_set-none is_add p = ground arith

  pub to_set-set :
      (is_add : Bool) (s : LwwSet)
      → lookup op.key m ≡ some (lww_set s)
      → apply_to_set op is_add m ≡ some (insert op.key (set_after op is_add s) m)
  unfolding apply_to_set get_or_create_set
  to_set-set is_add s p = ground arith

  pub to_set-counter :
      (is_add : Bool) (c : Counter)
      → lookup op.key m ≡ some (counter c)
      → apply_to_set op is_add m ≡ none
  unfolding apply_to_set get_or_create_set
  to_set-counter is_add c p = ground arith

  pub to_counter-none :
      lookup op.key m ≡ none
      → apply_to_counter op m
        ≡ some (
            insert op.key
              (counter_after op (new_counter op.key))
              (insert op.key (counter (new_counter op.key)) m))
  unfolding apply_to_counter get_or_create_counter
  to_counter-none p = ground arith

  pub to_counter-counter :
      (c : Counter)
      → lookup op.key m ≡ some (counter c)
      → apply_to_counter op m ≡ some (insert op.key (counter_after op c) m)
  unfolding apply_to_counter get_or_create_counter
  to_counter-counter c p = ground arith

  pub to_counter-set :
      (s : LwwSet) → lookup op.key m ≡ some (lww_set s) → apply_to_counter op m ≡ none
  unfolding apply_to_counter get_or_create_counter
  to_counter-set s p = ground arith

  apply_op-Switched :
      (kind : OpKind) (o : Option Crdt)
      → lookup op.key m ≡ o
      → Switched op kind m o (apply_op op kind m)
  unfolding apply_op
  apply_op-Switched op_add none p =
      rw (to_set-none true p, Switched) (refl, λ j. lookup-insert_twice op.key j _ _ m)
  apply_op-Switched op_add (some (lww_set s)) p =
      rw (to_set-set true s p, Switched) (refl, λ j. lookup-insert op.key j _ m)
  apply_op-Switched op_add (some (counter c)) p = rw (to_set-counter true c p, Switched) refl
  apply_op-Switched op_remove none p =
      rw (to_set-none false p, Switched) (refl, λ j. lookup-insert_twice op.key j _ _ m)
  apply_op-Switched op_remove (some (lww_set s)) p =
      rw (to_set-set false s p, Switched) (refl, λ j. lookup-insert op.key j _ m)
  apply_op-Switched op_remove (some (counter c)) p = rw (to_set-counter false c p, Switched) refl
  apply_op-Switched op_counter_inc none p =
      rw (to_counter-none p, Switched) (refl, λ j. lookup-insert_twice op.key j _ _ m)
  apply_op-Switched op_counter_inc (some (counter c)) p =
      rw (to_counter-counter c p, Switched) (refl, λ j. lookup-insert op.key j _ m)
  apply_op-Switched op_counter_inc (some (lww_set s)) p = rw (to_counter-set s p, Switched) refl
  apply_op-Switched (unknown k) none p = (refl, λ j. ground (arith, eq_iff op.key j))
  apply_op-Switched (unknown k) (some o) p = (refl, λ j. ground (arith, eq_iff op.key j))

-- `AppendOp` refuses an operation exactly if its key holds an object of the other type, and then
-- changes nothing. Else the key holds what the operation makes of its object, or of a new one, and
-- every other key is as before.
pub append_op_outcome :
    (now : ℕ) (op : Op) (s : MemStore)
    → ((append_op now op s ≡ (some wrong_type, s))
        × (conflicts op.kind (lookup op.key s.objects) ≡ true))
      ⊎ (((append_op now op s).0 ≡ none)
          × (conflicts op.kind (lookup op.key s.objects) ≡ false)
          × ((j : String)
              → lookup j (append_op now op s).1.objects ≡ (
                  if op.key == j
                  then stored op op.kind (lookup op.key s.objects)
                  else lookup j s.objects)))
unfolding append_op
append_op_outcome now op s =
    finish (apply_op op op.kind s.objects) refl
      (apply_op-Switched op s.objects op.kind (lookup op.key s.objects) refl)
  where
    finish :
        (r : Option (GoMap Crdt))
        → apply_op op op.kind s.objects ≡ r
        → Switched op op.kind s.objects (lookup op.key s.objects) r
        → ((append_op now op s ≡ (some wrong_type, s))
            × (conflicts op.kind (lookup op.key s.objects) ≡ true))
          ⊎ (((append_op now op s).0 ≡ none)
              × (conflicts op.kind (lookup op.key s.objects) ≡ false)
              × ((j : String)
                  → lookup j (append_op now op s).1.objects ≡ (
                      if op.key == j
                      then stored op op.kind (lookup op.key s.objects)
                      else lookup j s.objects)))
    finish none e sw = inl (rw (e, append_op), sw)
    finish (some m) e sw = inr (
      rw (e, append_op),
      sw.0,
      λ j. rw (e, append_op) (objects-at now op (record s { objects = m }) j ∙ sw.1 j),
    )

-- An element that a provided clock adds replaces the clock of an earlier add, however late that
-- is: a visible element is hidden by an add whose clock does not come after the element's remove.
pub stale_add_hides :
    (s : LwwSet) (n e : String) (ts c r : VectorClock)
    → 0 < len ts
    → lookup e s.adds ≡ some c
    → lookup e s.removes ≡ some r
    → Clock.compare c r ≡ happens_after
    → Clock.compare ts r ≢ happens_after
    → (contains e s ≡ true) × (contains e (apply_set_op s n e true ts) ≡ false)
unfolding contains apply_set_op chosen_clock
stale_add_hides s n e ts c r given p q newer stale =
    (ground arith, ground (arith, lookup-insert e e ts s.adds, eq_refl e))

-- The clock chosen for an operation with no clock of its own is that of a local operation.
pub contains-apply_set_op_auto :
    (s : LwwSet) (n e j : String) (is_add : Bool)
    → LwwSet.Validity.IsValid s
    → HasRoom n s.timestamp
    → contains j (apply_set_op s n e is_add []) ≡ (if e == j then is_add else contains j s)
unfolding contains apply_set_op chosen_clock LwwSet.apply_op op_clock
contains-apply_set_op_auto s n e j is_add v room =
    same is_add ∙ contains-apply_op n e j is_add s v room
  where
    same : (b : Bool) → contains j (apply_set_op s n e b []) ≡ contains j (LwwSet.apply_op n e b s)
    same true = refl
    same false = refl
