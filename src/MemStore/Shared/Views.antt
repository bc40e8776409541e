-- ===== src/MemStore/Shared/Views.antt =====
-- What `AppendOp` of CRDT/MemoryStore.go does to clocks at addresses is what it does to values.
use mathlib.Core.List.{map}
use gossip_pubsub.Base.{
  ℕ, ◌≤◌, ◌<◌, String, ◌≡◌, refl, false, Option, none, some, List, [], ◌∷◌, ltb, inl, inr,
  Bool-cases, arith,
}
use gossip_pubsub.GoMap.{GoMap, len, for_range}
use gossip_pubsub.GoMap.Values.{map_values}
use gossip_pubsub.Clock
use gossip_pubsub.Clock.{VectorClock, copy_entry}
use gossip_pubsub.LwwSet.{LwwSet}
use gossip_pubsub.MemStore.{chosen_clock}
use gossip_pubsub.MemStore.Shared.{
  Memory, SharedOp, SharedCrdt, shared_set, own_counter, read, op_value, crdt_value, objects_value,
  alloc, choose,
}

-- All addresses are in use.
abbrev pub AddressesBelow : ℕ → GoMap ℕ → Type 0
AddressesBelow n [] = Unit
AddressesBelow n ((k, a) ∷ m) = (a < n) × AddressesBelow n m

abbrev pub CrdtBelow : ℕ → SharedCrdt → Type 0
CrdtBelow n (shared_set s) = AddressesBelow n s.adds × AddressesBelow n s.removes
CrdtBelow n (own_counter c) = Unit

abbrev pub ObjectsBelow : ℕ → GoMap SharedCrdt → Type 0
ObjectsBelow n [] = Unit
ObjectsBelow n ((k, c) ∷ m) = CrdtBelow n c × ObjectsBelow n m

abbrev pub ClockBelow : ℕ → Option ℕ → Type 0
ClockBelow n none = Unit
ClockBelow n (some a) = a < n

abbrev pub OpsBelow : ℕ → List SharedOp → Type 0
OpsBelow n [] = Unit
OpsBelow n (o ∷ l) = ClockBelow n o.ts × OpsBelow n l

-- Memory in which only new cells were written.
pub record Extends (m m' : Memory) : Type 0 where
  pub more : m.next ≤ m'.next
  pub same : (a : ℕ) → a < m.next → m'.cells a ≡ m.cells a

module _ {m m' : Memory} (e : Extends m m') where
  pub clocks_same :
      (l : GoMap ℕ) → AddressesBelow m.next l → map_values m'.cells l ≡ map_values m.cells l
  unfolding map_values
  clocks_same [] h = refl
  clocks_same ((k, a) ∷ l) h = cc (e.same a h.0, clocks_same l h.1)

  pub crdt_same :
      (c : SharedCrdt) → CrdtBelow m.next c → crdt_value m'.cells c ≡ crdt_value m.cells c
  crdt_same (shared_set s) h = cc (clocks_same s.adds h.0, clocks_same s.removes h.1)
  crdt_same (own_counter c) h = refl

  pub objects_same :
      (o : GoMap SharedCrdt)
      → ObjectsBelow m.next o
      → objects_value m'.cells o ≡ objects_value m.cells o
  unfolding map_values
  objects_same [] h = refl
  objects_same ((k, c) ∷ o) h = cc (crdt_same c h.0, objects_same o h.1)

  pub read_same : (o : Option ℕ) → ClockBelow m.next o → read m'.cells o ≡ read m.cells o
  read_same none h = refl
  read_same (some a) h = e.same a h

  pub ops_same :
      (l : List SharedOp) → OpsBelow m.next l → map (op_value m'.cells) l ≡ map (op_value m.cells) l
  ops_same [] h = refl
  ops_same (o ∷ l) h = cc (read_same o.ts h.0, ops_same l h.1)

-- The clock that is written: an address in use, with the clock of the value model.
pub record Chosen (ts : Option ℕ) (node_id : String) (set : LwwSet) (m : Memory) (r : ℕ × Memory)
    : Type 0 where
  pub extends : Extends m r.1
  pub used : r.0 < r.1.next
  pub clock : r.1.cells r.0 ≡ chosen_clock node_id (read m.cells ts) set

alloc-Chosen :
    (ts : Option ℕ) (node_id : String) (set : LwwSet) (m : Memory)
    → ltb 0 (len (read m.cells ts)) ≡ false
    → Chosen ts node_id set m
        (alloc (Clock.increment node_id (for_range copy_entry set.timestamp [])) m)
unfolding chosen_clock
alloc-Chosen ts node_id set m h = record {
  extends = record { more = omega arith; same = λ a lt. ground arith };
  used = omega arith;
  clock = ground arith;
}

pub choose-Chosen :
    (ts : Option ℕ) (node_id : String) (set : LwwSet) (m : Memory)
    → ClockBelow m.next ts
    → Chosen ts node_id set m (choose node_id ts set.timestamp m)
unfolding choose chosen_clock
choose-Chosen none node_id set m below = alloc-Chosen none node_id set m refl
choose-Chosen (some a) node_id set m below = elim (Bool-cases (ltb 0 (len (m.cells a)))) [
  | inl given ↦ rw given (record {
    extends = record { more = omega arith; same = λ b lt. refl };
    used = below;
    clock = ground arith;
  })
  | inr empty ↦ rw empty (alloc-Chosen (some a) node_id set m empty)
]
