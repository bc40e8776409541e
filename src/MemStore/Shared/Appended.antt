-- ===== src/MemStore/Shared/Appended.antt =====
-- `applySetOp` of CRDT/MemoryStore.go, on clocks at addresses and as values.
use gossip_pubsub.Base.{
  ℕ, ◌≤◌, ◌<◌, String, ◌≡◌, ◌∙◌, Bool, true, false, Option, none, some, [], ◌∷◌, inl, inr,
  Bool-cases, arith, ◌==◌,
}
use gossip_pubsub.GoMap.{GoMap, lookup, insert}
use gossip_pubsub.GoMap.Values.{map_values, map_values-insert}
use gossip_pubsub.LwwSet.{LwwSet}
use gossip_pubsub.MemStore.{chosen_clock, apply_set_op}
use gossip_pubsub.MemStore.Shared.{
  Memory, SharedSet, SharedCrdt, shared_set, own_counter, read, set_value, choose, share_set_op,
}
use gossip_pubsub.MemStore.Shared.Views.{
  AddressesBelow, CrdtBelow, ObjectsBelow, ClockBelow, Extends, clocks_same, Chosen, choose-Chosen,
}

AddressesBelow-insert :
    (n a : ℕ) (k : String) (m : GoMap ℕ)
    → a < n
    → AddressesBelow n m
    → AddressesBelow n (insert k a m)
unfolding insert
AddressesBelow-insert n a k [] lt h = (lt, tt)
AddressesBelow-insert n a k ((j, b) ∷ m) lt h = elim (Bool-cases (j == k)) [
  | inl same ↦ rw same (lt, h.1)
  | inr other ↦ rw other (h.0, AddressesBelow-insert n a k m lt h.1)
]

AddressesBelow-mono : (n n' : ℕ) (m : GoMap ℕ) → n ≤ n' → AddressesBelow n m → AddressesBelow n' m
AddressesBelow-mono n n' [] le h = tt
AddressesBelow-mono n n' ((k, a) ∷ m) le h = (omega arith, AddressesBelow-mono n n' m le h.1)

CrdtBelow-mono : (n n' : ℕ) (c : SharedCrdt) → n ≤ n' → CrdtBelow n c → CrdtBelow n' c
CrdtBelow-mono n n' (shared_set s) le h =
    (AddressesBelow-mono n n' s.adds le h.0, AddressesBelow-mono n n' s.removes le h.1)
CrdtBelow-mono n n' (own_counter c) le h = tt

pub ObjectsBelow-mono :
    (n n' : ℕ) (o : GoMap SharedCrdt) → n ≤ n' → ObjectsBelow n o → ObjectsBelow n' o
ObjectsBelow-mono n n' [] le h = tt
ObjectsBelow-mono n n' ((k, c) ∷ o) le h =
    (CrdtBelow-mono n n' c le h.0, ObjectsBelow-mono n n' o le h.1)

pub ObjectsBelow-insert :
    (n : ℕ) (k : String) (c : SharedCrdt) (o : GoMap SharedCrdt)
    → CrdtBelow n c
    → ObjectsBelow n o
    → ObjectsBelow n (insert k c o)
unfolding insert
ObjectsBelow-insert n k c [] b h = (b, tt)
ObjectsBelow-insert n k c ((j, d) ∷ o) b h = elim (Bool-cases (j == k)) [
  | inl same ↦ rw same (b, h.1)
  | inr other ↦ rw other (h.0, ObjectsBelow-insert n k c o b h.1)
]

unfoldable pub OptionBelow : ℕ → Option SharedCrdt → Type 0
OptionBelow n none = Unit
OptionBelow n (some c) = CrdtBelow n c

pub lookup-Below :
    (n : ℕ) (k : String) (o : GoMap SharedCrdt) → ObjectsBelow n o → OptionBelow n (lookup k o)
unfolding lookup OptionBelow
lookup-Below n k [] h = tt
lookup-Below n k ((j, c) ∷ o) h = elim (Bool-cases (j == k)) [
  | inl same ↦ rw same (h.0)
  | inr other ↦ rw other (lookup-Below n k o h.1)
]

-- A set after an operation: it reads as in the value model, and its addresses are in use.
pub record SetStored (set : SharedSet) (n e : String) (is_add : Bool) (ts : Option ℕ) (m : Memory)
    (r : SharedSet × Memory) : Type 0 where
  pub extends : Extends m r.1
  pub value :
      set_value r.1.cells r.0 ≡ apply_set_op (set_value m.cells set) n e is_add (read m.cells ts)
  pub below : CrdtBelow r.1.next (shared_set r.0)

clocks-insert :
    {ts : Option ℕ} {n : String} {set : LwwSet} {m : Memory} {r : ℕ × Memory}
    (c : Chosen ts n set m r) (e : String) (l : GoMap ℕ)
    → AddressesBelow m.next l
    → map_values r.1.cells (insert e r.0 l)
      ≡ insert e (chosen_clock n (read m.cells ts) set) (map_values m.cells l)
clocks-insert {ts} {n} {set} {m} {r} c e l h =
    map_values-insert r.1.cells e r.0 l ∙ cc (c.clock, clocks_same c.extends l h)

pub share_set_op-SetStored :
    (set : SharedSet) (n e : String) (is_add : Bool) (ts : Option ℕ) (m : Memory)
    → CrdtBelow m.next (shared_set set)
    → ClockBelow m.next ts
    → SetStored set n e is_add ts m (share_set_op set n e is_add ts m)
unfolding share_set_op apply_set_op
share_set_op-SetStored set n e true ts m h b =
    let r = choose n ts set.timestamp m in
    let c = choose-Chosen ts n (set_value m.cells set) m b in
    record {
      extends = c.extends;
      value = cc (c.clock, clocks-insert c e set.adds h.0, clocks_same c.extends set.removes h.1);
      below = (
        AddressesBelow-insert r.1.next r.0 e set.adds c.used
            (AddressesBelow-mono m.next r.1.next set.adds c.extends.more h.0),
        AddressesBelow-mono m.next r.1.next set.removes c.extends.more h.1,
      );
    }
share_set_op-SetStored set n e false ts m h b =
    let r = choose n ts set.timestamp m in
    let c = choose-Chosen ts n (set_value m.cells set) m b in
    record {
      extends = c.extends;
      value = cc (c.clock, clocks-insert c e set.removes h.1, clocks_same c.extends set.adds h.0);
      below = (
        AddressesBelow-mono m.next r.1.next set.adds c.extends.more h.0,
        AddressesBelow-insert r.1.next r.0 e set.removes c.used
            (AddressesBelow-mono m.next r.1.next set.removes c.extends.more h.1),
      );
    }
