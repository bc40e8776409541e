-- ===== src/LwwSet.antt =====
-- CRDT/crdt.go, "LWW Set": a set whose elements carry the clock of their last add and of their
-- last remove. `LWWSet.Merge` is `merge_with` behind the type test of `gossip_pubsub.Crdt`.
mod Examples
pub mod Validity
pub mod Visible
pub mod Convergence
pub mod Agreement
use gossip_pubsub.Base.{
  String, ◌≡◌, Bool, true, false, Option, none, some, List, [], ◌∷◌, if◌then◌else◌,
}
use gossip_pubsub.Base.Sorting.{sort_strings}
use gossip_pubsub.GoMap.{GoMap, lookup, insert, for_range}
use gossip_pubsub.Clock
use gossip_pubsub.Clock.{
  VectorClock, Causality, happens_after, happens_before, unordered, copy_entry, increment, resolve,
}

pub record LwwSet : Type 0 where
  pub key : String
  pub adds : GoMap VectorClock
  pub removes : GoMap VectorClock
  pub timestamp : VectorClock

unfoldable pub new_lww_set : String → LwwSet
new_lww_set key = record { key = key; adds = []; removes = []; timestamp = [] }

abbrev pub get_key : LwwSet → String
get_key s = s.key

abbrev pub get_timestamp : LwwSet → VectorClock
get_timestamp s = s.timestamp

-- The clock of a local operation: a copy of the set's clock, incremented.
unfoldable pub op_clock : String → LwwSet → VectorClock
op_clock node_id s = increment node_id (for_range copy_entry s.timestamp [])

unfoldable pub apply_op : String → String → Bool → LwwSet → LwwSet
unfolding op_clock
apply_op node_id element is_add s =
    let ts = op_clock node_id s in
    if is_add
    then record s { adds = insert element ts s.adds; timestamp = ts }
    else record s { removes = insert element ts s.removes; timestamp = ts }

abbrev pub add : String → String → LwwSet → LwwSet
add node_id element s = apply_op node_id element true s

abbrev pub remove : String → String → LwwSet → LwwSet
remove node_id element s = apply_op node_id element false s

-- `Compare(…) > 0`.
abbrev pub is_after : Causality → Bool
is_after happens_after = true
is_after happens_before = false
is_after unordered = false

unfoldable pub contains : String → LwwSet → Bool
contains element s = elim (lookup element s.adds) [
  | none ↦ false
  | some add_ts ↦ elim (lookup element s.removes) [
    | none ↦ true
    | some rm_ts ↦ is_after (Clock.compare add_ts rm_ts)
  ]
]

-- The loop over `Adds`.
unfoldable pub visible : LwwSet → GoMap VectorClock → List String
visible s [] = []
visible s ((el, ts) ∷ rest) =
    let others = visible s rest in if contains el s then el ∷ others else others

unfoldable pub get_elements : LwwSet → List String
unfolding visible
get_elements s = sort_strings (visible s s.adds)

-- One round of the second loop over adds, and of that over removes.
unfoldable pub merge_element : String → VectorClock → GoMap VectorClock → GoMap VectorClock
merge_element e ts res = elim (lookup e res) [
  | none ↦ insert e ts res
  | some our ↦ insert e (resolve our ts) res
]

unfoldable pub merge_elements : GoMap VectorClock → GoMap VectorClock → GoMap VectorClock
unfolding merge_element
merge_elements ours theirs = for_range merge_element theirs (for_range copy_entry ours [])

unfoldable pub merge_with : LwwSet → LwwSet → LwwSet
unfolding merge_elements
merge_with s o = record {
  key = s.key;
  adds = merge_elements s.adds o.adds;
  removes = merge_elements s.removes o.removes;
  timestamp = Clock.merge s.timestamp o.timestamp;
}
