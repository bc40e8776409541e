-- ===== src/Clock.antt =====
-- CRDT/crdt.go, "Vector Clock Section": a clock maps node ids to counters.
-- A Go method that returns a fresh map is a function; one that writes into its receiver returns
-- the map after the call.
mod Examples
pub mod Order
pub mod Comparing
pub mod Merge
pub mod Increment
pub mod Pruning
pub mod TieBreak
pub mod Swapped
use gossip_pubsub.Base.{
  ℕ, ◌+◌, String, Bool, true, false, Option, none, some, List, [], ◌∷◌, ◌&&◌, ltb, if◌then◌else◌,
}
use gossip_pubsub.Base.Words.{add64}
use gossip_pubsub.Base.Strings.{str_lt}
use gossip_pubsub.GoMap.{GoMap, lookup, insert, delete, for_range}

abbrev pub VectorClock : Type 0
VectorClock = GoMap ℕ

-- The result of `Compare`: 1, -1 and 0.
pub data Causality : Type 0 where
  happens_after happens_before unordered : Causality

-- The three local variables of `Compare`.
pub record Flags : Type 0 where
  pub less : Bool
  pub greater : Bool
  pub equal : Bool

-- The set `allNodes`.
unfoldable pub add_node {ℓ} : {V : Type ℓ} → String → V → GoMap Bool → GoMap Bool
add_node node v nodes = insert node true nodes

unfoldable pub all_nodes : VectorClock → VectorClock → GoMap Bool
unfolding add_node
all_nodes vc other = for_range add_node other (for_range add_node vc [])

-- One round of the loop over `allNodes`.
unfoldable pub compare_node : VectorClock → VectorClock → String → Bool → Flags → Flags
compare_node vc other node seen s = elim (lookup node vc) [
  | none ↦ record s { less = true; equal = false }
  | some our_ts ↦ elim (lookup node other) [
    | none ↦ record s { greater = true; equal = false }
    | some other_ts ↦
        if ltb other_ts our_ts
        then record s { greater = true; equal = false }
        else if ltb our_ts other_ts
        then record s { less = true; equal = false }
        else s
  ]
]

abbrev pub no_flags : Flags
no_flags = record { less = false; greater = false; equal = true }

unfoldable pub verdict : Flags → Causality
verdict s =
    if s.equal
    then unordered
    else if s.less && s.greater
    then unordered
    else if s.greater
    then happens_after
    else happens_before

unfoldable pub compare : VectorClock → VectorClock → Causality
unfolding all_nodes compare_node verdict
compare vc other = verdict (for_range (compare_node vc other) (all_nodes vc other) no_flags)

-- result[node] = ts
unfoldable pub copy_entry {ℓ} : {V : Type ℓ} → String → V → GoMap V → GoMap V
copy_entry k v r = insert k v r

-- The second loop of `Merge`.
unfoldable pub merge_node : String → ℕ → VectorClock → VectorClock
merge_node node other_ts result = elim (lookup node result) [
  | none ↦ insert node other_ts result
  | some our_ts ↦ if ltb our_ts other_ts then insert node other_ts result else result
]

unfoldable pub merge : VectorClock → VectorClock → VectorClock
unfolding copy_entry merge_node
merge vc other = for_range merge_node other (for_range copy_entry vc [])

unfoldable pub deterministic_merge : VectorClock → VectorClock → String → String → VectorClock
deterministic_merge ts1 ts2 node_id1 node_id2 = elim (compare ts1 ts2) [
  | happens_after ↦ ts1
  | happens_before ↦ ts2
  | unordered ↦ if str_lt node_id1 node_id2 then ts1 else ts2
]

-- The variables `maxNode` and `maxTS` of `extractNodeID`.
pub record Best : Type 0 where
  pub max_node : String
  pub max_ts : ℕ

unfoldable pub extract_round : String → ℕ → Best → Best
extract_round node timestamp s =
    if ltb s.max_ts timestamp then record { max_node = node; max_ts = timestamp } else s

-- The entries stand in the order in which `range` visits them in this call; another call on the same
-- map may get them in another order.
unfoldable pub extract_node_id : VectorClock → String
unfolding extract_round
extract_node_id [] = ""
extract_node_id (e ∷ ts) =
    (for_range extract_round (e ∷ ts) (record { max_node = ""; max_ts = 0 })).max_node

-- The choice between two clocks of one element in the loops of `LWWSet.Merge`: `our` is in the result already, `ts` comes from the other set.
unfoldable pub resolve : VectorClock → VectorClock → VectorClock
resolve our ts = elim (compare ts our) [
  | happens_after ↦ ts
  | happens_before ↦ our
  | unordered ↦ deterministic_merge our ts (extract_node_id our) (extract_node_id ts)
]

unfoldable pub increment : String → VectorClock → VectorClock
unfolding add64
increment node_id vc = elim (lookup node_id vc) [
  | some current ↦ insert node_id (add64 current 1) vc
  | none ↦ insert node_id 1 vc
]

-- Deleting an entry that the running `range` has not reached yet hides it from the loop; each
-- entry is deleted by its own round only.
unfoldable pub prune_node : GoMap Bool → String → ℕ → VectorClock → VectorClock
prune_node active_nodes node ts vc = elim (lookup node active_nodes) [
  | some true ↦ vc
  | some false ↦ delete node vc
  | none ↦ delete node vc
]

unfoldable pub prune : GoMap Bool → VectorClock → VectorClock
unfolding prune_node
prune active_nodes vc = for_range (prune_node active_nodes) vc vc

unfoldable pub get_active_nodes : VectorClock → GoMap Bool
unfolding add_node
get_active_nodes vc = for_range add_node vc []
