-- ===== src/Counter.antt =====
-- CRDT/crdt.go, "Grow-only Counter": a total for each node. `Counter.Merge` is `merge_with` behind
-- the type test of `gossip_pubsub.Crdt`.
mod Examples
pub mod Total
pub mod Convergence
use gossip_pubsub.Base.{ℕ, String, Bool, Option, none, some, List, [], ◌∷◌, ltb, if◌then◌else◌}
use gossip_pubsub.Base.Words.{add64}
use gossip_pubsub.GoMap.{GoMap, lookup, insert, len, for_range}
use gossip_pubsub.Clock
use gossip_pubsub.Clock.{VectorClock, copy_entry}

pub record Counter : Type 0 where
  pub key : String
  pub counters : GoMap ℕ
  pub timestamp : VectorClock

unfoldable pub new_counter : String → Counter
new_counter key = record { key = key; counters = []; timestamp = [] }

abbrev pub get_key : Counter → String
get_key c = c.key

abbrev pub get_timestamp : Counter → VectorClock
get_timestamp c = c.timestamp

-- counters[nodeID], where a missing entry reads as 0.
abbrev pub count_at : String → GoMap ℕ → ℕ
count_at n m = elim (lookup n m) [ none ↦ 0 | some v ↦ v ]

-- counters[nodeID] += value
unfoldable pub add_value : String → ℕ → GoMap ℕ → GoMap ℕ
add_value node_id value m = insert node_id (add64 (count_at node_id m) value) m

unfoldable pub increment : String → ℕ → Counter → Counter
unfolding add_value
increment node_id value c = record c {
  counters = add_value node_id value c.counters;
  timestamp = Clock.increment node_id c.timestamp;
}

unfoldable pub increment_with_timestamp : String → ℕ → VectorClock → Counter → Counter
unfolding add_value
increment_with_timestamp node_id value ts c =
    if ltb 0 (len ts)
    then record c {
      counters = add_value node_id value c.counters;
      timestamp = Clock.merge c.timestamp ts;
    }
    else record c {
      counters = add_value node_id value c.counters;
      timestamp = Clock.increment node_id c.timestamp;
    }

-- total += v, from the value of `total` before the round.
unfoldable pub add_to_total : String → ℕ → ℕ → ℕ
unfolding add64
add_to_total n v total = add64 total v

unfoldable pub value : Counter → ℕ
unfolding add_to_total
value c = for_range add_to_total c.counters 0

unfoldable pub merge_count : String → ℕ → GoMap ℕ → GoMap ℕ
merge_count n v res = elim (lookup n res) [
  | none ↦ insert n v res
  | some our ↦ if ltb our v then insert n v res else res
]

unfoldable pub merge_with : Counter → Counter → Counter
unfolding copy_entry merge_count
merge_with c o = record {
  key = c.key;
  counters = for_range merge_count o.counters (for_range copy_entry c.counters []);
  timestamp = Clock.merge c.timestamp o.timestamp;
}
