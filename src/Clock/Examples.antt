-- ===== src/Clock/Examples.antt =====
-- Runs of the clock operations, and the theorems about them at concrete clocks.
use gossip_pubsub.Base.{eq_iff, ◌≡◌, ◌≢◌, ◌⊎◌, ◌↔◌, refl, [], ◌∷◌, arith}
use gossip_pubsub.Base.Strings.{str_lt}
use gossip_pubsub.GoMap.{lookup, insert, for_range, SameMap}
use gossip_pubsub.Clock.{
  VectorClock, happens_after, happens_before, unordered, compare, merge, extract_node_id, resolve,
}
use gossip_pubsub.Clock.Order.{LeClock, Causal, compare_iff}
use gossip_pubsub.Clock.Increment.{HasRoom}
use gossip_pubsub.Clock.TieBreak.{resolve_not_assoc}
use gossip_pubsub.Clock.Swapped.{resolve_comm_iff}

abbrev a1 : VectorClock
a1 = ("a", 1) ∷ []

abbrev a1c2 : VectorClock
a1c2 = ("a", 1) ∷ ("c", 2) ∷ []

abbrev a1c3 : VectorClock
a1c3 = ("a", 1) ∷ ("c", 3) ∷ []

abbrev a2b2 : VectorClock
a2b2 = ("a", 2) ∷ ("b", 2) ∷ []

abbrev b2a2 : VectorClock
b2a2 = ("b", 2) ∷ ("a", 2) ∷ []

abbrev c2 : VectorClock
c2 = ("c", 2) ∷ []

abbrev b1 : VectorClock
b1 = ("b", 1) ∷ []

compare_runs :
    (compare a1 a1c2 ≡ happens_before)
    × (compare a1c2 a1 ≡ happens_after)
    × (compare a1 b1 ≡ unordered)
    × (compare a1 (("a", 0) ∷ []) ≡ happens_after)
unfolding compare lookup insert for_range
compare_runs = (refl, refl, refl, refl)

compare_iff_example : (compare a1 a1c2 ≡ happens_before) ↔ Causal a1 a1c2 happens_before
compare_iff_example = compare_iff a1 a1c2 happens_before

merge_runs : merge a1c2 (("c", 5) ∷ ("b", 1) ∷ []) ≡ ("a", 1) ∷ ("c", 5) ∷ ("b", 1) ∷ []
unfolding merge lookup insert for_range
merge_runs = refl

room : HasRoom "c" a1c2
unfolding lookup
room x e = ground arith

below : LeClock a1 a1c2
below = ((compare_iff a1 a1c2 happens_before).0 compare_runs.0).0

-- The clock with two leaders, in another order in each call.
resolve_comm_iff_example : SameMap (resolve a2b2 c2) (resolve c2 b2a2) ↔ (
    (compare a2b2 c2 ≢ unordered)
    ⊎ SameMap a2b2 c2
    ⊎ (str_lt (extract_node_id a2b2) (extract_node_id c2)
        ≢ str_lt (extract_node_id c2) (extract_node_id b2a2)))
unfolding lookup
resolve_comm_iff_example =
    resolve_comm_iff a2b2 c2 b2a2 c2 (λ k. ground (arith, eq_iff "a" k, eq_iff "b" k)) (λ k. refl)

-- The first grouping ends with the clock of "b", the second with that of "a".
resolve_not_assoc_example :
    (resolve (resolve a1 a1c2) b1 ≡ b1) × (resolve a1 (resolve a1c2 b1) ≡ a1)
unfolding compare lookup insert for_range extract_node_id str_lt
resolve_not_assoc_example = resolve_not_assoc a1 a1c2 b1 refl refl refl refl refl
