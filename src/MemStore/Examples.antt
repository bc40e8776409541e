-- ===== src/MemStore/Examples.antt =====
-- Runs of the store, and the theorems about it at concrete stores.
use gossip_pubsub.Base.{
  String, eq_iff, Bool, ◌≡◌, ◌⊎◌, refl, true, false, none, some, [], ◌∷◌, ◌==◌, if◌then◌else◌,
  arith,
}
use gossip_pubsub.GoMap.{GoMap, lookup, insert, for_range}
use gossip_pubsub.Clock
use gossip_pubsub.Clock.{VectorClock, happens_after}
use gossip_pubsub.LwwSet.{LwwSet, new_lww_set, contains}
use gossip_pubsub.OpHeap.{Op, op_add, op_remove, op_counter_inc, approx_size, append, new_op_heap}
use gossip_pubsub.MemStore.{
  MemStore, new_mem_store, append_op, wrong_type, get_set_elements, apply_set_op,
  prune_vector_clocks,
}
use gossip_pubsub.MemStore.Validity.{IsValid, new_mem_store-IsValid, append_op-IsValid}
use gossip_pubsub.MemStore.Reads.{append_op_outcome, conflicts, stored, stale_add_hides}
use gossip_pubsub.MemStore.Pruned.Hidden.{AgreeActive, prune_hides}
use gossip_pubsub.Crdt.{lww_set}
use gossip_pubsub.MemStore.Sets.{get_set_elements-append_op, in_read}

abbrev alice : Op
alice = record {
  key = "users";
  kind = op_add;
  node_id = "a";
  element = "alice";
  value = 0;
  ts = [];
  wall_time = 0;
}

abbrev store : MemStore
store = new_mem_store 1000

store-IsValid : IsValid store
store-IsValid = new_mem_store-IsValid 1000

abbrev with_alice : MemStore
with_alice = (append_op 0 alice store).1

with_alice-IsValid : IsValid with_alice
with_alice-IsValid = append_op-IsValid 0 alice store tt store-IsValid

-- "b" removes alice, and "c" adds her again.
abbrev without_alice : MemStore
without_alice = (append_op 1 (record alice { kind = op_remove; node_id = "b" }) with_alice).1

abbrev again_alice : MemStore
again_alice = (append_op 2 (record alice { node_id = "c" }) without_alice).1

again_alice-IsValid : IsValid again_alice
again_alice-IsValid =
    append_op-IsValid 2 (record alice { node_id = "c" }) without_alice tt
      (append_op-IsValid 1 (record alice { kind = op_remove; node_id = "b" }) with_alice tt
        with_alice-IsValid)

abbrev a_and_b : GoMap Bool
a_and_b = ("a", true) ∷ ("b", true) ∷ []

abbrev removed_at : VectorClock
removed_at = ("a", 1) ∷ ("b", 1) ∷ []

abbrev added_at : VectorClock
added_at = ("a", 1) ∷ ("b", 1) ∷ ("c", 1) ∷ []

abbrev alice_again : LwwSet
alice_again = record {
  key = "users";
  adds = ("alice", added_at) ∷ [];
  removes = ("alice", removed_at) ∷ [];
  timestamp = added_at;
}

again_alice_runs : lookup "users" again_alice.objects ≡ some (lww_set alice_again)
unfolding append_op new_mem_store lookup insert append new_op_heap approx_size for_range new_lww_set
    Clock.merge Clock.increment
again_alice_runs = refl

clocks_agree : AgreeActive a_and_b added_at removed_at
unfolding lookup
clocks_agree k h = ground (arith, eq_iff "c" k, eq_iff "a" k, eq_iff "b" k)

prune_hides_example :
    (in_read "alice" (get_set_elements "users" again_alice) ≡ true)
    × (in_read "alice" (get_set_elements "users" (prune_vector_clocks a_and_b again_alice)) ≡ false)
unfolding lookup Clock.compare for_range insert
prune_hides_example =
    prune_hides a_and_b again_alice "users" "alice" alice_again added_at removed_at
      again_alice-IsValid again_alice_runs refl refl refl clocks_agree

-- An increment of a key that holds a set.
abbrev likes : Op
likes = record alice { kind = op_counter_inc; value = 3 }

refused_runs : append_op 0 likes with_alice ≡ (some wrong_type, with_alice)
unfolding append_op new_mem_store lookup insert append new_op_heap approx_size for_range
refused_runs = refl

append_op_outcome_example :
    ((append_op 0 likes with_alice ≡ (some wrong_type, with_alice))
      × (conflicts likes.kind (lookup "users" with_alice.objects) ≡ true))
    ⊎ (((append_op 0 likes with_alice).0 ≡ none)
        × (conflicts likes.kind (lookup "users" with_alice.objects) ≡ false)
        × ((j : String)
            → lookup j (append_op 0 likes with_alice).1.objects ≡ (
                if "users" == j
                then stored likes likes.kind (lookup "users" with_alice.objects)
                else lookup j with_alice.objects)))
append_op_outcome_example = append_op_outcome 0 likes with_alice

get_set_elements-append_op_example :
    in_read "alice" (get_set_elements "users" (append_op 0 alice store).1) ≡ (
      if alice.key == "users"
      then (if alice.element == "alice"
          then true
          else in_read "alice" (get_set_elements "users" store))
      else in_read "alice" (get_set_elements "users" store))
unfolding append_op new_mem_store lookup
get_set_elements-append_op_example =
    get_set_elements-append_op 0 alice true store "users" "alice" store-IsValid refl refl tt refl

abbrev seen : LwwSet
seen = record {
  key = "users";
  adds = ("alice", ("a", 5) ∷ []) ∷ [];
  removes = ("alice", ("a", 3) ∷ []) ∷ [];
  timestamp = ("a", 5) ∷ [];
}

abbrev a2 : VectorClock
a2 = ("a", 2) ∷ []

-- The clock 2 of a repeated add lies before the remove at 3, which the add at 5 had undone.
stale_add_hides_example :
    (contains "alice" seen ≡ true)
    × (contains "alice" (apply_set_op seen "a" "alice" true a2) ≡ false)
unfolding lookup insert for_range Clock.compare
stale_add_hides_example =
    stale_add_hides seen "a" "alice" a2 (("a", 5) ∷ []) (("a", 3) ∷ []) (omega arith) refl refl refl
      (λ e. cc)
