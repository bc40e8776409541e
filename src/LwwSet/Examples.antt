-- ===== src/LwwSet/Examples.antt =====
-- Runs of the set operations, and the theorems about them at concrete sets.
use gossip_pubsub.Base.{String, ◌≡◌, refl, Bool, true, false, some, List, [], ◌∷◌, arith}
use gossip_pubsub.Base.Sorting.{sort_strings}
use gossip_pubsub.GoMap.{lookup, insert, for_range}
use gossip_pubsub.Clock
use gossip_pubsub.Clock.{VectorClock, unordered, extract_node_id}
use gossip_pubsub.LwwSet.{LwwSet, new_lww_set, apply_op, contains, get_elements, merge_with}
use gossip_pubsub.LwwSet.Validity.{IsValid, new_lww_set-IsValid}
use gossip_pubsub.LwwSet.Visible.{
  SetOp, run_ops, last_wins, RoomFor, contains-run_ops, run_ops-IsValid,
}
use gossip_pubsub.LwwSet.Convergence.{merge_fast_forward}
use gossip_pubsub.LwwSet.Agreement.{merge_swaps_tied}

abbrev op : String → String → Bool → SetOp
op n e b = record { node_id = n; element = e; is_add = b }

abbrev ops : List SetOp
ops = op "a" "x" true ∷ op "a" "y" true ∷ op "a" "x" false ∷ []

abbrev empty : LwwSet
empty = new_lww_set "users"

empty-RoomFor : RoomFor 3 empty.timestamp
unfolding new_lww_set lookup
empty-RoomFor = record { fits = omega arith; at = λ k x e. cc }

get_elements_runs : get_elements (run_ops ops empty) ≡ "y" ∷ []
unfolding get_elements contains apply_op new_lww_set lookup insert for_range sort_strings
    Clock.compare Clock.increment Clock.copy_entry
get_elements_runs = refl

contains-run_ops_example : contains "x" (run_ops ops empty) ≡ last_wins ops "x" (contains "x" empty)
contains-run_ops_example =
    contains-run_ops ops empty "x" (new_lww_set-IsValid "users") empty-RoomFor

after_ops-IsValid : IsValid (run_ops ops empty)
after_ops-IsValid = run_ops-IsValid ops empty (new_lww_set-IsValid "users") empty-RoomFor

merge_fast_forward_example :
    (contains "y" (merge_with empty (run_ops ops empty)) ≡ contains "y" (run_ops ops empty))
    × (contains "y" (merge_with (run_ops ops empty) empty) ≡ contains "y" (run_ops ops empty))
merge_fast_forward_example =
    merge_fast_forward ops empty "y" (new_lww_set-IsValid "users") empty-RoomFor

-- Two replicas that add one element each on its own.
abbrev at_a : LwwSet
at_a = run_ops (op "a" "x" true ∷ []) empty

abbrev at_b : LwwSet
at_b = run_ops (op "b" "x" true ∷ []) empty

empty-RoomFor_one : RoomFor 1 empty.timestamp
unfolding new_lww_set lookup
empty-RoomFor_one = record { fits = omega arith; at = λ k x e. cc }

at_a-IsValid : IsValid at_a
at_a-IsValid =
    run_ops-IsValid (op "a" "x" true ∷ []) empty (new_lww_set-IsValid "users") empty-RoomFor_one

at_b-IsValid : IsValid at_b
at_b-IsValid =
    run_ops-IsValid (op "b" "x" true ∷ []) empty (new_lww_set-IsValid "users") empty-RoomFor_one

-- Both replicas know the first add of "a" and add again; the larger counter is that of "a" on both.
abbrev twice_then : String → List SetOp
twice_then n = op "a" "x" true ∷ op "a" "x" true ∷ op n "x" true ∷ []

abbrev tied_b : LwwSet
tied_b = run_ops (twice_then "b") empty

abbrev tied_c : LwwSet
tied_c = run_ops (twice_then "c") empty

tied_b-IsValid : IsValid tied_b
tied_b-IsValid = run_ops-IsValid (twice_then "b") empty (new_lww_set-IsValid "users") empty-RoomFor

tied_c-IsValid : IsValid tied_c
tied_c-IsValid = run_ops-IsValid (twice_then "c") empty (new_lww_set-IsValid "users") empty-RoomFor

abbrev clock_b : VectorClock
clock_b = ("a", 2) ∷ ("b", 1) ∷ []

abbrev clock_c : VectorClock
clock_c = ("a", 2) ∷ ("c", 1) ∷ []

merge_swaps_tied_example :
    (lookup "x" (merge_with tied_b tied_c).adds ≡ some clock_c)
    × (lookup "x" (merge_with tied_c tied_b).adds ≡ some clock_b)
unfolding apply_op new_lww_set lookup insert for_range Clock.increment extract_node_id Clock.compare
    Clock.copy_entry
merge_swaps_tied_example =
    merge_swaps_tied tied_b tied_c "x" clock_b clock_c tied_b-IsValid tied_c-IsValid refl refl refl
      refl
