-- ===== src/Engine/Examples.antt =====
-- Runs of the engine, and the theorems about it at concrete calls.
use gossip_pubsub.Base.{length, ◌+◌, ◌*◌, ◌%◌, ◌≤◌, ◌≡◌, ◌↔◌, refl, none, some, List, [], ◌∷◌}
use gossip_pubsub.Base.Words.{u64_mod}
use gossip_pubsub.MemStore.Validity.{IsValid}
use gossip_pubsub.MemStore.Counts.{count_of}
use gossip_pubsub.Engine.{
  Engine, new_engine_mem_only, validate_input, validate_counter_input, get_counter, invalid,
  node_id_empty, key_empty, delta_zero, delta_too_large, counter_inc,
}
use gossip_pubsub.Engine.Inputs.{IsName, validate_input_iff}
use gossip_pubsub.Engine.Runs.{Call, call, run, run_new, gains, run-count, call_error}

validate_runs :
    (validate_input " \t" "k" "e" ≡ some node_id_empty)
    × (validate_input "a" "" "e" ≡ some key_empty)
    × (validate_input "a" "k" "e" ≡ none)
    × (validate_counter_input "a" "k" 0 ≡ some delta_zero)
    × (validate_counter_input "a" "k" 1000001 ≡ some delta_too_large)
unfolding validate_input validate_counter_input
validate_runs = (refl, refl, refl, refl, refl)

validate_input_iff_example :
    (validate_input "a" "k" "e" ≡ none) ↔ (IsName "a" 256 × IsName "k" 256 × IsName "e" 1024)
validate_input_iff_example = validate_input_iff "a" "k" "e"

abbrev calls : List Call
calls =
    Call.add 1 "a" "users" "alice" []
    ∷ Call.increment 2 "a" "likes" 10 []
    ∷ Call.increment 3 "b" "likes" 5 []
    ∷ Call.increment 4 "b" "users" 5 []
    ∷ []

abbrev engine : Engine
engine = new_engine_mem_only 1000

run_new_example :
    IsValid (run calls engine).mem
    × ((run calls engine).mem.ops.bytes ≤ 1000)
    × (144 * length (run calls engine).mem.ops.ops ≤ 1000)
run_new_example = run_new 1000 calls (tt, (tt, (tt, (tt, tt))))

run-count_example :
    count_of (get_counter "likes" (run calls engine)) % u64_mod
    ≡ (count_of (get_counter "likes" engine) + gains "likes" calls engine) % u64_mod
run-count_example = run-count "likes" calls engine

call_error_example : (call (Call.increment 2 "a" "likes" 0 []) engine).1 ≡ engine
unfolding call counter_inc validate_counter_input
call_error_example = call_error (Call.increment 2 "a" "likes" 0 []) engine (invalid delta_zero) refl
