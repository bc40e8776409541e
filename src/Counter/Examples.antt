-- ===== src/Counter/Examples.antt =====
-- Runs of the counter operations, and the theorems about them at concrete counters.
use gossip_pubsub.Base.{◌-◌, ◌≡◌, refl}
use gossip_pubsub.Base.Words.{u64_mod}
use gossip_pubsub.GoMap.{lookup, insert, for_range}
use gossip_pubsub.Clock
use gossip_pubsub.Counter.{Counter, new_counter, increment, value, merge_with}
use gossip_pubsub.Counter.Convergence.{
  IsValid, new_counter-IsValid, increment-IsValid, merge_with_value,
}

abbrev zero_likes : Counter
zero_likes = new_counter "likes"

abbrev at_a : Counter
at_a = increment "a" 10 zero_likes

abbrev at_b : Counter
at_b = increment "b" 5 zero_likes

at_a-IsValid : IsValid at_a
at_a-IsValid = increment-IsValid "a" 10 zero_likes (new_counter-IsValid "likes")

at_b-IsValid : IsValid at_b
at_b-IsValid = increment-IsValid "b" 5 zero_likes (new_counter-IsValid "likes")

value_runs : value (merge_with at_a at_b) ≡ 15
unfolding value merge_with increment new_counter lookup insert for_range Clock.increment
value_runs = refl

value_wraps : value (increment "a" 3 (increment "b" (u64_mod - 1) zero_likes)) ≡ 2
unfolding value increment new_counter lookup insert for_range Clock.increment
value_wraps = refl

merge_with_value_example :
    (value (merge_with at_a at_b) ≡ value (merge_with at_b at_a))
    × (value (merge_with (merge_with at_a at_b) zero_likes)
        ≡ value (merge_with at_a (merge_with at_b zero_likes)))
    × (value (merge_with at_a at_a) ≡ value at_a)
merge_with_value_example =
    merge_with_value at_a at_b zero_likes at_a-IsValid at_b-IsValid (new_counter-IsValid "likes")
