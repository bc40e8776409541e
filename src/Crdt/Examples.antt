-- ===== src/Crdt/Examples.antt =====
-- Runs of `Merge` behind the interface, and the theorem about it at concrete objects.
use gossip_pubsub.Base.{◌≡◌, refl, err}
use gossip_pubsub.LwwSet.{new_lww_set}
use gossip_pubsub.LwwSet.Validity.{new_lww_set-IsValid}
use gossip_pubsub.Counter.{new_counter}
use gossip_pubsub.Crdt.{
  Crdt, lww_set, counter, merge, different_types, different_keys, MergeOutcome, merge-MergeOutcome,
}

abbrev users : Crdt
users = lww_set (new_lww_set "users")

abbrev groups : Crdt
groups = lww_set (new_lww_set "groups")

merge_errors :
    (merge users (counter (new_counter "users")) ≡ err different_types)
    × (merge users groups ≡ err different_keys)
unfolding merge new_lww_set
merge_errors = (refl, refl)

merge-MergeOutcome_example : MergeOutcome users groups (merge users groups)
merge-MergeOutcome_example =
    merge-MergeOutcome users groups (new_lww_set-IsValid "users") (new_lww_set-IsValid "groups")
