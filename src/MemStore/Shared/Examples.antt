-- ===== src/MemStore/Shared/Examples.antt =====
-- Runs of the store with shared clocks, and the theorems about it at a concrete store.
use gossip_pubsub.Base.{if◌then◌else◌, ℕ, ◌+◌, ◌≡◌, refl, Bool, true, false, arith, some, [], ◌∷◌}
use gossip_pubsub.GoMap.{GoMap, lookup, for_range, insert, delete}
use gossip_pubsub.Clock
use gossip_pubsub.Clock.{VectorClock}
use gossip_pubsub.OpHeap.{op_add, approx_size}
use gossip_pubsub.OpHeap.Bounded.{total_size}
use gossip_pubsub.OpHeap.Drift.{Drifted}
use gossip_pubsub.MemStore.Shared.{
  Memory, SharedOp, SharedStore, evict_shared, log_value, append_shared, prune_at, prune_shared,
}
use gossip_pubsub.MemStore.Shared.Pruned.{stands_among}
use gossip_pubsub.MemStore.Shared.Drift.{prune_shared_drifts}
use gossip_pubsub.MemStore.Shared.Refined.{IsAppended, append_shared-append_op}

-- One clock of a caller, at address 0.
abbrev memory : Memory
memory = record { cells = λ a. ("a", 1) ∷ ("b", 2) ∷ []; next = 1 }

abbrev empty : SharedStore
empty = record {
  memory = memory;
  objects = [];
  ops = [];
  bytes = 0;
  cap_bytes = 1000;
  max_bytes = 1000;
  metrics = record { total_ops_appended = 0; total_ops_evicted = 0; last_evict_at = 0 };
  has_handler = false;
  handled = [];
}

abbrev alice : SharedOp
alice = record {
  key = "users";
  kind = op_add;
  node_id = "a";
  element = "alice";
  value = 0;
  ts = some 0;
  wall_time = 0;
}

append_shared-append_op_example : IsAppended 5 alice empty (append_shared 5 alice empty)
append_shared-append_op_example =
    append_shared-append_op 5 alice empty (record { objects = tt; ops = tt }) (omega arith)

abbrev with_alice : SharedStore
with_alice = (append_shared 5 alice empty).1

abbrev only_b : GoMap Bool
only_b = ("b", true) ∷ []

with_alice-Drifted : Drifted 0 (log_value with_alice)
unfolding append_shared lookup insert evict_shared Drifted total_size approx_size for_range
    Clock.prune
with_alice-Drifted = refl

prune_shared_drifts_example :
    ((a : ℕ)
      → (prune_shared only_b with_alice).memory.cells a ≡ (
          if stands_among only_b a with_alice.objects
          then Clock.prune only_b (with_alice.memory.cells a)
          else with_alice.memory.cells a))
    × (more : ℕ) × (total_size (log_value with_alice).ops
        ≡ total_size (log_value (prune_shared only_b with_alice)).ops + more)
    × ((prune_shared only_b with_alice).bytes ≡ with_alice.bytes)
    × Drifted (0 + more) (log_value (prune_shared only_b with_alice))
prune_shared_drifts_example = prune_shared_drifts only_b with_alice 0 with_alice-Drifted

-- The operation was counted with both entries of its clock, and has one now.
drift_runs :
    ((log_value (prune_shared only_b with_alice)).bytes ≡ 225)
    × (total_size (log_value (prune_shared only_b with_alice)).ops ≡ 190)
unfolding prune_shared prune_at append_shared lookup insert delete evict_shared total_size
    approx_size for_range Clock.prune
drift_runs = (refl, refl)
