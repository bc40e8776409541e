-- ===== src/OpHeap/Examples.antt =====
-- Runs of the operation log, and the theorems about it at concrete logs.
use gossip_pubsub.Base.{◌≤◌, ◌-◌, ◌<◌, ◌≡◌, ◌⊎◌, refl, List, [], ◌∷◌, ◌++◌}
use gossip_pubsub.GoMap.{for_range}
use gossip_pubsub.OpHeap.{
  Op, op_add, OpHeap, new_op_heap, append, approx_size, evict, stats, heap_len, heap_bytes,
}
use gossip_pubsub.OpHeap.Drift.{Drifted, tightened, append-Drifted}
use gossip_pubsub.OpHeap.Bounded.{
  IsValid, new_op_heap-IsValid, append-IsValid, append_evicts, total_size,
}

abbrev likes : Op
likes = record {
  key = "users";
  kind = op_add;
  node_id = "a";
  element = "alice";
  value = 0;
  ts = ("a", 1) ∷ [];
  wall_time = 0;
}

size_runs : approx_size likes ≡ 190
unfolding approx_size for_range
size_runs = refl

abbrev two : OpHeap
two = (append likes (append likes (new_op_heap 400)).0).0

two-IsValid : IsValid two
two-IsValid =
    append-IsValid likes (append likes (new_op_heap 400)).0
      (append-IsValid likes (new_op_heap 400) (new_op_heap-IsValid 400))

stats_runs :
    (stats two ≡ record { count = 2; bytes = 380 }) × (heap_len two ≡ 2) × (heap_bytes two ≡ 380)
unfolding stats append new_op_heap evict approx_size for_range heap_len heap_bytes
stats_runs = (refl, refl, refl)

evicts_runs : (append likes two).1 ≡ likes ∷ []
unfolding append new_op_heap evict approx_size for_range
evicts_runs = refl

append_evicts_example :
    ((append likes two).1 ++ (append likes two).0.ops ≡ two.ops ++ likes ∷ [])
    × (((append likes two).1 ≡ [])
        ⊎ ((before : List Op) × (last : Op) × ((append likes two).1 ≡ before ++ last ∷ [])
            × (two.cap_bytes < total_size (last ∷ (append likes two).0.ops))))
append_evicts_example = append_evicts likes two two-IsValid

-- A log that counts ten bytes too many.
abbrev ten_over : OpHeap
ten_over = record two { bytes = 390 }

ten_over-Drifted : Drifted 10 ten_over
unfolding Drifted append new_op_heap evict approx_size for_range total_size
ten_over-Drifted = refl

append-Drifted_example :
    ((append likes ten_over).1 ≡ (append likes (tightened 10 ten_over)).1)
    × (tightened 10 (append likes ten_over).0 ≡ (append likes (tightened 10 ten_over)).0)
    × Drifted 10 (append likes ten_over).0
    × (total_size (append likes ten_over).0.ops ≤ ten_over.cap_bytes - 10)
append-Drifted_example = append-Drifted 10 likes ten_over ten_over-Drifted
