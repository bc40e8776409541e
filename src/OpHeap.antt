-- ===== src/OpHeap.antt =====
-- CRDT/Heap.go: operations in the order of their arrival, bounded by an estimate of their bytes.
-- Sizes are sums of lengths, so int64 values that stay below 2^63 are plain numbers; a negative
-- bound behaves as 0.
mod Examples
pub mod Bounded
pub mod Drift
pub mod Sizes
use Prim.Native.String.{len as str_len}
use gossip_pubsub.Base.{
  length, ℕ, ◌+◌, ◌-◌, ◌*◌, String, Bool, List, [], ◌∷◌, ◌++◌, ltb, if◌then◌else◌,
}
use gossip_pubsub.GoMap.{GoMap, for_range, len}
use gossip_pubsub.Clock.{VectorClock}

-- `OpKind` is a uint8: three named values, and others.
pub data OpKind : Type 0 where
  op_add op_remove op_counter_inc : OpKind
  unknown : ℕ → OpKind

pub record Op : Type 0 where
  pub key : String
  pub kind : OpKind
  pub node_id : String
  pub element : String
  pub value : ℕ
  pub ts : VectorClock
  pub wall_time : ℕ

-- for nodeID := range o.TS { n += … }
unfoldable pub add_entry_size : String → ℕ → ℕ → ℕ
add_entry_size node_id v n = n + (16 + str_len node_id + 8 + 8)

unfoldable pub approx_size : Op → ℕ
unfolding add_entry_size
approx_size o =
    let fields = 8 + 8 + 1 + 7 + 8 + 8 + 8 + 8 + 24 in
    let strings = (16 + str_len o.key) + (16 + str_len o.node_id) + (16 + str_len o.element) in
    let map_header = 8 + 8 in
    for_range add_entry_size o.ts (fields + strings + map_header) + len o.ts * 2

pub record OpHeap : Type 0 where
  pub ops : List Op
  pub bytes : ℕ
  pub cap_bytes : ℕ

unfoldable pub new_op_heap : ℕ → OpHeap
new_op_heap cap_bytes = record { ops = []; bytes = 0; cap_bytes = cap_bytes }

-- What the loop of `Append` leaves, and what it evicts.
pub record Eviction : Type 0 where
  pub ops : List Op
  pub bytes : ℕ
  pub evicted : List Op

-- for h.bytes > h.capBytes && h.ops.Len() > 0
unfoldable pub evict : ℕ → List Op → ℕ → List Op → Eviction
evict cap [] bytes evicted = record { ops = []; bytes = bytes; evicted = evicted }
evict cap (old ∷ ops) bytes evicted =
    let rest = evict cap ops (bytes - approx_size old) (evicted ++ old ∷ []) in
    if ltb cap bytes then rest else record { ops = old ∷ ops; bytes = bytes; evicted = evicted }

unfoldable pub append : Op → OpHeap → OpHeap × List Op
unfolding evict
append op h =
    let r = evict h.cap_bytes (h.ops ++ op ∷ []) (h.bytes + approx_size op) [] in
    (record h { ops = r.ops; bytes = r.bytes }, r.evicted)

pub record HeapStats : Type 0 where
  pub count : ℕ
  pub bytes : ℕ

unfoldable pub stats : OpHeap → HeapStats
stats h = record { count = length h.ops; bytes = h.bytes }

unfoldable pub heap_len : OpHeap → ℕ
heap_len h = length h.ops

unfoldable pub heap_bytes : OpHeap → ℕ
heap_bytes h = h.bytes
