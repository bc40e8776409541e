-- ===== src/MemStore.antt =====
-- CRDT/MemoryStore.go: the live objects and the operation log. Every method holds the store's
-- mutex from its first line to its last, so a method is one step. A Go method that changes an
-- object behind a pointer writes the changed object back under its key.
mod Examples
pub mod Validity
pub mod Reads
pub mod Counts
pub mod Export
pub mod Pruned
pub mod Shared
pub mod Sets
use gossip_pubsub.Base.{
  length, ℕ, ◌+◌, String, ◌≡◌, Bool, true, false, Option, none, some, List, [], ◌∷◌, ◌++◌, ltb,
  if◌then◌else◌,
}
use gossip_pubsub.Base.Words.{add64}
use gossip_pubsub.GoMap.{GoMap, lookup, insert, len, for_range}
use gossip_pubsub.Clock
use gossip_pubsub.Clock.{VectorClock, copy_entry, add_node}
use gossip_pubsub.LwwSet
use gossip_pubsub.LwwSet.{LwwSet, new_lww_set, op_clock}
use gossip_pubsub.Counter
use gossip_pubsub.Counter.{Counter, new_counter}
use gossip_pubsub.Crdt.{Crdt, lww_set, counter}
use gossip_pubsub.OpHeap
use gossip_pubsub.OpHeap.{
  Op, OpKind, op_add, op_remove, op_counter_inc, unknown, OpHeap, new_op_heap,
}

pub record StoreMetrics : Type 0 where
  pub total_ops_appended : ℕ
  pub total_ops_evicted : ℕ
  pub last_evict_at : ℕ

-- The eviction handler is code outside the repository whose result is dropped: a store has one or
-- not, and `handled` lists the batches that it was called with.
pub record MemStore : Type 0 where
  pub objects : GoMap Crdt
  pub ops : OpHeap
  pub max_bytes : ℕ
  pub metrics : StoreMetrics
  pub has_handler : Bool
  pub handled : List (List Op)

abbrev no_metrics : StoreMetrics
no_metrics = record { total_ops_appended = 0; total_ops_evicted = 0; last_evict_at = 0 }

unfoldable pub new_mem_store : ℕ → MemStore
new_mem_store max_bytes = record {
  objects = [];
  ops = new_op_heap max_bytes;
  max_bytes = max_bytes;
  metrics = no_metrics;
  has_handler = false;
  handled = [];
}

unfoldable pub new_mem_store_with_eviction : ℕ → MemStore
new_mem_store_with_eviction max_bytes = record {
  objects = [];
  ops = new_op_heap max_bytes;
  max_bytes = max_bytes;
  metrics = no_metrics;
  has_handler = true;
  handled = [];
}

-- `none` is Go's nil: the key holds an object of the other type.
unfoldable pub get_or_create_set : String → GoMap Crdt → GoMap Crdt × Option LwwSet
get_or_create_set key objects = elim (lookup key objects) [
  | none ↦ (insert key (lww_set (new_lww_set key)) objects, some (new_lww_set key))
  | some (lww_set s) ↦ (objects, some s)
  | some (counter c) ↦ (objects, none)
]

unfoldable pub get_or_create_counter : String → GoMap Crdt → GoMap Crdt × Option Counter
get_or_create_counter key objects = elim (lookup key objects) [
  | none ↦ (insert key (counter (new_counter key)) objects, some (new_counter key))
  | some (lww_set s) ↦ (objects, none)
  | some (counter c) ↦ (objects, some c)
]

-- The clock that `applySetOp` writes.
unfoldable pub chosen_clock : String → VectorClock → LwwSet → VectorClock
chosen_clock node_id ts set =
    if ltb 0 (len ts) then ts else Clock.increment node_id (for_range copy_entry set.timestamp [])

unfoldable pub apply_set_op : LwwSet → String → String → Bool → VectorClock → LwwSet
unfolding chosen_clock
apply_set_op set node_id element is_add ts =
    let chosen = chosen_clock node_id ts set in
    if is_add
    then record set {
      adds = insert element chosen set.adds;
      timestamp = Clock.merge set.timestamp chosen;
    }
    else record set {
      removes = insert element chosen set.removes;
      timestamp = Clock.merge set.timestamp chosen;
    }

unfoldable pub apply_counter_op : Counter → String → ℕ → VectorClock → Counter
apply_counter_op cnt node_id value ts = Counter.increment_with_timestamp node_id value ts cnt

-- The cases of the `switch` of `AppendOp`; `none` is `ErrWrongType`.
unfoldable pub apply_to_set : Op → Bool → GoMap Crdt → Option (GoMap Crdt)
unfolding get_or_create_set apply_set_op
apply_to_set op is_add objects =
    let (created, found) = get_or_create_set op.key objects in
    elim found [
      | none ↦ none
      | some set ↦
          some
            (insert op.key (lww_set (apply_set_op set op.node_id op.element is_add op.ts)) created)
    ]

unfoldable pub apply_to_counter : Op → GoMap Crdt → Option (GoMap Crdt)
unfolding get_or_create_counter apply_counter_op
apply_to_counter op objects =
    let (created, found) = get_or_create_counter op.key objects in
    elim found [
      | none ↦ none
      | some cnt ↦
          some (insert op.key (counter (apply_counter_op cnt op.node_id op.value op.ts)) created)
    ]

unfoldable pub apply_op : Op → OpKind → GoMap Crdt → Option (GoMap Crdt)
unfolding apply_to_set apply_to_counter
apply_op op op_add objects = apply_to_set op true objects
apply_op op op_remove objects = apply_to_set op false objects
apply_op op op_counter_inc objects = apply_to_counter op objects
apply_op op (unknown k) objects = some objects

-- The rest of `AppendOp`, after the `switch`.
unfoldable pub log_op : ℕ → Op → MemStore → MemStore
unfolding add64
log_op now op s =
    let (ops, evicted) = OpHeap.append op s.ops in
    let appended = add64 s.metrics.total_ops_appended 1 in
    if ltb 0 (length evicted)
    then record s {
      ops = ops;
      metrics = record {
        total_ops_appended = appended;
        total_ops_evicted = add64 s.metrics.total_ops_evicted (length evicted);
        last_evict_at = now;
      };
      handled = if s.has_handler then s.handled ++ evicted ∷ [] else s.handled;
    }
    else record s { ops = ops; metrics = record s.metrics { total_ops_appended = appended } }

pub data StoreError : Type 0 where
  wrong_type : StoreError

-- The error, if any, and the store after the call.
unfoldable pub append_op : ℕ → Op → MemStore → Option StoreError × MemStore
unfolding apply_op log_op
append_op now op s = elim (apply_op op op.kind s.objects) [
  | none ↦ (some wrong_type, s)
  | some objects ↦ (none, log_op now op (record s { objects = objects }))
]

-- `none` is `nil, false`.
unfoldable pub get_set_elements : String → MemStore → Option (List String)
get_set_elements key s = elim (lookup key s.objects) [
  | none ↦ none
  | some (lww_set set) ↦ some (LwwSet.get_elements set)
  | some (counter c) ↦ none
]

-- `none` is `0, false`.
unfoldable pub get_counter_value : String → MemStore → Option ℕ
get_counter_value key s = elim (lookup key s.objects) [
  | none ↦ none
  | some (lww_set set) ↦ none
  | some (counter c) ↦ some (Counter.value c)
]

-- for e, ts := range v.Adds { ts.Prune(activeNodes) }
unfoldable pub prune_element :
    GoMap Bool → String → VectorClock → GoMap VectorClock → GoMap VectorClock
prune_element active_nodes e ts m = insert e (Clock.prune active_nodes ts) m

unfoldable pub prune_crdt : GoMap Bool → Crdt → Crdt
unfolding prune_element
prune_crdt active_nodes (lww_set v) = lww_set (record v {
  adds = for_range (prune_element active_nodes) v.adds v.adds;
  removes = for_range (prune_element active_nodes) v.removes v.removes;
  timestamp = Clock.prune active_nodes v.timestamp;
})
prune_crdt active_nodes (counter v) =
    counter (record v { timestamp = Clock.prune active_nodes v.timestamp })

unfoldable pub prune_object : GoMap Bool → String → Crdt → GoMap Crdt → GoMap Crdt
unfolding prune_crdt
prune_object active_nodes key crdt objects = insert key (prune_crdt active_nodes crdt) objects

unfoldable pub prune_vector_clocks : GoMap Bool → MemStore → MemStore
unfolding prune_object
prune_vector_clocks active_nodes s = record s {
  objects = for_range (prune_object active_nodes) s.objects s.objects;
}

-- for node := range ts.GetActiveNodes() { activeNodes[node] = true }
unfoldable pub collect_nodes : String → VectorClock → GoMap Bool → GoMap Bool
unfolding add_node
collect_nodes e ts active_nodes = for_range add_node (Clock.get_active_nodes ts) active_nodes

unfoldable pub crdt_nodes : String → Crdt → GoMap Bool → GoMap Bool
unfolding collect_nodes
crdt_nodes key (lww_set v) active_nodes =
    collect_nodes key v.timestamp
      (for_range collect_nodes v.removes (for_range collect_nodes v.adds active_nodes))
crdt_nodes key (counter v) active_nodes = collect_nodes key v.timestamp active_nodes

unfoldable pub get_active_nodes : MemStore → GoMap Bool
unfolding crdt_nodes
get_active_nodes s = for_range crdt_nodes s.objects []

-- The new instance of one object, under the key of the map.
unfoldable pub export_crdt : String → Crdt → Crdt
unfolding copy_entry
export_crdt key (lww_set v) = lww_set (record {
  key = key;
  adds = for_range copy_entry v.adds [];
  removes = for_range copy_entry v.removes [];
  timestamp = for_range copy_entry v.timestamp [];
})
export_crdt key (counter v) = counter (record {
  key = key;
  counters = for_range copy_entry v.counters [];
  timestamp = for_range copy_entry v.timestamp [];
})

unfoldable pub export_object : String → Crdt → GoMap Crdt → GoMap Crdt
unfolding export_crdt
export_object key crdt result = insert key (export_crdt key crdt) result

unfoldable pub get_all_crdts : MemStore → GoMap Crdt
unfolding export_object
get_all_crdts s = for_range export_object s.objects []
