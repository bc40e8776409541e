-- ===== src/MemStore/Shared.antt =====
-- CRDT/MemoryStore.go and CRDT/Heap.go with the clocks of elements and of logged operations as maps
-- at addresses: an operation and a set share the clock that the caller gave, and `PruneVectorClocks`
-- changes it in place. The clock of an object is a map of its own, so it stays a value.
pub mod Views
pub mod Pruned
pub mod Drift
pub mod Appended
pub mod Switched
pub mod Refined
mod Examples
use gossip_pubsub.Base.Words.{add64}
use gossip_pubsub.Base.{
  length, ℕ, suc, ◌+◌, ◌-◌, String, Bool, true, false, Option, none, some, List, [], ◌∷◌, ◌++◌, eqb,
  ltb, if◌then◌else◌,
}
use mathlib.Core.List.{map}
use gossip_pubsub.GoMap.{GoMap, lookup, insert, len, for_range}
use gossip_pubsub.GoMap.Values.{map_values}
use gossip_pubsub.Clock
use gossip_pubsub.Clock.{VectorClock, copy_entry}
use gossip_pubsub.LwwSet.{LwwSet}
use gossip_pubsub.Counter.{Counter, new_counter}
use gossip_pubsub.Crdt.{Crdt, lww_set, counter}
use gossip_pubsub.OpHeap.{
  Op, OpKind, op_add, op_remove, op_counter_inc, unknown, OpHeap, approx_size,
}
use gossip_pubsub.MemStore.{MemStore, StoreMetrics, StoreError, wrong_type, apply_counter_op}

-- The clock at each address; `next` and what follows are free.
pub record Memory : Type 0 where
  pub cells : ℕ → VectorClock
  pub next : ℕ

abbrev pub write : ℕ → VectorClock → (ℕ → VectorClock) → ℕ → VectorClock
write a c cells b = if eqb a b then c else cells b

-- An operation with the address of its clock; `none` is nil.
pub record SharedOp : Type 0 where
  pub key : String
  pub kind : OpKind
  pub node_id : String
  pub element : String
  pub value : ℕ
  pub ts : Option ℕ
  pub wall_time : ℕ

pub record SharedSet : Type 0 where
  pub key : String
  pub adds : GoMap ℕ
  pub removes : GoMap ℕ
  pub timestamp : VectorClock

pub data SharedCrdt : Type 0 where
  shared_set : SharedSet → SharedCrdt
  own_counter : Counter → SharedCrdt

-- The handler of evictions was called with what the operations of each batch were then.
pub record SharedStore : Type 0 where
  pub memory : Memory
  pub objects : GoMap SharedCrdt
  pub ops : List SharedOp
  pub bytes : ℕ
  pub cap_bytes : ℕ
  pub max_bytes : ℕ
  pub metrics : StoreMetrics
  pub has_handler : Bool
  pub handled : List (List Op)

-- What stands at the addresses.
abbrev pub read : (ℕ → VectorClock) → Option ℕ → VectorClock
read cells none = []
read cells (some a) = cells a

abbrev pub op_value : (ℕ → VectorClock) → SharedOp → Op
op_value cells o = record {
  key = o.key;
  kind = o.kind;
  node_id = o.node_id;
  element = o.element;
  value = o.value;
  ts = read cells o.ts;
  wall_time = o.wall_time;
}

abbrev pub set_value : (ℕ → VectorClock) → SharedSet → LwwSet
set_value cells s = record {
  key = s.key;
  adds = map_values cells s.adds;
  removes = map_values cells s.removes;
  timestamp = s.timestamp;
}

abbrev pub crdt_value : (ℕ → VectorClock) → SharedCrdt → Crdt
crdt_value cells (shared_set s) = lww_set (set_value cells s)
crdt_value cells (own_counter c) = counter c

abbrev pub objects_value : (ℕ → VectorClock) → GoMap SharedCrdt → GoMap Crdt
objects_value cells objects = map_values (crdt_value cells) objects

abbrev pub log_value : SharedStore → OpHeap
log_value s = record {
  ops = map (op_value s.memory.cells) s.ops;
  bytes = s.bytes;
  cap_bytes = s.cap_bytes;
}

abbrev pub store_value : SharedStore → MemStore
store_value s = record {
  objects = objects_value s.memory.cells s.objects;
  ops = log_value s;
  max_bytes = s.max_bytes;
  metrics = s.metrics;
  has_handler = s.has_handler;
  handled = s.handled;
}

-- make(VectorClock), filled
abbrev pub alloc : VectorClock → Memory → ℕ × Memory
alloc c m = (m.next, record { cells = write m.next c m.cells; next = suc m.next })

-- The clock that `applySetOp` writes: the caller's own map, if it has an entry, or a new one.
unfoldable pub choose : String → Option ℕ → VectorClock → Memory → ℕ × Memory
choose node_id none top m = alloc (Clock.increment node_id (for_range copy_entry top [])) m
choose node_id (some a) top m =
    if ltb 0 (len (m.cells a))
    then (a, m)
    else alloc (Clock.increment node_id (for_range copy_entry top [])) m

-- `applySetOp`
unfoldable pub share_set_op :
    SharedSet → String → String → Bool → Option ℕ → Memory → SharedSet × Memory
unfolding choose
share_set_op set node_id element is_add ts m =
    let (a, m') = choose node_id ts set.timestamp m in
    let timestamp = Clock.merge set.timestamp (m'.cells a) in
    if is_add
    then (record set { adds = insert element a set.adds; timestamp = timestamp }, m')
    else (record set { removes = insert element a set.removes; timestamp = timestamp }, m')

abbrev pub new_shared_set : String → SharedSet
new_shared_set key = record { key = key; adds = []; removes = []; timestamp = [] }

abbrev pub stored_set :
    SharedOp → Bool → SharedSet → GoMap SharedCrdt → Memory → Option (GoMap SharedCrdt × Memory)
stored_set op is_add set created m =
    let (set', m') = share_set_op set op.node_id op.element is_add op.ts m in
    some (insert op.key (shared_set set') created, m')

-- The cases of the `switch` of `AppendOp`; `none` is `ErrWrongType`.
unfoldable pub share_to_set :
    SharedOp → Bool → GoMap SharedCrdt → Memory → Option (GoMap SharedCrdt × Memory)
unfolding share_set_op
share_to_set op is_add objects m = elim (lookup op.key objects) [
  | none ↦
      stored_set op is_add (new_shared_set op.key)
        (insert op.key (shared_set (new_shared_set op.key)) objects) m
  | some (shared_set s) ↦ stored_set op is_add s objects m
  | some (own_counter c) ↦ none
]

abbrev pub stored_counter :
    SharedOp → Counter → GoMap SharedCrdt → Memory → Option (GoMap SharedCrdt × Memory)
stored_counter op c created m = some (
  insert op.key (own_counter (apply_counter_op c op.node_id op.value (read m.cells op.ts))) created,
  m,
)

unfoldable pub share_to_counter :
    SharedOp → GoMap SharedCrdt → Memory → Option (GoMap SharedCrdt × Memory)
share_to_counter op objects m = elim (lookup op.key objects) [
  | none ↦
      stored_counter op (new_counter op.key)
        (insert op.key (own_counter (new_counter op.key)) objects) m
  | some (shared_set s) ↦ none
  | some (own_counter c) ↦ stored_counter op c objects m
]

unfoldable pub share_op :
    SharedOp → OpKind → GoMap SharedCrdt → Memory → Option (GoMap SharedCrdt × Memory)
unfolding share_to_set share_to_counter
share_op op op_add objects m = share_to_set op true objects m
share_op op op_remove objects m = share_to_set op false objects m
share_op op op_counter_inc objects m = share_to_counter op objects m
share_op op (unknown k) objects m = some (objects, m)

-- What the loop of `Append` of the log leaves, and what it evicts.
pub record SharedEviction : Type 0 where
  pub ops : List SharedOp
  pub bytes : ℕ
  pub evicted : List SharedOp

-- The loop of `Append` of the log: each operation has the size that it has now.
unfoldable pub evict_shared :
    (ℕ → VectorClock) → ℕ → List SharedOp → ℕ → List SharedOp → SharedEviction
evict_shared cells cap [] bytes evicted = record { ops = []; bytes = bytes; evicted = evicted }
evict_shared cells cap (old ∷ ops) bytes evicted =
    let size = approx_size (op_value cells old) in
    let rest = evict_shared cells cap ops (bytes - size) (evicted ++ old ∷ []) in
    if ltb cap bytes then rest else record { ops = old ∷ ops; bytes = bytes; evicted = evicted }

-- The rest of `AppendOp`, after the `switch`, on what it left.
unfoldable pub log_shared : ℕ → SharedOp → GoMap SharedCrdt → Memory → SharedStore → SharedStore
unfolding evict_shared add64
log_shared now op objects m s =
    let size = approx_size (op_value m.cells op) in
    let r = evict_shared m.cells s.cap_bytes (s.ops ++ op ∷ []) (s.bytes + size) [] in
    let evicted = map (op_value m.cells) r.evicted in
    let appended = add64 s.metrics.total_ops_appended 1 in
    if ltb 0 (length evicted)
    then record s {
      memory = m;
      objects = objects;
      ops = r.ops;
      bytes = r.bytes;
      metrics = record {
        total_ops_appended = appended;
        total_ops_evicted = add64 s.metrics.total_ops_evicted (length evicted);
        last_evict_at = now;
      };
      handled = if s.has_handler then s.handled ++ evicted ∷ [] else s.handled;
    }
    else record s {
      memory = m;
      objects = objects;
      ops = r.ops;
      bytes = r.bytes;
      metrics = record s.metrics { total_ops_appended = appended };
    }

-- `AppendOp`: the error, if any, and the store after the call.
unfoldable pub append_shared : ℕ → SharedOp → SharedStore → Option StoreError × SharedStore
unfolding share_op log_shared
append_shared now op s = elim (share_op op op.kind s.objects s.memory) [
  | none ↦ (some wrong_type, s)
  | some (objects, m) ↦ (none, log_shared now op objects m s)
]

-- for _, ts := range v.Adds { ts.Prune(activeNodes) }
unfoldable pub prune_at : GoMap Bool → String → ℕ → (ℕ → VectorClock) → ℕ → VectorClock
prune_at active e a cells = write a (Clock.prune active (cells a)) cells

-- What `PruneVectorClocks` does to the clocks of one object's elements, and to the object.
unfoldable pub prune_cells : GoMap Bool → String → SharedCrdt → (ℕ → VectorClock) → ℕ → VectorClock
unfolding prune_at
prune_cells active key (shared_set v) cells =
    for_range (prune_at active) v.removes (for_range (prune_at active) v.adds cells)
prune_cells active key (own_counter v) cells = cells

abbrev pub prune_own : GoMap Bool → SharedCrdt → SharedCrdt
prune_own active (shared_set v) =
    shared_set (record v { timestamp = Clock.prune active v.timestamp })
prune_own active (own_counter v) =
    own_counter (record v { timestamp = Clock.prune active v.timestamp })

-- `PruneVectorClocks`
unfoldable pub prune_shared : GoMap Bool → SharedStore → SharedStore
unfolding prune_cells
prune_shared active s = record s {
  memory = record s.memory { cells = for_range (prune_cells active) s.objects s.memory.cells };
  objects = map_values (prune_own active) s.objects;
}
