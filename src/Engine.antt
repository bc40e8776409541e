-- ===== src/Engine.antt =====
-- CRDT/CRDT_DBOps.go and CRDT/helper.go: the public operations and their input checks. Texts are
-- valid UTF-8; their lengths are in bytes. `now` is the clock reading of a call.
mod Examples
pub mod Inputs
pub mod Runs
pub mod Counted
use Prim.Native.Char.{Char, code}
use Prim.Native.String.{len as str_len}
use gossip_pubsub.Base.{
  ℕ, ◌+◌, String, ◌≡◌, Bool, true, false, Option, none, some, List, [], ◌∷◌, ◌&&◌, ◌||◌, ltb, leb,
  eqb, if◌then◌else◌,
}
use gossip_pubsub.GoMap.{GoMap, insert}
use gossip_pubsub.Clock.{VectorClock}
use gossip_pubsub.Crdt.{Crdt}
use gossip_pubsub.OpHeap.{Op, OpKind, op_add, op_remove, op_counter_inc}
use gossip_pubsub.MemStore
use gossip_pubsub.MemStore.{MemStore, StoreError, new_mem_store, append_op}

-- unicode.IsSpace
unfoldable pub is_space : ℕ → Bool
is_space c =
    (leb 9 c && leb c 13)
    || eqb c 32
    || eqb c 0x85
    || eqb c 0xa0
    || eqb c 0x1680
    || (leb 0x2000 c && leb c 0x200a)
    || eqb c 0x2028
    || eqb c 0x2029
    || eqb c 0x202f
    || eqb c 0x205f
    || eqb c 0x3000

-- strings.TrimSpace(s) == ""
unfoldable pub is_blank : String → Bool
unfolding is_space
is_blank String.[] = true
is_blank (String.◌∷◌ c s) = is_space (code c) && is_blank s

pub data InputError : Type 0 where
  node_id_empty key_empty element_empty node_id_too_long key_too_long element_too_long : InputError
  delta_zero delta_too_large : InputError

-- `none` is a nil error.
unfoldable pub validate_input : String → String → String → Option InputError
unfolding is_blank
validate_input node_id key element =
    if is_blank node_id
    then some node_id_empty
    else if is_blank key
    then some key_empty
    else if is_blank element
    then some element_empty
    else if ltb 256 (str_len node_id)
    then some node_id_too_long
    else if ltb 256 (str_len key)
    then some key_too_long
    else if ltb 1024 (str_len element)
    then some element_too_long
    else none

unfoldable pub validate_counter_input : String → String → ℕ → Option InputError
unfolding is_blank
validate_counter_input node_id key delta =
    if is_blank node_id
    then some node_id_empty
    else if is_blank key
    then some key_empty
    else if eqb delta 0
    then some delta_zero
    else if ltb 1000000 delta
    then some delta_too_large
    else if ltb 256 (str_len node_id)
    then some node_id_too_long
    else if ltb 256 (str_len key)
    then some key_too_long
    else none

pub record Engine : Type 0 where
  pub mem : MemStore

unfoldable pub new_engine_mem_only : ℕ → Engine
new_engine_mem_only max_heap_bytes = record { mem = new_mem_store max_heap_bytes }

pub data EngineError : Type 0 where
  invalid : InputError → EngineError
  refused : StoreError → EngineError

-- return e.mem.AppendOp(…)
unfoldable pub submit : ℕ → Op → Engine → Option EngineError × Engine
unfolding append_op
submit now op e =
    let (error, mem) = append_op now op e.mem in
    (elim error [ none ↦ none | some r ↦ some (refused r) ], record { mem = mem })

-- if err := validate…; err != nil { return err }
unfoldable pub checked : Option InputError → ℕ → Op → Engine → Option EngineError × Engine
unfolding submit
checked failure now op e = elim failure [ some r ↦ (some (invalid r), e) | none ↦ submit now op e ]

-- &Op{…} of `LWWAdd`, `LWWRemove` and `CounterInc`; `Value` and `Element` are Go's zero values.
abbrev pub set_op : ℕ → OpKind → String → String → String → VectorClock → Op
set_op now kind node_id key element ts = record {
  key = key;
  kind = kind;
  node_id = node_id;
  element = element;
  value = 0;
  ts = ts;
  wall_time = now;
}

abbrev pub counter_op : ℕ → String → String → ℕ → VectorClock → Op
counter_op now node_id key delta ts = record {
  key = key;
  kind = op_counter_inc;
  node_id = node_id;
  element = "";
  value = delta;
  ts = ts;
  wall_time = now;
}

unfoldable pub lww_add :
    ℕ → String → String → String → VectorClock → Engine → Option EngineError × Engine
unfolding checked
lww_add now node_id key element ts e =
    checked (validate_input node_id key element) now (set_op now op_add node_id key element ts) e

unfoldable pub lww_remove :
    ℕ → String → String → String → VectorClock → Engine → Option EngineError × Engine
unfolding checked
lww_remove now node_id key element ts e =
    checked (validate_input node_id key element) now (set_op now op_remove node_id key element ts) e

unfoldable pub counter_inc :
    ℕ → String → String → ℕ → VectorClock → Engine → Option EngineError × Engine
unfolding checked
counter_inc now node_id key delta ts e =
    checked (validate_counter_input node_id key delta) now (counter_op now node_id key delta ts) e

unfoldable pub get_set : String → Engine → Option (List String)
get_set key e = MemStore.get_set_elements key e.mem

unfoldable pub get_counter : String → Engine → Option ℕ
get_counter key e = MemStore.get_counter_value key e.mem

unfoldable pub get_all_crdts : Engine → GoMap Crdt
get_all_crdts e = MemStore.get_all_crdts e.mem

unfoldable pub apply_merged_crdt : String → Crdt → Engine → Engine
apply_merged_crdt key crdt e =
    let mem = e.mem in record { mem = record mem { objects = insert key crdt mem.objects } }
