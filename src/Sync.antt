-- ===== src/Sync.antt =====
-- CRDTSync/implementation.go, sync.go and types.go: a node that publishes the state of its engine,
-- receives messages and merges what they carry. Logging is left out.
pub mod Examples
pub mod Applied
pub mod Delivered
pub mod Exchange
pub mod Overlap
pub mod Received
pub mod Requested
pub mod Local
pub mod Lifecycle
pub mod Report
pub mod Loops
pub mod Gossip
use Prim.Native.String.{len as str_len, slice, ◌++◌ as text◌++◌}
use gossip_pubsub.Base.{
  ℕ, ◌+◌, ◌-◌, String, ◌≡◌, Bool, true, false, Option, none, some, List, [], ◌∷◌, ◌||◌, ◌&&◌, ◌==◌,
  ltb, if◌then◌else◌, Result, ok, err,
}
use gossip_pubsub.GoMap.{GoMap, lookup, insert, len, for_range}
use gossip_pubsub.Clock.{VectorClock}
use gossip_pubsub.LwwSet.{LwwSet}
use gossip_pubsub.Counter.{Counter}
use gossip_pubsub.Crdt
use gossip_pubsub.Crdt.{Crdt, lww_set, counter}
use gossip_pubsub.Engine.{
  Engine, EngineError, lww_add, counter_inc, get_all_crdts, apply_merged_crdt,
}
use gossip_pubsub.Base.Words.{add64}

-- `SyncMode` is a text with three named values, and others.
pub data SyncMode : Type 0 where
  mode_publish mode_subscribe mode_both : SyncMode
  other_mode : String → SyncMode

-- An operation in a message; the code only prints it.
pub record Operation : Type 0 where
  pub kind : String
  pub element : String
  pub value : ℕ
  pub ts : VectorClock

-- `SyncData` is nil or a map to raw JSON; the time is in nanoseconds.
pub record Message : Type 0 where
  pub kind : String
  pub node_id : String
  pub key : String
  pub operation : Option Operation
  pub sync_data : Option (GoMap String)
  pub timestamp : ℕ

-- type MessageStore
abbrev pub MessageStore : Type 0
MessageStore = GoMap Message

abbrev pub new_message_store : MessageStore
new_message_store = []

unfoldable pub add_message : String → Message → MessageStore → MessageStore
add_message key msg store = insert key msg store

unfoldable pub get_message : String → MessageStore → Option Message
get_message key store = lookup key store

unfoldable pub count_messages : MessageStore → ℕ
count_messages store = len store

unfoldable pub clear_messages : MessageStore → MessageStore
clear_messages store = new_message_store

pub record Node : Type 0 where
  pub node_id : String
  pub engine : Engine
  pub msg_store : MessageStore
  pub mode : SyncMode

-- The code outside the repository: encoding/json, pubsub, the clock and the context. `W` is the
-- state of the world, `E` the errors.
pub record Environment (W E : Type 0) : Type 0 where
  -- json.Marshal of the wrapper: a type name and an object
  pub marshal_wrapper : String → Crdt → Result E String
  -- json.Unmarshal of the wrapper: the type name and the raw object
  pub unmarshal_wrapper : String → Result E (String × String)
  pub unmarshal_counter : String → Result E Counter
  pub unmarshal_set : String → Result E LwwSet
  pub marshal_message : Message → Result E String
  pub unmarshal_message : String → Result E Message
  -- topic.Publish
  pub publish : String → W → Option E × W
  -- sub.Next with the timeout, and whether the timeout's context has ended
  pub next : W → Result E String × W
  pub timed_out : W → Bool
  -- time.Now() in nanoseconds
  pub now : W → ℕ
  -- fmt.Sprintf of a number
  pub decimal : ℕ → String
  -- whether the object that the engine holds under a key has a nil map, as json.Unmarshal leaves it
  -- for one that the text omits; a GoMap does not tell it from an empty map
  pub nil_map : W → String → Bool

pub data SyncError (E : Type 0) : Type 0 where
  marshal_failed publish_failed receive_failed unmarshal_failed : E → SyncError E
  not_publishing : SyncError E
  -- a slice of a node id that is shorter than 8 bytes
  panics : SyncError E

unfoldable pub can_publish : SyncMode → Bool
can_publish mode_publish = true
can_publish mode_both = true
can_publish mode_subscribe = false
can_publish (other_mode name) = false

module _ {W E : Type 0} (env : Environment W E) where
  -- json.Marshal of one object with its type name
  unfoldable pub encode_crdt : Crdt → Result E String
  encode_crdt (lww_set s) = env.marshal_wrapper "lwwset" (lww_set s)
  encode_crdt (counter c) = env.marshal_wrapper "counter" (counter c)

  unfoldable pub encode_object : String → Crdt → GoMap String → GoMap String
  unfolding encode_crdt
  encode_object key crdt sync_data = elim (encode_crdt crdt) [
    | err e ↦ sync_data
    | ok raw ↦ insert key raw sync_data
  ]

  unfoldable pub sync_message : Node → W → Message
  unfolding encode_object
  sync_message n w = record {
    kind = "sync";
    node_id = n.node_id;
    key = "all-crdts";
    operation = none;
    sync_data = some (for_range encode_object (get_all_crdts n.engine) []);
    timestamp = env.now w;
  }

  -- Serialize and publish
  unfoldable pub send : Message → W → Option (SyncError E) × W
  send msg w = elim (env.marshal_message msg) [
    | err e ↦ (some (marshal_failed e), w)
    | ok raw ↦
        let (failure, w') = env.publish raw w in
        (elim failure [ none ↦ none | some e ↦ some (publish_failed e) ], w')
  ]

  unfoldable pub sync_crdt_state : Node → W → Option (SyncError E) × W
  unfolding sync_message send
  sync_crdt_state n w = send (sync_message n w) w

  unfoldable pub sync_now : Node → W → Option (SyncError E) × W
  unfolding sync_crdt_state can_publish
  sync_now n w = if can_publish n.mode then sync_crdt_state n w else (some not_publishing, w)

  unfoldable pub send_sync_request : Node → W → Option (SyncError E) × W
  unfolding send
  send_sync_request n w =
      send
        (record {
          kind = "sync_request";
          node_id = n.node_id;
          key = "request";
          operation = none;
          sync_data = none;
          timestamp = env.now w;
        })
        w

  -- Unmarshal based on type; `none` is `continue`.
  unfoldable pub decode_typed : String → String → Option Crdt
  decode_typed name raw =
      if name == "counter"
      then elim (env.unmarshal_counter raw) [ err e ↦ none | ok c ↦ some (counter c) ]
      else if name == "lwwset"
      then elim (env.unmarshal_set raw) [ err e ↦ none | ok s ↦ some (lww_set s) ]
      else none

  unfoldable pub decode_crdt : String → Option Crdt
  unfolding decode_typed
  decode_crdt raw = elim (env.unmarshal_wrapper raw) [
    | err e ↦ none
    | ok wrapper ↦ decode_typed wrapper.0 wrapper.1
  ]

  -- What to store under the key of a decoded object; `none` is `continue`.
  unfoldable pub merge_remote : Option Crdt → Crdt → Option Crdt
  merge_remote none remote = some remote
  merge_remote (some our) remote = elim (Crdt.merge our remote) [
    | err e ↦ none
    | ok merged ↦ some merged
  ]

  unfoldable pub apply_object : GoMap Crdt → String → String → Engine → Engine
  unfolding decode_crdt merge_remote
  apply_object ours key raw engine = elim (decode_crdt raw) [
    | none ↦ engine
    | some remote ↦ elim (merge_remote (lookup key ours) remote) [
      | none ↦ engine
      | some crdt ↦ apply_merged_crdt key crdt engine
    ]
  ]

  -- The loop of `applyCRDTSync`, with the copies `ours` that it took before: what other goroutines
  -- did to the engine in between is in `engine`.
  unfoldable pub apply_copies : GoMap Crdt → GoMap String → Engine → Engine
  unfolding apply_object
  apply_copies ours sync_data engine = for_range (apply_object ours) sync_data engine

  -- `applyCRDTSync` where no other goroutine uses the engine meanwhile; the store's mutex is not
  -- held from the copies to the writes.
  unfoldable pub apply_crdt_sync : GoMap String → Engine → Engine
  unfolding apply_copies
  apply_crdt_sync sync_data engine = apply_copies (get_all_crdts engine) sync_data engine

  -- if crdtMsg.Type == "sync" && crdtMsg.SyncData != nil
  unfoldable pub apply_message : Message → Engine → Engine
  unfolding apply_crdt_sync
  apply_message msg engine = elim msg.sync_data [
    | none ↦ engine
    | some sync_data ↦
        let synced = apply_crdt_sync sync_data engine in
        if msg.kind == "sync" then synced else engine
  ]

  -- The rest of `receiveCRDTMessage`, for a message of another node; an error of the reply is only
  -- logged.
  unfoldable pub accept_message : Message → Node → W → Option (SyncError E) × Node × W
  unfolding apply_message can_publish sync_crdt_state
  accept_message msg n w =
      let store_key = text◌++◌ (slice msg.node_id 0 8) (text◌++◌ "-" (env.decimal msg.timestamp)) in
      let n' = record n {
        msg_store = add_message store_key msg n.msg_store;
        engine = apply_message msg n.engine;
      } in
      let replied = (sync_crdt_state n' w).1 in
      let w' = if (msg.kind == "sync_request") && can_publish n.mode then replied else w in
      if ltb (str_len msg.node_id) 8 then (some panics, n, w) else (none, n', w')

  -- A call during which no other goroutine uses the node.
  unfoldable pub receive_crdt_message : Node → W → Option (SyncError E) × Node × W
  unfolding accept_message
  receive_crdt_message n w =
      let (answer, w') = env.next w in
      elim answer [
        | err e ↦ (if env.timed_out w' then none else some (receive_failed e), n, w')
        | ok raw ↦ elim (env.unmarshal_message raw) [
          | err e ↦ (some (unmarshal_failed e), n, w')
          | ok msg ↦
              let accepted = accept_message msg n w' in
              if msg.node_id == n.node_id then (none, n, w') else accepted
        ]
      ]
