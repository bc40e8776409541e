-- ===== src/Sync/Examples.antt =====
-- Runs of a synchronisation node in a scripted environment, and the theorems there.
use gossip_pubsub.Base.{
  false, String, ◌≡◌, ◌⊎◌, refl, true, Option, none, some, is_some, List, [], ◌∷◌, Result, ok, err,
}
use gossip_pubsub.GoMap.{lookup, insert, for_range}
use gossip_pubsub.Clock.{copy_entry}
use gossip_pubsub.Counter
use gossip_pubsub.Counter.{Counter}
use gossip_pubsub.Crdt.{counter}
use gossip_pubsub.OpHeap
use gossip_pubsub.MemStore
use gossip_pubsub.MemStore.{new_mem_store, export_object, export_crdt, append_op}
use gossip_pubsub.Engine.{
  Engine, new_engine_mem_only, get_all_crdts, get_counter, apply_merged_crdt, lww_add, counter_inc,
  validate_input, validate_counter_input,
}
use gossip_pubsub.Sync.{
  Environment, Message, Node, SyncMode, mode_subscribe, mode_both, panics, not_publishing,
  can_publish, sync_now, sync_crdt_state, send, send_sync_request, encode_crdt, decode_crdt,
  decode_typed, apply_message, accept_message, receive_crdt_message, add_message, get_message,
  count_messages, clear_messages,
}
use gossip_pubsub.Sync.Local.{add_local_data}
use gossip_pubsub.Sync.Received.{taken_in, Arrives, receive_crdt_message_outcome}
use gossip_pubsub.Sync.Lifecycle.{
  default_config, not_started, start, start_publisher, start_heartbeat, started, Hindered,
  start_outcome, stop, subscribe_failed, can_subscribe, subscriber, publisher, heartbeat,
}
use gossip_pubsub.Sync.Report.{
  print_stats, stats_lines, print_current_crdt_content, content_lines, print_final_state,
  final_lines, print_message_store, counter_line, peers_line, mode_line, interval_line,
  objects_line, messages_line, no_messages,
}

abbrev pub hits : Counter
hits = record { key = "hits"; counters = ("a", 1) ∷ []; timestamp = ("a", 1) ∷ [] }

abbrev pub message_from : String → Message
message_from node_id = record {
  kind = "sync_request";
  node_id = node_id;
  key = "request";
  operation = none;
  sync_data = none;
  timestamp = 5;
}

-- The world is the list of the node ids whose messages are to come.
abbrev pub next_message : List String → Result String String × List String
next_message [] = (err "deadline", [])
next_message (id ∷ w) = (ok id, w)

abbrev pub scripted : Environment (List String) String
scripted = record {
  marshal_wrapper = λ name c. ok "hits as a counter";
  unmarshal_wrapper = λ raw. ok ("counter", raw);
  unmarshal_counter = λ raw. ok hits;
  unmarshal_set = λ raw. err "not a set";
  marshal_message = λ msg. ok "message";
  unmarshal_message = λ raw. ok (message_from raw);
  publish = λ raw w. (none, w);
  next = next_message;
  timed_out = λ w. true;
  now = λ w. 7;
  decimal = λ n. "5";
  nil_map = λ w key. false;
}

abbrev pub sender : Engine
sender = apply_merged_crdt "hits" (counter hits) (new_engine_mem_only 400)

abbrev pub receiver : Engine
receiver = new_engine_mem_only 400

abbrev pub node : SyncMode → Node
node mode = record { node_id = "12D3KooWnode"; engine = sender; msg_store = []; mode = mode }

sync_now_runs :
    (sync_now scripted (node mode_both) [] ≡ (none, []))
    × (sync_now scripted (node mode_subscribe) [] ≡ (some not_publishing, []))
    × (send_sync_request scripted (node mode_both) [] ≡ (none, []))
unfolding sync_now can_publish sync_crdt_state send send_sync_request
sync_now_runs = (refl, refl, refl)

-- A node id shorter than eight bytes stops the receiver.
receive_runs :
    (receive_crdt_message scripted (node mode_subscribe) ("short" ∷ [])
      ≡ (some panics, node mode_subscribe, []))
    × (receive_crdt_message scripted (node mode_subscribe) ("12D3KooWnode" ∷ [])
        ≡ (none, node mode_subscribe, []))
    × (receive_crdt_message scripted (node mode_subscribe) ("12D3KooWpeer" ∷ []) ≡ (
      none,
      record (node mode_subscribe) { msg_store = ("12D3KooW-5", message_from "12D3KooWpeer") ∷ [] },
      [],
    ))
unfolding receive_crdt_message accept_message apply_message add_message insert can_publish
receive_runs = (refl, refl, refl)

store_runs :
    (count_messages (add_message "k" (message_from "a") []) ≡ 1)
    × (get_message "k" (add_message "k" (message_from "a") []) ≡ some (message_from "a"))
    × (count_messages (clear_messages (add_message "k" (message_from "a") [])) ≡ 0)
unfolding count_messages add_message get_message clear_messages insert lookup
store_runs = (refl, refl, refl)

pub sender_exports : lookup "hits" (get_all_crdts sender) ≡ some (counter hits)
unfolding get_all_crdts MemStore.get_all_crdts export_object export_crdt apply_merged_crdt
    new_engine_mem_only new_mem_store for_range insert lookup copy_entry
sender_exports = refl

hits_decode : decode_crdt scripted "hits as a counter" ≡ some (counter hits)
unfolding decode_crdt decode_typed
hits_decode = refl

hits_encode : encode_crdt scripted (counter hits) ≡ ok "hits as a counter"
unfolding encode_crdt
hits_encode = refl

receive_crdt_message_outcome_example :
    ((msg : Message) × Arrives scripted (node mode_subscribe) ("12D3KooWpeer" ∷ []) msg
      × ((receive_crdt_message scripted (node mode_subscribe) ("12D3KooWpeer" ∷ [])).0 ≡ none)
      × ((receive_crdt_message scripted (node mode_subscribe) ("12D3KooWpeer" ∷ [])).1
          ≡ taken_in scripted msg (node mode_subscribe)))
    ⊎ (((msg : Message) → ¬ Arrives scripted (node mode_subscribe) ("12D3KooWpeer" ∷ []) msg)
        × ((receive_crdt_message scripted (node mode_subscribe) ("12D3KooWpeer" ∷ [])).1
            ≡ node mode_subscribe))
receive_crdt_message_outcome_example =
    receive_crdt_message_outcome scripted (node mode_subscribe) ("12D3KooWpeer" ∷ [])

add_local_data_runs : (add_local_data scripted 4 (node mode_both) []).0 ≡ none
unfolding add_local_data lww_add counter_inc validate_input validate_counter_input append_op
    apply_merged_crdt new_engine_mem_only new_mem_store OpHeap.append OpHeap.new_op_heap
    OpHeap.approx_size for_range lookup insert
add_local_data_runs = refl

refuse : List String → Option String × List String
refuse w = (some "closed", w)

accept : List String → Option String × List String
accept w = (none, w)

start_outcome_example :
    (((start scripted accept default_config (node mode_both) not_started []).0 ≡ none)
      × ((start scripted accept default_config (node mode_both) not_started []).1
          ≡ started mode_both)
      × (¬ Hindered scripted accept default_config mode_both []))
    ⊎ ((is_some (start scripted accept default_config (node mode_both) not_started []).0 ≡ true)
        × Hindered scripted accept default_config mode_both [])
start_outcome_example = start_outcome scripted accept default_config (node mode_both) []

start_runs :
    ((start scripted accept default_config (node mode_both) not_started []).1.running
      ≡ subscriber ∷ publisher ∷ heartbeat ∷ [])
    × ((start scripted refuse default_config (node mode_both) not_started []).0
        ≡ some (subscribe_failed "closed"))
    × ((stop (started mode_both)).cancelled ≡ true)
unfolding start start_publisher start_heartbeat can_subscribe can_publish stop refuse accept
start_runs = (refl, refl, refl)

print_runs :
    (print_current_crdt_content (node mode_both) ≡ counter_line "hits" 1 ∷ [])
    × (print_stats 3 7 (node mode_both)
        ≡ peers_line 3
          ∷ mode_line mode_both
          ∷ interval_line 7
          ∷ objects_line 1
          ∷ messages_line 0
          ∷ counter_line "hits" 1
          ∷ [])
    × (print_final_state (node mode_both)
        ≡ counter_line "hits" 1 ∷ messages_line 0 ∷ no_messages ∷ [])
unfolding print_current_crdt_content content_lines print_stats stats_lines print_final_state
    final_lines print_message_store count_messages for_range get_all_crdts MemStore.get_all_crdts
    apply_merged_crdt insert new_engine_mem_only new_mem_store get_counter
    MemStore.get_counter_value lookup Counter.value
print_runs = (refl, refl, refl)
