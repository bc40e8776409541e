-- ===== src/Sync/Requested/Examples.antt =====
-- A request and its answer in a scripted environment, and the theorem there.
use gossip_pubsub.Base.{
  String, ◌≡◌, ◌==◌, refl, sym, subst, some, none, List, [], ◌∷◌, ok, eq_iff, if◌then◌else◌, arith,
}
use gossip_pubsub.GoMap.{lookup, insert, for_range}
use gossip_pubsub.Crdt.{counter}
use gossip_pubsub.MemStore
use gossip_pubsub.MemStore.{new_mem_store, export_object, export_crdt}
use gossip_pubsub.Engine.{new_engine_mem_only, get_all_crdts, apply_merged_crdt}
use gossip_pubsub.Sync.{
  Environment, Message, Node, mode_both, mode_subscribe, can_publish, sync_message, encode_object,
  encode_crdt, decode_crdt, decode_typed, receive_crdt_message,
}
use gossip_pubsub.Sync.Applied.{received}
use gossip_pubsub.Sync.Examples.{scripted, node, message_from, hits, receiver, sender_exports}
use gossip_pubsub.Sync.Received.{Arrives}
use gossip_pubsub.Sync.Requested.{request_answered}

abbrev answer : Message
answer = record {
  kind = "sync";
  node_id = "12D3KooWnode";
  key = "all-crdts";
  operation = none;
  sync_data = some (("hits", "hits as a counter") ∷ []);
  timestamp = 7;
}

-- A message is a request or the answer.
abbrev asking : Environment (List String) String
asking = record scripted {
  unmarshal_message =
      λ raw. if raw == "request" then ok (message_from "12D3KooWpeer") else ok answer;
}

abbrev publisher : Node
publisher = node mode_both

abbrev subscriber : Node
subscriber = record {
  node_id = "12D3KooWpeer";
  engine = receiver;
  msg_store = [];
  mode = mode_subscribe;
}

answer_runs : sync_message asking publisher [] ≡ answer
unfolding sync_message encode_object encode_crdt get_all_crdts MemStore.get_all_crdts export_object
    export_crdt apply_merged_crdt new_engine_mem_only new_mem_store for_range insert
answer_runs = refl

request-Arrives : Arrives asking publisher ("request" ∷ []) (message_from "12D3KooWpeer")
request-Arrives = record {
  raw = "request";
  received = refl;
  parsed = refl;
  foreign = λ e. ground (arith, eq_iff "12D3KooWpeer" "12D3KooWnode");
  long_id = omega arith;
}

answer-Arrives : Arrives asking subscriber ("answer" ∷ []) (sync_message asking publisher [])
answer-Arrives = subst (Arrives asking subscriber ("answer" ∷ [])) (sym answer_runs) (record {
  raw = "answer";
  received = refl;
  parsed = refl;
  foreign = λ e. ground (arith, eq_iff "12D3KooWnode" "12D3KooWpeer");
  long_id = omega arith;
})

request_answered_example :
    ((receive_crdt_message asking publisher ("request" ∷ [])).2 ≡ (asking.publish "message" []).1)
    × (lookup "hits" (receive_crdt_message asking subscriber ("answer" ∷ [])).1.engine.mem.objects
        ≡ received
            (lookup "hits" (get_all_crdts subscriber.engine))
            (lookup "hits" subscriber.engine.mem.objects)
            (counter hits))
unfolding can_publish encode_crdt decode_crdt decode_typed
request_answered_example =
    request_answered asking publisher subscriber ("request" ∷ []) ("answer" ∷ [])
      (message_from "12D3KooWpeer") "message" "hits" "hits as a counter" (counter hits)
      request-Arrives refl refl refl answer-Arrives sender_exports refl refl
