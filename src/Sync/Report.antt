-- ===== src/Sync/Report.antt =====
-- CRDTSync/implementation.go, `GetStats` and `printCurrentCRDTContent`, and CRDTSync/utils.go: the
-- statistics of a node and the lines that it prints. Fixed headings and rules are left out; a line
-- holds the values that are printed on it.
pub mod Lines
pub mod Details
use gossip_pubsub.Base.{
  length, ℕ, zero, suc, ◌+◌, ◌-◌, ◌≤◌, ◌<◌, String, ◌≡◌, refl, ap, ◌∙◌, Bool, Option, none, some,
  List, [], ◌∷◌, ◌++◌, ◌==◌, eq_iff, ltb, if◌then◌else◌, arith, Bool-cases, inl, inr,
}
use gossip_pubsub.GoMap.{GoMap, lookup, insert, len, for_range, IsMap}
use gossip_pubsub.GoMap.Laws.{lookup-insert}
use gossip_pubsub.LwwSet
use gossip_pubsub.Counter
use gossip_pubsub.Crdt.{Crdt, lww_set, counter}
use gossip_pubsub.MemStore
use gossip_pubsub.MemStore.Export.{exported, lookup-get_all_crdts}
use gossip_pubsub.Engine.{Engine, get_all_crdts, get_set, get_counter}
use gossip_pubsub.Sync.{SyncMode, Operation, Message, MessageStore, Node, count_messages}

-- An entry of "crdt_details".
pub data Detail : Type 0 where
  lwwset_detail counter_detail : ℕ → Detail

pub record SyncStats : Type 0 where
  pub connected_peers : ℕ
  pub crdt_objects : ℕ
  pub messages_received : ℕ
  pub mode : SyncMode
  pub sync_interval : ℕ
  pub crdt_details : GoMap Detail

-- elements, _ := n.engine.GetSet(key), and value, _ := n.engine.GetCounter(key)
unfoldable pub elements_at : String → Engine → List String
elements_at key e = elim (get_set key e) [ none ↦ [] | some elements ↦ elements ]

unfoldable pub value_at : String → Engine → ℕ
value_at key e = elim (get_counter key e) [ none ↦ 0 | some value ↦ value ]

unfoldable pub detail_of : Engine → String → Crdt → Detail
unfolding elements_at value_at
detail_of e key (lww_set s) = lwwset_detail (length (elements_at key e))
detail_of e key (counter c) = counter_detail (value_at key e)

unfoldable pub add_detail : Engine → String → Crdt → GoMap Detail → GoMap Detail
unfolding detail_of
add_detail e key crdt details = insert key (detail_of e key crdt) details

abbrev pub get_message_store : Node → MessageStore
get_message_store n = n.msg_store

abbrev pub get_crdt_engine : Node → Engine
get_crdt_engine n = n.engine

-- The number of connected peers is the host's; the interval is that of the configuration, in
-- nanoseconds.
unfoldable pub get_stats : ℕ → ℕ → Node → SyncStats
unfolding add_detail
get_stats peers sync_interval n = record {
  connected_peers = peers;
  crdt_objects = len (get_all_crdts n.engine);
  messages_received = count_messages n.msg_store;
  mode = n.mode;
  sync_interval = sync_interval;
  crdt_details = for_range (add_detail n.engine) (get_all_crdts n.engine) [];
}

pub data Line : Type 0 where
  peers_line interval_line objects_line messages_line : ℕ → Line
  mode_line : SyncMode → Line
  -- a set with its number of elements, a counter with its value
  set_line counter_line : String → ℕ → Line
  -- an element with its number, and how many more there are
  element_line : ℕ → String → Line
  more_line : ℕ → Line
  message_line : String → Message → Line
  operation_line : Operation → Line
  no_messages : Line

-- for i := 0; i < maxShow; i++, from number i + 1 on
unfoldable pub show_elements : ℕ → ℕ → List String → List Line
show_elements zero i elements = []
show_elements (suc max_show) i [] = []
show_elements (suc max_show) i (e ∷ elements) =
    element_line (i + 1) e ∷ show_elements max_show (i + 1) elements

-- The first three elements, and how many more.
unfoldable pub show_set : List String → List Line
unfolding show_elements
show_set elements =
    let max_show = if ltb (length elements) 3 then length elements else 3 in
    let more = if ltb 3 (length elements) then more_line (length elements - 3) ∷ [] else [] in
    if ltb 0 (length elements) then show_elements max_show 0 elements ++ more else []

unfoldable pub stats_lines : Engine → String → Crdt → List Line → List Line
unfolding show_set elements_at value_at
stats_lines e key (lww_set s) lines =
    lines ++ (set_line key (length (elements_at key e)) ∷ show_set (elements_at key e))
stats_lines e key (counter c) lines = lines ++ counter_line key (value_at key e) ∷ []

unfoldable pub print_stats : ℕ → ℕ → Node → List Line
unfolding stats_lines
print_stats peers sync_interval n =
    let all_crdts = get_all_crdts n.engine in
    for_range (stats_lines n.engine) all_crdts (
      peers_line peers
      ∷ mode_line n.mode
      ∷ interval_line sync_interval
      ∷ objects_line (len all_crdts)
      ∷ messages_line (count_messages n.msg_store)
      ∷ [])

unfoldable pub content_lines : Engine → String → Crdt → List Line → List Line
unfolding elements_at value_at
content_lines e key (lww_set s) lines = lines ++ set_line key (length (elements_at key e)) ∷ []
content_lines e key (counter c) lines = lines ++ counter_line key (value_at key e) ∷ []

unfoldable pub print_current_crdt_content : Node → List Line
unfolding content_lines
print_current_crdt_content n = for_range (content_lines n.engine) (get_all_crdts n.engine) []

-- for key, msg := range n.msgStore.GetAll()
unfoldable pub message_lines : String → Message → List Line → List Line
message_lines key msg lines =
    lines
    ++ (message_line key msg
        ∷ elim msg.operation [ none ↦ [] | some operation ↦ operation_line operation ∷ [] ])

unfoldable pub print_message_store : MessageStore → List Line
unfolding message_lines
print_message_store store =
    let listed = for_range message_lines store (messages_line (count_messages store) ∷ []) in
    elim (count_messages store) [ zero ↦ messages_line 0 ∷ no_messages ∷ [] | suc k ↦ listed ]

-- for i, element := range elements
unfoldable pub final_lines : Engine → String → Crdt → List Line → List Line
unfolding show_elements elements_at value_at
final_lines e key (lww_set s) lines =
    let elements = elements_at key e in
    lines ++ (set_line key (length elements) ∷ show_elements (length elements) 0 elements)
final_lines e key (counter c) lines = lines ++ counter_line key (value_at key e) ∷ []

unfoldable pub print_final_state : Node → List Line
unfolding final_lines print_message_store
print_final_state n =
    for_range (final_lines n.engine) (get_all_crdts n.engine) [] ++ print_message_store n.msg_store
