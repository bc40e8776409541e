-- ===== src/Main/Program/CrdtNode.antt =====
-- main_crdt.go, `crdtMain`: the node that replicates.
use gossip_pubsub.Base.{◌*◌, String, Bool, true, false, none, some, Result, ◌==◌, if◌then◌else◌}
use gossip_pubsub.Peer.{load_peer_id}
use gossip_pubsub.Engine.{Engine, new_engine_mem_only}
use gossip_pubsub.Sync.{
  Environment, Node, SyncMode, mode_publish, mode_subscribe, mode_both, other_mode,
}
use gossip_pubsub.Sync
use gossip_pubsub.Sync.Lifecycle
use gossip_pubsub.Sync.Lifecycle.{Config, Runtime, not_started, StartError, ticker_panics}
use gossip_pubsub.Main.Keys.{create_crdt_host}
use gossip_pubsub.Main.Program.{
  Flags, context, host, topic, stats_printer, discovery, go, sleep, crash_if, await_signal,
  print_messages, cancel, host_failed, pubsub_failed, join_failed, start_failed, End, fatal,
  panicked, Process, Run, goes, ends, Platform, ◌>>=◌, ◌>>◌, act, hold, outside, attempt, bootstrap,
  finish, new_process,
}

-- SyncMode(text)
unfoldable pub sync_mode : String → SyncMode
sync_mode text =
    if text == "publish"
    then mode_publish
    else if text == "subscribe"
    then mode_subscribe
    else if text == "both"
    then mode_both
    else other_mode text

-- Create CRDTSync configuration
unfoldable pub config_of : Flags → Config
unfolding sync_mode
config_of flags = record {
  mode = sync_mode flags.crdt_mode;
  sync_interval = flags.crdt_interval;
  topic_name = flags.crdt_topic;
  print_store = flags.crdt_print_store;
  heartbeat_interval = 30 * 1000000000;
}

-- `NewNode` of CRDTSync/sync.go, for a host with the id `node_id`
unfoldable pub new_node : String → Engine → Config → Node
new_node node_id engine config = record {
  node_id = node_id;
  engine = engine;
  msg_store = Sync.new_message_store;
  mode = config.mode;
}

-- The node's environment stands for the topic that was joined.
module _ {W K E H P T A I : Type 0} (platform : Platform W K E H P T A I) (id_of : H → String)
    (env : T → Environment W E) where
  -- A node of the flags, with an engine of 50 MB
  unfoldable pub node_of : Flags → H → Node
  unfolding new_node config_of new_engine_mem_only
  node_of flags h = new_node (id_of h) (new_engine_mem_only (50 * 1024 * 1024)) (config_of flags)

  unfoldable pub start_node : Flags → H → T → Process W → Run W E Runtime
  unfolding config_of node_of
  start_node flags h t p =
      let (failure, rt, w) =
        Lifecycle.start (env t) (platform.subscribe t) (config_of flags) (node_of flags h)
          not_started p.world in
      let p' = record p { world = w } in
      elim failure [
        | none ↦ goes rt p'
        | some e ↦ elim e [
          | Lifecycle.subscribe_failed x ↦
              ends (fatal (start_failed (Lifecycle.subscribe_failed x))) p'
          | ticker_panics ↦ ends panicked p'
        ]
      ]

  -- Handle print command, or wait for a signal: the context is cancelled by nothing else.
  unfoldable pub close_node : Bool → Runtime → Process W → Run W E Runtime
  close_node true rt = do
    act (sleep (5 * 1000000000))
    outside (platform.sleep_for (5 * 1000000000))
    act print_messages
    act cancel
    λ p. goes rt p
  close_node false rt = do
    act await_signal
    outside platform.next_signal
    act print_messages
    λ p. goes (Lifecycle.stop rt) p

  unfoldable pub run_topic : Flags → H → T → Process W → Run W E Runtime
  unfolding start_node close_node
  run_topic flags h t = do
    hold topic
    act (sleep (2 * 1000000000))
    outside (platform.sleep_for (2 * 1000000000))
    rt ← start_node flags h t
    act (go stats_printer)
    λ p. crash_if (platform.handler_panics p.world) p
    close_node flags.crdt_print_store rt

  unfoldable pub join_crdt : Flags → H → P → Process W → Run W E Runtime
  unfolding attempt run_topic
  join_crdt flags h ps = do
    t ← attempt (platform.join ps flags.crdt_topic) join_failed
    run_topic flags h t

  -- Start mDNS discovery, whose error is passed over and which is never stopped, and create the
  -- PubSub instance.
  unfoldable pub discover_crdt : Flags → H → Process W → Run W E Runtime
  unfolding attempt join_crdt
  discover_crdt flags h = do
    act (go discovery)
    ps ← attempt (platform.new_gossip_sub h) pubsub_failed
    join_crdt flags h ps

  unfoldable pub connect_crdt : Flags → H → Process W → Run W E Runtime
  unfolding bootstrap discover_crdt
  connect_crdt flags h = do
    hold host
    outside (λ w. (load_peer_id platform.sys w).1)
    bootstrap platform h flags.bootstraps
    discover_crdt flags h

  unfoldable pub serve_crdt : Flags → Process W → Run W E Runtime
  unfolding attempt connect_crdt
  serve_crdt flags = do
    hold context
    h ← attempt (create_crdt_host platform.sys platform.new_host flags.crdt_port) host_failed
    connect_crdt flags h

  -- `crdtMain`, with what its node has at the end
  unfoldable pub crdt_main : Flags → W → Result (End E) Runtime × Process W
  unfolding serve_crdt finish
  crdt_main flags w = finish (serve_crdt flags (new_process w))
