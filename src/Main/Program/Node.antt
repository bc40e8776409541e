-- ===== src/Main/Program/Node.antt =====
-- main.go, `main`: the node for plain messages.
use gossip_pubsub.Base.{
  ◌*◌, String, Bool, true, false, ◌||◌, ◌&&◌, eqb, none, some, Result, ok, err, ◌==◌,
}
use gossip_pubsub.Peer.{load_peer_id}
use gossip_pubsub.Main.Keys.{create_host}
use gossip_pubsub.Main.Program.{
  Flags, context, host, topic, subscription, publisher, subscriber, stats_printer, go, sleep,
  await_signal, print_messages, cancel, wait, host_failed, pubsub_failed, join_failed,
  subscribe_failed, End, Process, Run, goes, Platform, ◌>>=◌, ◌>>◌, when, act, hold, exit_if,
  crash_if, outside, attempt, bootstrap, finish, new_process,
}

-- *mode == "publisher" || *mode == "both", and likewise
abbrev pub publishes : String → Bool
publishes mode = mode == "publisher" || mode == "both"

abbrev pub subscribes : String → Bool
subscribes mode = mode == "subscriber" || mode == "both"

module _ {W K E H P T A I : Type 0} (platform : Platform W K E H P T A I) where
  -- Join topic
  unfoldable pub join_from : Flags → P → Process W → Run W E T
  unfolding attempt
  join_from flags ps = do
    t ← attempt (platform.join ps flags.topic_name) join_failed
    hold topic
    λ p. goes t p

  -- Create PubSub instance
  unfoldable pub start_pubsub : Flags → H → Process W → Run W E T
  unfolding attempt join_from
  start_pubsub flags h = do
    ps ← attempt (platform.new_gossip_sub h) pubsub_failed
    join_from flags ps

  unfoldable pub connect_host : Flags → H → Process W → Run W E T
  unfolding bootstrap start_pubsub
  connect_host flags h = do bootstrap platform h flags.bootstraps; start_pubsub flags h

  -- The id that `LoadPeerID` loads, or creates, is only logged. Just show addresses and exit.
  unfoldable pub announce_host : Flags → H → Process W → Run W E T
  unfolding connect_host
  announce_host flags h = do
    hold host
    outside (λ w. (load_peer_id platform.sys w).1)
    exit_if flags.show_addrs
    connect_host flags h

  -- The topic, with the context, the host and the topic held.
  unfoldable pub join_topic : Flags → Process W → Run W E T
  unfolding attempt announce_host
  join_topic flags = do
    hold context
    h ← attempt (create_host platform.sys platform.new_host flags.port flags.key_file) host_failed
    announce_host flags h

  -- sub, err := topic.Subscribe()
  unfoldable pub subscribe_call : T → W → Result E (Unit {0}) × W
  subscribe_call t w =
      let (failure, w') = platform.subscribe t w in
      (elim failure [ none ↦ ok tt | some e ↦ err e ], w')

  unfoldable pub start_subscriber : T → Process W → Run W E (Unit {0})
  unfolding attempt subscribe_call
  start_subscriber t = do
    attempt (subscribe_call t) subscribe_failed
    hold subscription
    act (go subscriber)

  -- Start components based on mode
  unfoldable pub start_routines : Flags → T → Process W → Run W E (Unit {0})
  unfolding start_subscriber
  start_routines flags t = do
    when (publishes flags.mode) (act (go publisher))
    when (subscribes flags.mode) (start_subscriber t)
    act (go stats_printer)

  -- Wait a bit for messages to arrive, or for a signal.
  abbrev pub pause : Bool → Process W → Run W E (Unit {0})
  pause true = do act (sleep (5 * 1000000000)); outside (platform.sleep_for (5 * 1000000000))
  pause false = do act await_signal; outside platform.next_signal

  -- time.NewTicker of the publisher panics if its interval is not positive, and the handler of the
  -- subscriber may.
  abbrev pub routine_panics : Flags → W → Bool
  routine_panics flags w =
      (publishes flags.mode && eqb flags.publish_interval 0)
      || (subscribes flags.mode && platform.handler_panics w)

  abbrev pub close_down : Flags → Process W → Run W E (Unit {0})
  close_down flags = do
    λ p. crash_if (routine_panics flags p.world) p
    pause flags.print_store
    act print_messages
    act cancel
    act wait

  unfoldable pub serve_topic : Flags → T → Process W → Run W E (Unit {0})
  unfolding start_routines
  serve_topic flags t = do start_routines flags t; close_down flags

  unfoldable pub serve : Flags → Process W → Run W E (Unit {0})
  unfolding join_topic serve_topic
  serve flags = do t ← join_topic flags; serve_topic flags t

  -- `main` without the flag -crdt
  unfoldable pub run_node : Flags → W → Result (End E) (Unit {0}) × Process W
  unfolding serve finish
  run_node flags w = finish (serve flags (new_process w))
