-- ===== src/Main/Program/Examples.antt =====
-- Runs of the two main functions on files in memory, and the theorems about them there.
use gossip_pubsub.Base.{ℕ, String, ◌≡◌, refl, true, false, none, [], ◌∷◌, ok, err}
use gossip_pubsub.GoMap.{lookup, insert}
use gossip_pubsub.Peer.{load_private_key, create_peer_id, save_key, save_config}
use gossip_pubsub.Peer.Examples.{Files, in_memory}
use gossip_pubsub.Main.Keys.{create_host, create_crdt_host, host_key, peer_key}
use gossip_pubsub.Main.Program.{
  Flags, default_flags, context, host, topic, subscription, publisher, subscriber, stats_printer,
  acquire, release, go, await_signal, print_messages, cancel, wait, Platform, attempt, release_all,
  finish, exited, panicked,
}
use gossip_pubsub.Main.Program.Node.{run_node, serve}
use gossip_pubsub.Main.Program.Outcome
use gossip_pubsub.Main.Program.CrdtNode.{crdt_main, serve_crdt, sync_mode}
use gossip_pubsub.Main.Program.CrdtOutcome
use gossip_pubsub.Sync.{Environment, mode_both, can_publish, send_sync_request, send}
use gossip_pubsub.Sync.Lifecycle

abbrev platform : Platform Files ℕ String ℕ ℕ ℕ ℕ ℕ
platform = record {
  sys = in_memory;
  new_host = λ port k w. (ok port, w);
  new_multiaddr = λ bytes. ok 1;
  addr_info = λ addr. ok addr;
  connect = λ h peer w. (none, w);
  new_gossip_sub = λ h w. (ok 1, w);
  join = λ ps name w. (ok 1, w);
  subscribe = λ t w. (none, w);
  sleep_for = λ n w. w;
  next_signal = λ w. w;
  handler_panics = λ w. false;
}

abbrev showing : Flags
showing = record default_flags { show_addrs = true }

node_runs :
    ((run_node platform default_flags []).1.actions
      ≡ release context
        ∷ release host
        ∷ release topic
        ∷ release subscription
        ∷ wait
        ∷ cancel
        ∷ print_messages
        ∷ await_signal
        ∷ go stats_printer
        ∷ go subscriber
        ∷ acquire subscription
        ∷ go publisher
        ∷ acquire topic
        ∷ acquire host
        ∷ acquire context
        ∷ [])
    × ((run_node platform showing []).0 ≡ err exited)
unfolding run_node serve attempt finish release_all create_host host_key peer_key load_private_key
    create_peer_id save_key save_config insert lookup
node_runs = (refl, refl)

run_node-Outcome_example :
    Outcome.Outcome platform default_flags
      (run_node platform default_flags []).0
      (run_node platform default_flags []).1
run_node-Outcome_example = Outcome.run_node-Outcome platform default_flags []

abbrev quiet : ℕ → Environment Files String
quiet t = record {
  marshal_wrapper = λ name c. err "unknown";
  unmarshal_wrapper = λ raw. err "unknown";
  unmarshal_counter = λ raw. err "unknown";
  unmarshal_set = λ raw. err "unknown";
  marshal_message = λ msg. ok "message";
  unmarshal_message = λ raw. err "unknown";
  publish = λ raw w. (none, w);
  next = λ w. (err "deadline", w);
  timed_out = λ w. true;
  now = λ w. 7;
  decimal = λ n. "7";
  nil_map = λ w key. false;
}

abbrev id_of : ℕ → String
id_of h = "12D3KooWnode"

abbrev printing : Flags
printing = record default_flags { crdt_print_store = true }

abbrev hurried : Flags
hurried = record default_flags { crdt_interval = 0 }

crdt_runs :
    ((crdt_main platform id_of quiet default_flags []).0
      ≡ ok (Lifecycle.stop (Lifecycle.started mode_both)))
    × ((crdt_main platform id_of quiet printing []).0 ≡ ok (Lifecycle.started mode_both))
    × ((crdt_main platform id_of quiet hurried []).0 ≡ err panicked)
unfolding crdt_main serve_crdt attempt finish release_all create_crdt_host create_host host_key
    peer_key load_private_key create_peer_id save_key save_config insert lookup sync_mode
    Lifecycle.start can_publish Lifecycle.can_subscribe send_sync_request send Lifecycle.stop
crdt_runs = (refl, refl, refl)
