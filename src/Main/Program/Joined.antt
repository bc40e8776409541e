-- ===== src/Main/Program/Joined.antt =====
-- `main` of main.go up to the topic: what it holds then, and how it can end before.
use gossip_pubsub.Base.{◌≡◌, ◌⊎◌, refl, ap, Bool, true, false, [], ◌∷◌}
use gossip_pubsub.Main.Program.{
  Flags, host, topic, acquire, host_failed, pubsub_failed, join_failed, Process, Platform, exit_if,
  bootstrap, new_process,
}
use gossip_pubsub.Main.Program.Node.{
  publishes, subscribes, join_from, start_pubsub, connect_host, announce_host, join_topic,
}
use gossip_pubsub.Main.Keys.{create_host}
use gossip_pubsub.Peer.{load_peer_id}
use gossip_pubsub.Main.Program.Releases.{
  acquired, released, started, Holds, Post, bind-Post, attempt_then, bootstrap-Post,
}

-- What may end the program by a panic of a goroutine: a publisher with no interval, or a subscriber.
abbrev pub Fragile : Flags → Type 0
Fragile flags =
    ((publishes flags.mode ≡ true) × (flags.publish_interval ≡ 0)) ⊎ (subscribes flags.mode ≡ true)

module _ {W K E H P T A I : Type 0} (platform : Platform W K E H P T A I) (flags : Flags) where
  abbrev pub Joined : T → Process W → Type 0
  Joined t p = Holds [] p × (flags.show_addrs ≡ false)

  join_from-Post :
      (ps : P) (p : Process W)
      → flags.show_addrs ≡ false
      → Holds [] p
      → Post (flags.show_addrs ≡ true) ⊥ (Fragile flags) Joined (join_from platform flags ps p)
  unfolding join_from acquired released started
  join_from-Post ps p hidden holds =
      attempt_then (flags.show_addrs ≡ true) ⊥ (Fragile flags) [] Joined
        (platform.join ps flags.topic_name) join_failed _ p holds
        (λ t q h. (
          record {
            deferred = ap (λ rs. topic ∷ rs) h.deferred;
            kept = h.kept;
            running = h.running;
          },
          hidden,
        ))

  start_pubsub-Post :
      (h : H) (p : Process W)
      → flags.show_addrs ≡ false
      → Holds [] p
      → Post (flags.show_addrs ≡ true) ⊥ (Fragile flags) Joined (start_pubsub platform flags h p)
  unfolding start_pubsub
  start_pubsub-Post h p hidden holds =
      attempt_then (flags.show_addrs ≡ true) ⊥ (Fragile flags) [] Joined (platform.new_gossip_sub h)
        pubsub_failed (join_from platform flags) p holds (λ ps q. join_from-Post ps q hidden)

  connect_host-Post :
      (h : H) (p : Process W)
      → flags.show_addrs ≡ false
      → Holds [] p
      → Post (flags.show_addrs ≡ true) ⊥ (Fragile flags) Joined (connect_host platform flags h p)
  unfolding connect_host
  connect_host-Post h p hidden holds =
      bind-Post (flags.show_addrs ≡ true) ⊥ (Fragile flags) (λ (x : Unit {0}). Holds []) Joined
        (bootstrap platform h flags.bootstraps p) (λ x. start_pubsub platform flags h)
        (bootstrap-Post (flags.show_addrs ≡ true) ⊥ (Fragile flags) [] platform h flags.bootstraps p
          holds)
        (λ x q. start_pubsub-Post h q hidden)

  exit_if-Post :
      (b : Bool) (p : Process W)
      → Holds [] p
      → Post {E = E}
          (b ≡ true)
          ⊥
          (Fragile flags)
          (λ (x : Unit {0}) q. Holds [] q × (b ≡ false))
          (exit_if b p)
  exit_if-Post true p holds = (holds.kept, refl, holds.running)
  exit_if-Post false p holds = (holds, refl)

  announce_host-Post :
      (h : H) (p : Process W)
      → Holds [] p
      → Post (flags.show_addrs ≡ true) ⊥ (Fragile flags) Joined (announce_host platform flags h p)
  unfolding announce_host acquired released started
  announce_host-Post h p holds =
      let p' = record p {
        world = (load_peer_id platform.sys p.world).1;
        actions = acquire host ∷ p.actions;
        deferred = host ∷ p.deferred;
      } in
      let holds' : Holds [] p' = record {
        deferred = ap (λ rs. host ∷ rs) holds.deferred;
        kept = holds.kept;
        running = holds.running;
      } in
      bind-Post (flags.show_addrs ≡ true) ⊥ (Fragile flags)
        (λ (x : Unit {0}) q. Holds [] q × (flags.show_addrs ≡ false)) Joined
        (exit_if flags.show_addrs p') (λ x. connect_host platform flags h)
        (exit_if-Post flags.show_addrs p' holds') (λ x q both. connect_host-Post h q both.1 both.0)

  pub join_topic-Post :
      (w : W)
      → Post
          (flags.show_addrs ≡ true)
          ⊥
          (Fragile flags)
          Joined
          (join_topic platform flags (new_process w))
  unfolding join_topic acquired released started
  join_topic-Post w =
      attempt_then (flags.show_addrs ≡ true) ⊥ (Fragile flags) [] Joined
        (create_host platform.sys platform.new_host flags.port flags.key_file) host_failed
        (announce_host platform flags) _ (record { deferred = refl; kept = refl; running = refl })
        announce_host-Post
