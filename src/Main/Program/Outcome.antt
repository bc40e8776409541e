-- ===== src/Main/Program/Outcome.antt =====
-- How `main` of main.go ends, and what it leaves behind.
use mathlib.Core.List.{reverse}
use gossip_pubsub.Base.{
  String, ◌≡◌, refl, ap, ◌∙◌, Bool, true, false, List, [], ◌∷◌, ◌++◌, Result, ok, err,
  if◌then◌else◌, inl, inr, Bool-cases, arith,
}
use gossip_pubsub.Main.Program.{
  Flags, subscription, Routine, publisher, subscriber, stats_printer, Action, go, print_messages,
  cancel, wait, subscribe_failed, End, exited, fatal, panicked, crashed, hung, Process, Run, goes,
  ends, Platform, when, act, crash_if, finish, new_process,
}
use gossip_pubsub.Main.Program.Node.{
  serve_topic, join_topic, publishes, subscribes, subscribe_call, start_subscriber, start_routines,
  pause, routine_panics, serve, run_node,
}
use gossip_pubsub.Main.Program.Releases.{
  acquired, released, started, Holds, Post, bind-Post, attempt_then,
}
use gossip_pubsub.Main.Program.Joined.{Fragile, Joined, join_topic-Post}
use gossip_pubsub.Main.Program.Releases.{
  before_releases, released_in_order, started-release_all, before_releases-release_all,
}

-- What runs in a mode, the latest first.
abbrev pub routines : String → List Routine
routines mode =
    stats_printer ∷ (if subscribes mode then subscriber ∷ [] else [])
    ++ (if publishes mode then publisher ∷ [] else [])

module _ {W K E H P T A I : Type 0} (platform : Platform W K E H P T A I) (flags : Flags) where
  start_publisher-Post :
      (b : Bool) (p : Process W)
      → Holds [] p
      → Post {E = E}
          (flags.show_addrs ≡ true)
          ⊥
          (Fragile flags)
          (λ (x : Unit {0}). Holds (if b then publisher ∷ [] else []))
          (when b (act (go publisher)) p)
  unfolding acquired released started
  start_publisher-Post false p holds = holds
  start_publisher-Post true p holds = record {
    deferred = holds.deferred;
    kept = holds.kept;
    running = ap (λ rs. publisher ∷ rs) holds.running;
  }

  start_subscriber-Post :
      (b : Bool) (rs : List Routine) (t : T) (p : Process W)
      → Holds rs p
      → Post
          (flags.show_addrs ≡ true)
          ⊥
          (Fragile flags)
          (λ (x : Unit {0}). Holds ((if b then subscriber ∷ [] else []) ++ rs))
          (when b (start_subscriber platform t) p)
  unfolding start_subscriber acquired released started
  start_subscriber-Post false rs t p holds = holds
  start_subscriber-Post true rs t p holds =
      attempt_then (flags.show_addrs ≡ true) ⊥ (Fragile flags) rs
        (λ (x : Unit {0}). Holds (subscriber ∷ rs)) (subscribe_call platform t) subscribe_failed _ p
        holds
        (λ x q h. record {
          deferred = ap (λ rs. subscription ∷ rs) h.deferred;
          kept = h.kept;
          running = ap (λ rs. subscriber ∷ rs) h.running;
        })

  abbrev Running : Process W → Type 0
  Running = Holds (routines flags.mode)

  start_routines-Post :
      (t : T) (p : Process W)
      → Holds [] p
      → Post
          (flags.show_addrs ≡ true)
          ⊥
          (Fragile flags)
          (λ (x : Unit {0}). Running)
          (start_routines platform flags t p)
  unfolding start_routines acquired released started
  start_routines-Post t p holds =
      bind-Post (flags.show_addrs ≡ true) ⊥ (Fragile flags)
        (λ (x : Unit {0}). Holds (if publishes flags.mode then publisher ∷ [] else []))
        (λ (x : Unit {0}). Running) (when (publishes flags.mode) (act (go publisher)) p) _
        (start_publisher-Post (publishes flags.mode) p holds)
        (λ x q h.
          bind-Post (flags.show_addrs ≡ true) ⊥ (Fragile flags)
            (λ (x : Unit {0}). Holds (
              (if subscribes flags.mode then subscriber ∷ [] else [])
              ++ (if publishes flags.mode then publisher ∷ [] else [])))
            (λ (x : Unit {0}). Running)
            (when (subscribes flags.mode) (start_subscriber platform t) q) _
            (start_subscriber-Post (subscribes flags.mode) _ t q h)
            (λ y r k. record {
              deferred = k.deferred;
              kept = k.kept;
              running = ap (λ rs. stats_printer ∷ rs) k.running;
            }))

  -- Running, with the last actions a call of cancel() and one of wg.Wait().
  abbrev Closed : Process W → Type 0
  Closed p =
      Running p
      × (flags.show_addrs ≡ false)
      × (rest : List Action) × (before_releases p.actions ≡ wait ∷ cancel ∷ rest)

  pause-Post :
      (b : Bool) (p : Process W)
      → Running p
      → Post {E = E}
          (flags.show_addrs ≡ true)
          ⊥
          (Fragile flags)
          (λ (x : Unit {0}). Running)
          (pause platform b p)
  unfolding acquired released started
  pause-Post true p h = record { deferred = h.deferred; kept = h.kept; running = h.running }
  pause-Post false p h = record { deferred = h.deferred; kept = h.kept; running = h.running }

  crash-Post :
      (b : Bool) (p : Process W)
      → (b ≡ true → Fragile flags)
      → Running p
      → Post {E = E}
          (flags.show_addrs ≡ true)
          ⊥
          (Fragile flags)
          (λ (x : Unit {0}). Running)
          (crash_if b p)
  crash-Post true p why h = (h.kept, why refl)
  crash-Post false p why h = h

  why_crashed : (w : W) → routine_panics platform flags w ≡ true → Fragile flags
  why_crashed w q = elim (Bool-cases (subscribes flags.mode)) [
    | inl reads ↦ inr reads
    | inr silent ↦ inl (ground arith)
  ]

  serve_topic-Post :
      (t : T) (p : Process W)
      → Joined platform flags t p
      → Post
          (flags.show_addrs ≡ true)
          ⊥
          (Fragile flags)
          (λ (x : Unit {0}). Closed)
          (serve_topic platform flags t p)
  unfolding serve_topic acquired released started before_releases
  serve_topic-Post t p joined =
      bind-Post (flags.show_addrs ≡ true) ⊥ (Fragile flags) (λ (x : Unit {0}). Running)
        (λ (x : Unit {0}). Closed) (start_routines platform flags t p) _
        (start_routines-Post t p joined.0)
        (λ x q running.
          bind-Post (flags.show_addrs ≡ true) ⊥ (Fragile flags) (λ (z : Unit {0}). Running)
            (λ (z : Unit {0}). Closed) (crash_if (routine_panics platform flags q.world) q) _
            (crash-Post (routine_panics platform flags q.world) q (why_crashed q.world) running)
            (λ z o alive.
              bind-Post (flags.show_addrs ≡ true) ⊥ (Fragile flags) (λ (y : Unit {0}). Running)
                (λ (y : Unit {0}). Closed) (pause platform flags.print_store o) _
                (pause-Post flags.print_store o alive)
                (λ y r h. (
                  record { deferred = h.deferred; kept = h.kept; running = h.running },
                  joined.1,
                  print_messages ∷ r.actions,
                  refl,
                ))))

  serve-Post :
      (w : W)
      → Post
          (flags.show_addrs ≡ true)
          ⊥
          (Fragile flags)
          (λ (x : Unit {0}). Closed)
          (serve platform flags (new_process w))
  unfolding serve
  serve-Post w =
      bind-Post (flags.show_addrs ≡ true) ⊥ (Fragile flags) (Joined platform flags)
        (λ (x : Unit {0}). Closed) (join_topic platform flags (new_process w))
        (serve_topic platform flags) (join_topic-Post platform flags w) serve_topic-Post

  -- What a process did that returned, and one that ended otherwise.
  abbrev pub Outcome : Result (End E) (Unit {0}) → Process W → Type 0
  Outcome (ok u) p =
      (flags.show_addrs ≡ false)
      × (released p.actions ≡ reverse (acquired p.actions))
      × (started p.actions ≡ routines flags.mode)
      × (rest : List Action) × (before_releases p.actions ≡ wait ∷ cancel ∷ rest)
  Outcome (err exited) p =
      (flags.show_addrs ≡ true) × (started p.actions ≡ []) × (released p.actions ≡ [])
  Outcome (err (fatal failure)) p = released p.actions ≡ []
  Outcome (err panicked) p = ⊥
  Outcome (err crashed) p = (released p.actions ≡ []) × Fragile flags
  Outcome (err hung) p = ⊥

  finish-Outcome :
      (r : Run W E (Unit {0}))
      → Post (flags.show_addrs ≡ true) ⊥ (Fragile flags) (λ (x : Unit {0}). Closed) r
      → Outcome (finish r).0 (finish r).1
  unfolding finish
  finish-Outcome (ends exited p) h = (h.1, h.2, h.0)
  finish-Outcome (ends (fatal failure) p) h = h
  finish-Outcome (ends panicked p) h = h.1
  finish-Outcome (ends crashed p) h = h
  finish-Outcome (ends hung p) h = h
  finish-Outcome (goes x p) (running, hidden, rest, closed) = (
    hidden,
    released_in_order p running.deferred running.kept,
    started-release_all p.deferred p.actions ∙ running.running,
    rest,
    before_releases-release_all p.deferred p.actions ∙ closed,
  )

  -- However the libraries answer, a run of `main` without -crdt that returns was not given -addrs, has
  -- released all that it acquired, the latest first, has started exactly the goroutines of its mode,
  -- and called cancel() and waited for the goroutines just before the releases. A run that ends by
  -- os.Exit was given -addrs, and has started and released nothing. One that ends by log.Fatalf has
  -- released nothing, nor has one that ends by a panic of a goroutine while `main` waits; that has a
  -- publisher with no positive interval, or a subscriber. `main` itself neither panics nor runs on
  -- for ever.
  pub run_node-Outcome :
      (w : W) → Outcome (run_node platform flags w).0 (run_node platform flags w).1
  unfolding run_node
  run_node-Outcome w = finish-Outcome (serve platform flags (new_process w)) (serve-Post w)
