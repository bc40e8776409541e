-- ===== src/Main/Program/CrdtOutcome.antt =====
-- How `crdtMain` of main_crdt.go ends, and what it leaves behind.
use mathlib.Core.List.{reverse}
use gossip_pubsub.Base.{String, ◌≡◌, true, [], ◌∷◌, Result, ok, err, if◌then◌else◌}
use gossip_pubsub.Sync.{Environment, can_publish}
use gossip_pubsub.Sync.Lifecycle
use gossip_pubsub.Sync.Lifecycle.{Runtime, StartError}
use gossip_pubsub.Main.Program.{
  Flags, stats_printer, discovery, End, exited, fatal, panicked, crashed, hung, Process, Platform,
}
use gossip_pubsub.Main.Program.CrdtNode.{sync_mode}
use gossip_pubsub.Main.Program.Releases.{acquired, released, started, Holds}

-- What stops the program: a publisher with no interval.
abbrev pub WantsInterval : Flags → Type 0
WantsInterval flags = (can_publish (sync_mode flags.crdt_mode) ≡ true) × (flags.crdt_interval ≡ 0)

-- What runs of the node at a return: all that its mode starts, cancelled unless the store was to be
-- printed.
abbrev pub left_running : Flags → Runtime
left_running flags =
    if flags.crdt_print_store
    then Lifecycle.started (sync_mode flags.crdt_mode)
    else Lifecycle.stop (Lifecycle.started (sync_mode flags.crdt_mode))

module _ {W K E H P T A I : Type 0} (platform : Platform W K E H P T A I) (id_of : H → String)
    (env : T → Environment W E) (flags : Flags) where
  abbrev Started : Runtime → Process W → Type 0
  Started rt p = Holds (discovery ∷ []) p × (rt ≡ Lifecycle.started (sync_mode flags.crdt_mode))

  -- The stats printer runs beside what the node runs.
  abbrev Served : Runtime → Process W → Type 0
  Served rt p = Holds (stats_printer ∷ discovery ∷ []) p × (rt ≡ left_running flags)

  -- What a process did that returned, with what is left of its node, and one that ended otherwise.
  abbrev pub Outcome : Result (End E) Runtime → Process W → Type 0
  Outcome (ok rt) p =
      (released p.actions ≡ reverse (acquired p.actions))
      × (started p.actions ≡ stats_printer ∷ discovery ∷ [])
      × (rt ≡ left_running flags)
  Outcome (err exited) p = ⊥
  Outcome (err (fatal failure)) p = released p.actions ≡ []
  Outcome (err panicked) p =
      WantsInterval flags × (released p.actions ≡ reverse (acquired p.actions))
  Outcome (err crashed) p = released p.actions ≡ []
  Outcome (err hung) p = ⊥
