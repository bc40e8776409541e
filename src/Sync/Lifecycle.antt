-- ===== src/Sync/Lifecycle.antt =====
-- CRDTSync/implementation.go and sync.go: the configuration, `Start` and `Stop`. The goroutines are
-- named by what they run; their loops repeat the handlers of the other files until the context is
-- done.
use gossip_pubsub.Base.{
  ℕ, ◌*◌, ◌<◌, String, ◌≡◌, ◌⊎◌, refl, Bool, true, false, Option, none, some, is_some, List, [],
  ◌∷◌, ◌++◌, eqb, if◌then◌else◌, arith,
}
use gossip_pubsub.Sync.{
  SyncMode, mode_publish, mode_subscribe, mode_both, other_mode, Environment, Node, can_publish,
  send_sync_request,
}

-- Durations are in nanoseconds; one that is not positive is 0.
pub record Config : Type 0 where
  pub mode : SyncMode
  pub sync_interval : ℕ
  pub topic_name : String
  pub print_store : Bool
  pub heartbeat_interval : ℕ

abbrev pub default_config : Config
default_config = record {
  mode = mode_both;
  sync_interval = 7 * 1000000000;
  topic_name = "crdt-topic";
  print_store = false;
  heartbeat_interval = 30 * 1000000000;
}

pub data Routine : Type 0 where
  subscriber publisher heartbeat : Routine

-- What `Start` and `Stop` change of a node: `sub`, the tickers, the goroutines and the context.
pub record Runtime : Type 0 where
  pub subscribed : Bool
  pub sync_ticker : Bool
  pub heartbeat_ticker : Bool
  pub running : List Routine
  pub cancelled : Bool

abbrev pub not_started : Runtime
not_started = record {
  subscribed = false;
  sync_ticker = false;
  heartbeat_ticker = false;
  running = [];
  cancelled = false;
}

unfoldable pub can_subscribe : SyncMode → Bool
can_subscribe mode_subscribe = true
can_subscribe mode_both = true
can_subscribe mode_publish = false
can_subscribe (other_mode name) = false

pub data StartError (E : Type 0) : Type 0 where
  subscribe_failed : E → StartError E
  -- time.NewTicker on a duration that is not positive
  ticker_panics : StartError E

-- What runs in a mode.
abbrev pub routines : SyncMode → List Routine
routines mode_publish = publisher ∷ []
routines mode_subscribe = subscriber ∷ heartbeat ∷ []
routines mode_both = subscriber ∷ publisher ∷ heartbeat ∷ []
routines (other_mode name) = []

abbrev pub started : SyncMode → Runtime
started mode = record {
  subscribed = can_subscribe mode;
  sync_ticker = can_publish mode;
  heartbeat_ticker = can_subscribe mode;
  running = routines mode;
  cancelled = false;
}

-- topic.Subscribe() is a parameter.
module _ {W E : Type 0} (env : Environment W E) (subscribe : W → Option E × W) where
  -- The heartbeat, and the request for the state of the others, whose error is only logged.
  unfoldable pub start_heartbeat : Config → Node → Runtime → W → Option (StartError E) × Runtime × W
  start_heartbeat config n rt w =
      let asked = (send_sync_request env n w).1 in
      if can_subscribe n.mode
      then (if eqb config.heartbeat_interval 0 then (some ticker_panics, rt, w) else (
        none,
        record rt { heartbeat_ticker = true; running = rt.running ++ heartbeat ∷ [] },
        asked,
      ))
      else (none, rt, w)

  unfoldable pub start_publisher : Config → Node → Runtime → W → Option (StartError E) × Runtime × W
  unfolding start_heartbeat
  start_publisher config n rt w =
      if can_publish n.mode
      then (if eqb config.sync_interval 0
          then (some ticker_panics, rt, w)
          else start_heartbeat config n
              (record rt { sync_ticker = true; running = rt.running ++ publisher ∷ [] }) w)
      else start_heartbeat config n rt w

  unfoldable pub start : Config → Node → Runtime → W → Option (StartError E) × Runtime × W
  unfolding start_publisher
  start config n rt w =
      let (failure, w') = subscribe w in
      if can_subscribe n.mode
      then elim failure [
        | some e ↦ (some (subscribe_failed e), rt, w')
        | none ↦
            start_publisher config n
              (record rt { subscribed = true; running = rt.running ++ subscriber ∷ [] }) w'
      ]
      else start_publisher config n rt w

  -- What keeps a node from starting.
  abbrev pub Hindered : Config → SyncMode → W → Type 0
  Hindered config mode w =
      ((can_subscribe mode ≡ true)
        × ((is_some (subscribe w).0 ≡ true) ⊎ (config.heartbeat_interval ≡ 0)))
      ⊎ ((can_publish mode ≡ true) × (config.sync_interval ≡ 0))

  module _ (config : Config) (n : Node) (w : W) where
    abbrev Outcome : Type 0
    Outcome =
        (((start config n not_started w).0 ≡ none)
          × ((start config n not_started w).1 ≡ started n.mode)
          × (¬ Hindered config n.mode w))
        ⊎ ((is_some (start config n not_started w).0 ≡ true) × Hindered config n.mode w)

    start_at : (mode : SyncMode) → n.mode ≡ mode → Outcome
    unfolding start can_subscribe can_publish
    start_at mode_publish e = ground arith
    start_at mode_subscribe e = ground arith
    start_at mode_both e = ground arith
    start_at (other_mode name) e = ground arith

  -- `Start` on a new node returns no error exactly if no hindrance stands in its mode's way, and
  -- then exactly the goroutines of its mode run, each with its ticker or its subscription.
  pub start_outcome :
      (config : Config) (n : Node) (w : W)
      → (((start config n not_started w).0 ≡ none)
          × ((start config n not_started w).1 ≡ started n.mode)
          × (¬ Hindered config n.mode w))
        ⊎ ((is_some (start config n not_started w).0 ≡ true) × Hindered config n.mode w)
  start_outcome config n w = start_at config n w n.mode refl

  module _ (config : Config) (n : Node) (w : W) (beats : 0 < config.heartbeat_interval) where
    panics_at :
        (mode : SyncMode)
        → n.mode ≡ mode
        → (start config n not_started w).0 ≡ some ticker_panics
        → (can_publish mode ≡ true) × (config.sync_interval ≡ 0)
    unfolding start can_subscribe can_publish
    panics_at mode_publish e h = ground arith
    panics_at mode_subscribe e h = ground arith
    panics_at mode_both e h = ground arith
    panics_at (other_mode name) e h = ground arith

  -- With a heartbeat interval, `Start` panics only for want of a publishing interval.
  pub start_panics :
      (config : Config) (n : Node) (w : W)
      → 0 < config.heartbeat_interval
      → (start config n not_started w).0 ≡ some ticker_panics
      → (can_publish n.mode ≡ true) × (config.sync_interval ≡ 0)
  start_panics config n w beats h = panics_at config n w beats n.mode refl h

-- `Stop`
unfoldable pub stop : Runtime → Runtime
stop rt = record rt {
  subscribed = false;
  sync_ticker = false;
  heartbeat_ticker = false;
  cancelled = true;
}
