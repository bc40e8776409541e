-- ===== src/Sync/Loops.antt =====
-- The goroutines of CRDTSync/implementation.go: `startPublisher` and `startSubscriber`. The heartbeat
-- only logs.
mod Examples
pub mod Publishing
pub mod Receiving
use gossip_pubsub.Base.{ℕ, zero, suc, Bool, Option, none, some, List, [], ◌∷◌, if◌then◌else◌}
use gossip_pubsub.Sync.{Environment, Node, SyncError, panics, receive_crdt_message}
use gossip_pubsub.Sync.Local.{publish_round}

-- What the `select` of the publisher takes: the context is done, or the ticker has ticked.
pub data Event : Type 0 where
  stopped ticked : Event

-- How the loop of the subscriber goes on.
pub data Step : Type 0 where
  go_on leave crash : Step

-- ctx.Err() and time.Sleep(time.Second) are parameters.
module _ {W E : Type 0} (env : Environment W E) (is_done : W → Bool) (sleep : W → W) where
  -- The counter, the node and the world after some events; `none` is a panic.
  unfoldable pub publisher_loop : List Event → ℕ → Node → W → Option (ℕ × Node × W)
  unfolding publish_round
  publisher_loop [] count n w = some (count, n, w)
  publisher_loop (stopped ∷ events) count n w = some (count, n, w)
  publisher_loop (ticked ∷ events) count n w = elim (publish_round env count n w) [
    | none ↦ none
    | some (count', n', w') ↦ publisher_loop events count' n' w'
  ]

  -- After an error: return if the context is done, else sleep.
  unfoldable pub after_receive : Option (SyncError E) → W → Step × W
  after_receive none w = (go_on, w)
  after_receive (some e) w = elim e [
    | panics ↦ (crash, w)
    | _ ↦ if is_done w then (leave, w) else (go_on, sleep w)
  ]

  -- The first `rounds` rounds; `none` is a panic.
  unfoldable pub subscriber_loop : ℕ → Node → W → Option (Node × W)
  unfolding receive_crdt_message after_receive
  subscriber_loop zero n w = some (n, w)
  subscriber_loop (suc rounds) n w =
      let (failure, n', w') = receive_crdt_message env n w in
      let (step, w'') = after_receive failure w' in
      let rest = subscriber_loop rounds n' w'' in
      if is_done w
      then some (n, w)
      else elim step [ go_on ↦ rest | leave ↦ some (n', w'') | crash ↦ none ]
