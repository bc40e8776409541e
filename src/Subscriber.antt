-- ===== src/Subscriber.antt =====
-- Subscriber/Subscriber.go: receiving messages, their validation, the metrics and the peers seen.
-- Metrics are int64 counters, kept as their 64 bits. Logging and `processMessage`, which only logs,
-- are left out. The two clock readings for one message are taken as one.
mod Examples
pub mod Validation
pub mod Received
pub mod Handler
pub mod Peers
use gossip_pubsub.Base.{
  length, ℕ, zero, suc, ◌+◌, ◌*◌, String, ◌≡◌, Bool, true, false, Option, none, some, List, [], ◌∷◌,
  ◌++◌, ◌==◌, ltb, eqb, if◌then◌else◌, Result, ok, err,
}
use gossip_pubsub.Base.Words.{add64}
use gossip_pubsub.GoMap.{GoMap, insert, len, for_range}
use gossip_pubsub.Clock.{copy_entry}

-- The fields of a pubsub message that the code reads; bytes are numbers.
pub record Message : Type 0 where
  pub data_bytes : List ℕ
  pub received_from : String
  pub seqno : List ℕ

-- The code outside the repository: `W` is the state of the world, `E` the errors.
pub record Subscription (W E : Type 0) : Type 0 where
  -- s.subscription.Next(ctx): a pointer, or an error
  pub next : W → Result E (Option Message) × W
  -- time.Now().UnixNano()
  pub now : W → ℕ
  -- ctx.Err() != nil
  pub is_done : W → Bool
  -- time.Sleep(time.Second)
  pub sleep : W → W
  -- peer.ID's String()
  pub peer_text : String → String

pub record SubscriberMetrics : Type 0 where
  pub messages_received : ℕ
  pub receive_errors : ℕ
  pub validation_errors : ℕ
  pub last_receive_time : ℕ
  pub unique_peers : GoMap ℕ

unfoldable pub new_subscriber : SubscriberMetrics
new_subscriber = record {
  messages_received = 0;
  receive_errors = 0;
  validation_errors = 0;
  last_receive_time = 0;
  unique_peers = [];
}

pub data ValidationError : Type 0 where
  nil_message empty_message no_sender : ValidationError
  too_large : ℕ → ValidationError

-- `none` is a nil error.
unfoldable pub validate_message : Option Message → Option ValidationError
validate_message none = some nil_message
validate_message (some msg) =
    if eqb (length msg.data_bytes) 0
    then some empty_message
    else if ltb (1024 * 1024) (length msg.data_bytes)
    then some (too_large (length msg.data_bytes))
    else if msg.received_from == ""
    then some no_sender
    else none

pub data HandlerError (E : Type 0) : Type 0 where
  receive_failed handler_failed : E → HandlerError E

unfoldable pub count_validation_error : SubscriberMetrics → SubscriberMetrics
count_validation_error m = record m { validation_errors = add64 m.validation_errors 1 }

-- The metrics and the peers, after a valid message.
unfoldable pub count_received : ℕ → String → SubscriberMetrics → SubscriberMetrics
count_received now peer m = record m {
  messages_received = add64 m.messages_received 1;
  last_receive_time = now;
  unique_peers = insert peer now m.unique_peers;
}

-- `GetMetrics`: the copy that a caller gets.
unfoldable pub get_metrics : SubscriberMetrics → SubscriberMetrics
get_metrics m = record m { unique_peers = for_range copy_entry m.unique_peers [] }

-- `none` is the zero time.
unfoldable pub get_last_receive_time : SubscriberMetrics → Option ℕ
get_last_receive_time m = if eqb m.last_receive_time 0 then none else some m.last_receive_time

unfoldable pub get_unique_peer_count : SubscriberMetrics → ℕ
get_unique_peer_count m = len m.unique_peers

-- if timestamp > cutoff, with cutoff = now - since, which may be negative
unfoldable pub add_recent : ℕ → ℕ → String → ℕ → List String → List String
add_recent now since peer timestamp recent_peers =
    if ltb now (timestamp + since) then recent_peers ++ peer ∷ [] else recent_peers

unfoldable pub get_recent_peers : ℕ → ℕ → SubscriberMetrics → List String
unfolding add_recent
get_recent_peers now since m = for_range (add_recent now since) m.unique_peers []

-- How the loop of `run` goes on.
pub data Next : Type 0 where
  stop continue : Next

module _ {W E : Type 0} (sub : Subscription W E) where
  -- What `receiveMessage` does with what `Next` returns.
  unfoldable pub receive :
      Result E (Option Message) → SubscriberMetrics → W → Option E × SubscriberMetrics
  unfolding validate_message count_validation_error count_received
  receive (err e) m w = (some e, m)
  receive (ok none) m w = (none, count_validation_error m)
  receive (ok (some msg)) m w = elim (validate_message (some msg)) [
    | some e ↦ (none, count_validation_error m)
    | none ↦ (none, count_received (sub.now w) (sub.peer_text msg.received_from) m)
  ]

  unfoldable pub receive_message : SubscriberMetrics → W → Option E × SubscriberMetrics × W
  unfolding receive
  receive_message m w =
      let (answer, w') = sub.next w in let (failure, m') = receive answer m w' in (failure, m', w')

  -- `ProcessMessageWithHandler`, on what `Next` returns.
  unfoldable pub handle :
      (Message → W → Option E × W)
      → Result E (Option Message)
      → SubscriberMetrics
      → W
      → Option (HandlerError E) × SubscriberMetrics × W
  unfolding validate_message count_validation_error count_received
  handle handler (err e) m w = (some (receive_failed e), m, w)
  handle handler (ok none) m w = (none, count_validation_error m, w)
  handle handler (ok (some msg)) m w = elim (validate_message (some msg)) [
    | some e ↦ (none, count_validation_error m, w)
    | none ↦
        let (failure, w') = handler msg w in
        (
          elim failure [ some e ↦ some (handler_failed e) | none ↦ none ],
          count_received (sub.now w) (sub.peer_text msg.received_from) m,
          w',
        )
  ]

  unfoldable pub process_message_with_handler :
      (Message → W → Option E × W)
      → SubscriberMetrics
      → W
      → Option (HandlerError E) × SubscriberMetrics × W
  unfolding handle
  process_message_with_handler handler m w =
      let (answer, w') = sub.next w in handle handler answer m w'

  -- After a failed receive: return if the context is done, else count and sleep.
  unfoldable pub settle : Option E → SubscriberMetrics → W → Next × SubscriberMetrics × W
  unfolding add64
  settle none m w = (continue, m, w)
  settle (some e) m w =
      if sub.is_done w
      then (stop, m, w)
      else (continue, record m { receive_errors = add64 m.receive_errors 1 }, sub.sleep w)

  -- The first `rounds` rounds of the loop of `run`.
  unfoldable pub run : ℕ → SubscriberMetrics → W → SubscriberMetrics × W
  unfolding receive_message settle
  run zero m w = (m, w)
  run (suc rounds) m w =
      let (failure, m', w') = receive_message m w in
      let (next, m'', w'') = settle failure m' w' in
      let rest = run rounds m'' w'' in
      if sub.is_done w then (m, w) else elim next [ stop ↦ (m'', w'') | continue ↦ rest ]
