-- ===== src/Subscriber/Handler.antt =====
-- `ProcessMessageWithHandler` of Subscriber/Subscriber.go against `receiveMessage`.
use gossip_pubsub.Base.{◌≡◌, refl, Option, none, some, Result, ok, err, Option-cases, inl, inr}
use gossip_pubsub.Subscriber.{
  Message, Subscription, SubscriberMetrics, validate_message, receive, receive_message, handle,
  process_message_with_handler, HandlerError, receive_failed, handler_failed,
}

module _ {W E : Type 0} (sub : Subscription W E) (handler : Message → W → Option E × W) where
  -- The error that a call returns, from what `Next` gave it and the handler answers: the handler is
  -- asked about valid messages only.
  abbrev pub reported : Result E (Option Message) → W → Option (HandlerError E)
  reported (err e) w = some (receive_failed e)
  reported (ok none) w = none
  reported (ok (some msg)) w = elim (validate_message (some msg)) [
    | some e ↦ none
    | none ↦ elim (handler msg w).0 [ some e ↦ some (handler_failed e) | none ↦ none ]
  ]

  handle-receive :
      (answer : Result E (Option Message)) (m : SubscriberMetrics) (w : W)
      → ((handle sub handler answer m w).1 ≡ (receive sub answer m w).1)
        × ((handle sub handler answer m w).0 ≡ reported answer w)
  unfolding handle receive
  handle-receive (err e) m w = (refl, refl)
  handle-receive (ok none) m w = (refl, refl)
  handle-receive (ok (some msg)) m w = elim (Option-cases (validate_message (some msg))) [
    | inl p ↦ rw (p, handle, receive, reported) (refl, refl)
    | inr (e, p) ↦ rw (p, handle, receive, reported) (refl, refl)
  ]

  -- Whatever the handler does, `ProcessMessageWithHandler` counts what `receiveMessage` counts. It
  -- returns an error exactly if `Next` does or the handler refuses a valid message.
  process_message_with_handler-receive_message :
      (m : SubscriberMetrics) (w : W)
      → ((process_message_with_handler sub handler m w).1 ≡ (receive_message sub m w).1)
        × ((process_message_with_handler sub handler m w).0
            ≡ reported (sub.next w).0 (sub.next w).1)
  unfolding process_message_with_handler receive_message
  process_message_with_handler-receive_message m w = handle-receive (sub.next w).0 m (sub.next w).1
