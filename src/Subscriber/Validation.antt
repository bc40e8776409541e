-- ===== src/Subscriber/Validation.antt =====
-- Which messages `validateMessage` of Subscriber/Subscriber.go lets through.
use gossip_pubsub.Base.{length, ◌≤◌, ◌<◌, ◌≡◌, ◌≢◌, ◌↔◌, Option, none, some, eq_iff, arith}
use gossip_pubsub.Subscriber.{Message, validate_message}

-- A message with 1 to 1048576 bytes and a sender.
abbrev pub IsAcceptable : Option Message → Type 0
IsAcceptable none = ⊥
IsAcceptable (some msg) =
    (0 < length msg.data_bytes) × (length msg.data_bytes ≤ 1048576) × (msg.received_from ≢ "")

-- `validateMessage` accepts a message exactly if it is there, is not empty and not above 1 MB, and
-- names its sender.
pub validate_message_iff : (msg : Option Message) → (validate_message msg ≡ none) ↔ IsAcceptable msg
unfolding validate_message
validate_message_iff none = (λ e. cc, λ h. absurd h)
validate_message_iff (some msg) = (
  λ e. (ground arith, ground arith, ground (arith, eq_iff msg.received_from "")),
  λ h. ground (arith, eq_iff msg.received_from ""),
)
