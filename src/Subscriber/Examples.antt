-- ===== src/Subscriber/Examples.antt =====
-- Runs of the subscriber on a scripted subscription, and the theorems there.
use gossip_pubsub.Base.{
  String, ◌≡◌, refl, Bool, true, false, Option, none, some, List, [], ◌∷◌, Result, ok, err,
}
use gossip_pubsub.GoMap.{insert, for_range}
use gossip_pubsub.Subscriber.{
  Message, Subscription, SubscriberMetrics, new_subscriber, count_received, count_validation_error,
  validate_message, nil_message, empty_message, no_sender, receive, receive_message, settle, run,
  process_message_with_handler, handle, handler_failed, get_recent_peers, add_recent,
  get_unique_peer_count, get_last_receive_time,
}
use gossip_pubsub.Subscriber.Received.{events, Accounts, run-Accounts, failed, invalid, valid}

-- The world is the list of what `Next` returns; the context is done when it is empty.
abbrev World : Type 0
World = List (Result String (Option Message))

abbrev next_answer : World → Result String (Option Message) × World
next_answer [] = (err "context canceled", [])
next_answer (answer ∷ w) = (answer, w)

abbrev is_empty : World → Bool
is_empty [] = true
is_empty (answer ∷ w) = false

abbrev scripted : Subscription World String
scripted = record {
  next = next_answer;
  now = λ w. 7;
  is_done = is_empty;
  sleep = λ w. w;
  peer_text = λ p. p;
}

abbrev hello : Message
hello = record { data_bytes = 104 ∷ 105 ∷ []; received_from = "a"; seqno = [] }

abbrev anonymous : Message
anonymous = record { data_bytes = 104 ∷ []; received_from = ""; seqno = [] }

validation_runs :
    (validate_message none ≡ some nil_message)
    × (validate_message (some (record { data_bytes = []; received_from = "a"; seqno = [] }))
        ≡ some empty_message)
    × (validate_message (some anonymous) ≡ some no_sender)
    × (validate_message (some hello) ≡ none)
unfolding validate_message
validation_runs = (refl, refl, refl, refl)

abbrev script : World
script =
    ok (some hello)
    ∷ ok none
    ∷ err "reset"
    ∷ ok (some anonymous)
    ∷ ok (some hello)
    ∷ err "context canceled"
    ∷ []

abbrev seen : SubscriberMetrics
seen = (run scripted 9 new_subscriber script).0

run_runs : seen ≡ record {
  messages_received = 2;
  receive_errors = 1;
  validation_errors = 2;
  last_receive_time = 7;
  unique_peers = ("a", 7) ∷ [];
}
unfolding run receive_message receive settle validate_message count_received count_validation_error
    new_subscriber insert
run_runs = refl

events_run : events scripted 9 script ≡ valid hello ∷ invalid ∷ failed ∷ invalid ∷ valid hello ∷ []
unfolding events validate_message
events_run = refl

handler_runs :
    (process_message_with_handler scripted (λ msg w. (some "full", w)) new_subscriber script).0
    ≡ some (handler_failed "full")
unfolding process_message_with_handler handle validate_message
handler_runs = refl

reads_run :
    (get_unique_peer_count (count_received 7 "a" new_subscriber) ≡ 1)
    × (get_last_receive_time new_subscriber ≡ none)
unfolding get_unique_peer_count count_received new_subscriber get_last_receive_time insert
reads_run = (refl, refl)

run-Accounts_example : Accounts scripted (events scripted 9 script) new_subscriber seen
run-Accounts_example = run-Accounts scripted 9 new_subscriber script

abbrev two_peers : SubscriberMetrics
two_peers = record {
  messages_received = 2;
  receive_errors = 0;
  validation_errors = 0;
  last_receive_time = 90;
  unique_peers = ("a", 50) ∷ ("b", 90) ∷ [];
}

recent_runs : get_recent_peers 100 30 two_peers ≡ "b" ∷ []
unfolding get_recent_peers add_recent for_range
recent_runs = refl
