-- ===== src/Publisher/Examples.antt =====
-- Runs of the publisher against a topic that answers from a script, and the theorems there.
use gossip_pubsub.Base.{String, ◌≡◌, refl, Bool, true, false, Option, none, some, List, [], ◌∷◌}
use gossip_pubsub.Publisher.{
  Network, new_publisher, count_error, count_published, get_last_publish_time, Signal, done, tick,
  publish_custom_message, publish_batch, retry_loop, publish_with_retry,
}
use gossip_pubsub.Publisher.Batch.{Accounts, publish_batch-Accounts}
use gossip_pubsub.Publisher.Retry.{Outcome, publish_with_retry-Outcome}

-- The world is the list of the answers to come: `true` accepts. An empty list refuses.
abbrev answer : List Bool → Option String × List Bool
answer [] = (some "closed", [])
answer (true ∷ w) = (none, w)
answer (false ∷ w) = (some "busy", w)

abbrev scripted : Network (List Bool) String
scripted = record {
  publish = λ text w. answer w;
  now = λ w. 7;
  wait = λ d w. (none, w);
  decimal = λ n. "n";
  timestamp = λ w. "t";
}

custom_runs :
    (publish_custom_message scripted "abc" new_publisher (false ∷ [])
      ≡ (some "busy", count_error new_publisher, []))
    × (publish_custom_message scripted "abc" new_publisher (true ∷ [])
        ≡ (none, count_published 1 3 7 new_publisher, []))
unfolding publish_custom_message
custom_runs = (refl, refl)

retry_runs :
    publish_with_retry scripted "abc" 2 new_publisher (false ∷ true ∷ [])
    ≡ (none, count_published 1 3 7 new_publisher, [])
unfolding publish_with_retry retry_loop
retry_runs = refl

last_time_runs : get_last_publish_time (count_published 1 3 7 new_publisher) ≡ some 7
unfolding get_last_publish_time count_published
last_time_runs = refl

abbrev script : List Signal
script = tick ∷ tick ∷ done ∷ tick ∷ []

publish_batch-Accounts_example :
    Accounts scripted
      ("a" ∷ "bc" ∷ "d" ∷ [])
      new_publisher
      (true ∷ false ∷ true ∷ [])
      (publish_batch scripted ("a" ∷ "bc" ∷ "d" ∷ []) new_publisher (true ∷ false ∷ true ∷ []))
publish_batch-Accounts_example =
    publish_batch-Accounts scripted ("a" ∷ "bc" ∷ "d" ∷ []) new_publisher (true ∷ false ∷ true ∷ [])

publish_with_retry-Outcome_example :
    Outcome scripted "abc" 2 new_publisher 0
      (false ∷ true ∷ [])
      (publish_with_retry scripted "abc" 2 new_publisher (false ∷ true ∷ []))
publish_with_retry-Outcome_example =
    publish_with_retry-Outcome scripted "abc" 2 new_publisher (false ∷ true ∷ [])
