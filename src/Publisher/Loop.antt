-- ===== src/Publisher/Loop.antt =====
-- The publishing loop of Publisher/Publisher.go: what `run` counts.
use Prim.Native.String.{len as str_len}
use gossip_pubsub.Base.{
  ℕ, ◌+◌, ◌%◌, ◌<◌, ◌≡◌, refl, sym, ap, subst, Option, none, some, List, [], ◌∷◌, arith, inl, inr,
  Option-cases,
}
use gossip_pubsub.Base.Words.{u64_mod, add64}
use gossip_pubsub.Publisher.{
  Network, PublisherMetrics, new_publisher, count_error, count_published, Signal, done, tick,
  message_text, settle, publish_message, run_loop, run,
}

-- The ticks before the first `done`.
abbrev pub ticks : List Signal → ℕ
ticks [] = 0
ticks (done ∷ signals) = 0
ticks (tick ∷ signals) = 1 + ticks signals

-- What a round counts: it advances one of two counts, and the counter with the published ones.
abbrev Counted : ℕ → PublisherMetrics → ℕ → ℕ × PublisherMetrics → Type 0
Counted counter m n r =
    ((r.0 + m.messages_published) % u64_mod ≡ (counter + r.1.messages_published) % u64_mod)
    × ((r.1.messages_published + r.1.publish_errors) % u64_mod
        ≡ (m.messages_published + m.publish_errors + n) % u64_mod)

next_sent :
    (counter n : ℕ) (r : ℕ × PublisherMetrics) (m m' : PublisherMetrics)
    → m'.messages_published ≡ add64 m.messages_published 1
    → m'.publish_errors ≡ m.publish_errors
    → Counted (add64 counter 1) m' n r
    → Counted counter m (1 + n) r
unfolding add64
next_sent counter n r m m' p q (a, b) = (omega (arith, a, p), omega (arith, b, p, q))

next_failed :
    (counter n : ℕ) (r : ℕ × PublisherMetrics) (m : PublisherMetrics)
    → Counted counter (count_error m) n r
    → Counted counter m (1 + n) r
unfolding add64 count_error
next_failed counter n r m (a, b) = (omega (arith, a), omega (arith, b))

module _ {W E : Type 0} (net : Network W E) where
  sent_metrics : ℕ → PublisherMetrics → W → PublisherMetrics
  sent_metrics counter m w =
      count_published 1 (str_len (message_text net counter w))
        (net.now (net.publish (message_text net counter w) w).1) m

  publish_message-sent :
      (counter : ℕ) (m : PublisherMetrics) (w : W)
      → (net.publish (message_text net counter w) w).0 ≡ none
      → publish_message net counter m w
        ≡ (none, sent_metrics counter m w, (net.publish (message_text net counter w) w).1)
  unfolding publish_message sent_metrics
  publish_message-sent counter m w sent = rw (sent, publish_message)

  publish_message-failed :
      (counter : ℕ) (m : PublisherMetrics) (w : W) (e : E)
      → (net.publish (message_text net counter w) w).0 ≡ some e
      → publish_message net counter m w
        ≡ (some e, m, (net.publish (message_text net counter w) w).1)
  unfolding publish_message
  publish_message-failed counter m w e failed = rw (failed, publish_message)

  after_publish : List Signal → ℕ → Option E × PublisherMetrics × W → ℕ × PublisherMetrics
  after_publish signals counter (failure, m, w) =
      let (counter', m') = settle failure counter m in
      let r = run_loop net signals counter' m' w in (r.0, r.1)

  after_sent : List Signal → ℕ → PublisherMetrics → W → ℕ × PublisherMetrics
  after_sent signals counter m w =
      let r =
        run_loop net signals (add64 counter 1) (sent_metrics counter m w)
          (net.publish (message_text net counter w) w).1 in
      (r.0, r.1)

  after_failed : List Signal → ℕ → PublisherMetrics → W → ℕ × PublisherMetrics
  after_failed signals counter m w =
      let r =
        run_loop net signals counter (count_error m)
          (net.publish (message_text net counter w) w).1 in
      (r.0, r.1)

  run-sent :
      (signals : List Signal) (counter : ℕ) (m : PublisherMetrics) (w : W)
      → (net.publish (message_text net counter w) w).0 ≡ none
      → (
        (run_loop net (tick ∷ signals) counter m w).0,
        (run_loop net (tick ∷ signals) counter m w).1,
      )
        ≡ after_sent signals counter m w
  unfolding run_loop after_sent after_publish settle
  run-sent signals counter m w sent =
      ap (after_publish signals counter) (publish_message-sent counter m w sent)

  run-failed :
      (signals : List Signal) (counter : ℕ) (m : PublisherMetrics) (w : W) (e : E)
      → (net.publish (message_text net counter w) w).0 ≡ some e
      → (
        (run_loop net (tick ∷ signals) counter m w).0,
        (run_loop net (tick ∷ signals) counter m w).1,
      )
        ≡ after_failed signals counter m w
  unfolding run_loop after_failed after_publish settle
  run-failed signals counter m w e failed =
      ap (after_publish signals counter) (publish_message-failed counter m w e failed)

  run-Counted :
      (signals : List Signal) (counter : ℕ) (m : PublisherMetrics) (w : W)
      → Counted counter m
          (ticks signals)
          ((run_loop net signals counter m w).0, (run_loop net signals counter m w).1)
  unfolding run_loop after_sent after_failed sent_metrics count_published
  run-Counted [] counter m w = (omega arith, omega arith)
  run-Counted (done ∷ signals) counter m w = (omega arith, omega arith)
  run-Counted (tick ∷ signals) counter m w =
      let after = (net.publish (message_text net counter w) w).1 in
      elim (Option-cases (net.publish (message_text net counter w) w).0) [
        | inl sent ↦
            subst (Counted counter m (1 + ticks signals)) (sym (run-sent signals counter m w sent))
              (next_sent counter (ticks signals) (after_sent signals counter m w) m
                (sent_metrics counter m w) refl refl
                (run-Counted signals (add64 counter 1) (sent_metrics counter m w) after))
        | inr (e, failed) ↦
            subst (Counted counter m (1 + ticks signals))
              (sym (run-failed signals counter m w e failed))
              (next_failed counter (ticks signals) (after_failed signals counter m w) m
                (run-Counted signals counter (count_error m) after))
      ]

-- From a new publisher with a positive interval, `run` does not panic, and after any run: the counter
-- of the message texts is the number of messages published, so texts are numbered without gaps or
-- repeats, and each tick before the context is done counts as published or as an error (both modulo
-- 2^64).
pub run-Accounted :
    {W E : Type 0} (net : Network W E) (interval : ℕ) (signals : List Signal) (w : W)
    → 0 < interval
    → (counter : ℕ) × (m : PublisherMetrics) × (w' : W) × (run net interval signals new_publisher w
        ≡ some (counter, m, w'))
      × (counter % u64_mod ≡ m.messages_published % u64_mod)
      × ((m.messages_published + m.publish_errors) % u64_mod ≡ ticks signals % u64_mod)
unfolding new_publisher run
run-Accounted net interval signals w positive =
    let (a, b) = run-Counted net signals 0 new_publisher w in
    let r = run_loop net signals 0 new_publisher w in
    (r.0, r.1, r.2, ground arith, omega (arith, a), omega (arith, b))

-- With an interval that is not positive `run` panics before its first round.
run_panics :
    {W E : Type 0} (net : Network W E) (signals : List Signal) (m : PublisherMetrics) (w : W)
    → run net 0 signals m w ≡ none
unfolding run
run_panics net signals m w = refl
