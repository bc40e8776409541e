-- ===== src/Publisher/Batch.antt =====
-- `PublishBatch` of Publisher/Publisher.go: every message is tried once, in order, and counted.
use Prim.Native.String.{len as str_len}
use mathlib.Core.List.{append_assoc, append-nil}
use gossip_pubsub.Base.{
  length, ℕ, ◌+◌, ◌%◌, String, ◌≡◌, refl, sym, subst, ◌∙◌, Option, none, some, List, [], ◌∷◌, ◌++◌,
  ltb, arith, inl, inr, Option-cases, if◌then◌else◌,
}
use gossip_pubsub.Base.Words.{u64_mod, add64}
use gossip_pubsub.Publisher.{
  Network, PublisherMetrics, count_error, count_published, Failure, BatchError, BatchState,
  batch_message, batch_loop, publish_batch,
}

module _ {W E : Type 0} (net : Network W E) where
  -- The world after the topic was given each message once.
  pub after_all : List String → W → W
  after_all [] w = w
  after_all (msg ∷ messages) w = after_all messages (net.publish msg w).1

  -- What the topic answers to the messages given in order: the accepted ones, and the refused
  -- ones with their places.
  pub accepted : List String → W → List String
  accepted [] w = []
  accepted (msg ∷ messages) w =
      let later = accepted messages (net.publish msg w).1 in
      elim (net.publish msg w).0 [ none ↦ msg ∷ later | some e ↦ later ]

  pub refused : ℕ → List String → W → List (Failure E)
  refused i [] w = []
  refused i (msg ∷ messages) w =
      let later = refused (i + 1) messages (net.publish msg w).1 in
      elim (net.publish msg w).0 [
        | none ↦ later
        | some e ↦ record { index = i; message = msg; cause = e } ∷ later
      ]

  abbrev pub total_bytes : List String → ℕ
  total_bytes [] = 0
  total_bytes (msg ∷ messages) = str_len msg + total_bytes messages

  -- What the loop over the rest of the messages makes of a state.
  record IsRun (i : ℕ) (messages : List String) (s t : BatchState W E) : Type 0 where
    world : t.world ≡ after_all messages s.world
    errors : t.errors ≡ s.errors ++ refused i messages s.world
    success_count : t.success_count ≡ s.success_count + length (accepted messages s.world)
    bytes : t.total_bytes ≡ s.total_bytes + total_bytes (accepted messages s.world)
    published : t.metrics.messages_published ≡ s.metrics.messages_published
    bytes_published : t.metrics.bytes_published ≡ s.metrics.bytes_published
    last_publish_time : t.metrics.last_publish_time ≡ s.metrics.last_publish_time
    publish_errors :
        t.metrics.publish_errors % u64_mod
        ≡ (s.metrics.publish_errors + length (refused i messages s.world)) % u64_mod

  module _ (i : ℕ) (msg : String) (messages : List String) (s : BatchState W E) where
    world_after : W
    world_after = (net.publish msg s.world).1

    sent_state : BatchState W E
    sent_state = record s {
      success_count = s.success_count + 1;
      total_bytes = s.total_bytes + str_len msg;
      world = world_after;
    }

    failed_state : E → BatchState W E
    failed_state e = record s {
      errors = s.errors ++ record { index = i; message = msg; cause = e } ∷ [];
      metrics = count_error s.metrics;
      world = world_after;
    }

    batch_message-sent : (net.publish msg s.world).0 ≡ none → batch_message net i msg s ≡ sent_state
    unfolding batch_message sent_state world_after
    batch_message-sent p = rw (p, batch_message)

    batch_message-failed :
        (e : E) → (net.publish msg s.world).0 ≡ some e → batch_message net i msg s ≡ failed_state e
    unfolding batch_message failed_state world_after
    batch_message-failed e p = rw (p, batch_message)

    sent-IsRun :
        (t : BatchState W E)
        → (net.publish msg s.world).0 ≡ none
        → IsRun (i + 1) messages sent_state t
        → IsRun i (msg ∷ messages) s t
    unfolding accepted refused after_all sent_state world_after
    sent-IsRun t p run = record {
      world = run.world;
      errors = rw (p, refused) run.errors;
      success_count = rw (p, accepted) (omega (arith, run.success_count));
      bytes = rw (p, accepted) (omega (arith, run.bytes));
      published = run.published;
      bytes_published = run.bytes_published;
      last_publish_time = run.last_publish_time;
      publish_errors = rw (p, refused) run.publish_errors;
    }

    failed-IsRun :
        (t : BatchState W E) (e : E)
        → (net.publish msg s.world).0 ≡ some e
        → IsRun (i + 1) messages (failed_state e) t
        → IsRun i (msg ∷ messages) s t
    unfolding accepted refused after_all failed_state world_after count_error add64
    failed-IsRun t e p run = record {
      world = run.world;
      errors =
          rw (p, refused)
            (run.errors
              ∙ append_assoc s.errors (record { index = i; message = msg; cause = e } ∷ [])
                  (refused (i + 1) messages world_after));
      success_count = rw (p, accepted) run.success_count;
      bytes = rw (p, accepted) run.bytes;
      published = run.published;
      bytes_published = run.bytes_published;
      last_publish_time = run.last_publish_time;
      publish_errors = rw (p, refused) (omega (arith, run.publish_errors));
    }

  batch_loop-IsRun :
      (i : ℕ) (messages : List String) (s : BatchState W E)
      → IsRun i messages s (batch_loop net i messages s)
  unfolding batch_loop after_all accepted refused
  batch_loop-IsRun i [] s = record {
    world = refl;
    errors = sym (append-nil s.errors);
    success_count = omega arith;
    bytes = omega arith;
    published = refl;
    bytes_published = refl;
    last_publish_time = refl;
    publish_errors = omega arith;
  }
  batch_loop-IsRun i (msg ∷ messages) s = elim (Option-cases (net.publish msg s.world).0) [
    | inl p ↦
        subst (λ x. IsRun i (msg ∷ messages) s (batch_loop net (i + 1) messages x))
          (sym (batch_message-sent i msg messages s p))
          (sent-IsRun i msg messages s _ p
            (batch_loop-IsRun (i + 1) messages (sent_state i msg messages s)))
    | inr (e, p) ↦
        subst (λ x. IsRun i (msg ∷ messages) s (batch_loop net (i + 1) messages x))
          (sym (batch_message-failed i msg messages s e p))
          (failed-IsRun i msg messages s _ e p
            (batch_loop-IsRun (i + 1) messages (failed_state i msg messages s e)))
  ]

  accepted_or_refused :
      (i : ℕ) (messages : List String) (w : W)
      → length (accepted messages w) + length (refused i messages w) ≡ length messages
  unfolding accepted refused
  accepted_or_refused i [] w = omega arith
  accepted_or_refused i (msg ∷ messages) w =
      let rest = accepted_or_refused (i + 1) messages (net.publish msg w).1 in
      elim (Option-cases (net.publish msg w).0) [
        | inl p ↦ rw (p, accepted, refused) (omega (arith, rest))
        | inr (e, p) ↦ rw (p, accepted, refused) (omega (arith, rest))
      ]

  -- The bookkeeping of a batch.
  pub record Accounts (messages : List String) (m : PublisherMetrics) (w : W)
      (r : Option (BatchError E) × PublisherMetrics × W) : Type 0 where
    pub world : r.2 ≡ after_all messages w
    pub every : length (accepted messages w) + length (refused 0 messages w) ≡ length messages
    pub published :
        r.1.messages_published % u64_mod
        ≡ (m.messages_published + length (accepted messages w)) % u64_mod
    pub bytes :
        r.1.bytes_published % u64_mod
        ≡ (m.bytes_published + total_bytes (accepted messages w)) % u64_mod
    pub publish_errors :
        r.1.publish_errors % u64_mod ≡ (m.publish_errors + length (refused 0 messages w)) % u64_mod
    pub last_publish_time : r.1.last_publish_time ≡ (
        if ltb 0 (length (accepted messages w))
        then net.now (after_all messages w)
        else m.last_publish_time)
    pub outcome : r.0 ≡ (
        if ltb 0 (length (refused 0 messages w))
        then some (record {
          succeeded = length (accepted messages w);
          total = length messages;
          failures = refused 0 messages w;
        })
        else none)

  abbrev start : PublisherMetrics → W → BatchState W E
  start m w = record { errors = []; success_count = 0; total_bytes = 0; metrics = m; world = w }

  no_bytes : (l : List String) → length l ≡ 0 → total_bytes l ≡ 0
  no_bytes [] h = refl
  no_bytes (msg ∷ l) h = ground arith

  -- The end of `PublishBatch`, after its loop.
  conclude : List String → BatchState W E → Option (BatchError E) × PublisherMetrics × W
  conclude messages s = (
    if ltb 0 (length s.errors)
        then some
            (record { succeeded = s.success_count; total = length messages; failures = s.errors })
        else none,
    if ltb 0 s.success_count
        then count_published s.success_count s.total_bytes (net.now s.world) s.metrics
        else s.metrics,
    s.world,
  )

  conclude-Accounts :
      (messages : List String) (m : PublisherMetrics) (w : W) (s : BatchState W E)
      → IsRun 0 messages (start m w) s
      → Accounts messages m w (conclude messages s)
  unfolding conclude count_published add64
  conclude-Accounts messages m w s run = record {
    world = run.world;
    every = accepted_or_refused 0 messages w;
    published = ground (arith, run.published, run.success_count);
    bytes =
        ground (
          arith,
          run.bytes_published,
          run.bytes,
          run.success_count,
          no_bytes (accepted messages w),
        );
    publish_errors = ground (arith, run.publish_errors);
    last_publish_time = ground (arith, run.last_publish_time, run.success_count, run.world);
    outcome = ground (arith, run.errors, run.success_count);
  }

  -- `PublishBatch` gives every message to the topic once, in order, failures or not. Accepted
  -- messages and their bytes are added to the published totals and refused ones to the errors
  -- (modulo 2^64); the time of the last publish changes only if one was accepted. The call returns
  -- an error exactly if one was refused, and the error lists the refused messages with their places.
  pub publish_batch-Accounts :
      (messages : List String) (m : PublisherMetrics) (w : W)
      → Accounts messages m w (publish_batch net messages m w)
  unfolding publish_batch conclude
  publish_batch-Accounts messages m w =
      conclude-Accounts messages m w (batch_loop net 0 messages (start m w))
        (batch_loop-IsRun 0 messages (start m w))
