-- ===== src/Publisher/Retry.antt =====
-- `PublishWithRetry` of Publisher/Publisher.go: which attempt a call ends with, and what it counts.
use Prim.Native.String.{len as str_len}
use native.Mathlib.Nat.{mul_comm, pow-le-pow_right}
use native.Mathlib.Numerals.{unary_clauses}
use gossip_pubsub.Base.{
  ℕ, zero, suc, ◌+◌, ◌*◌, ◌^◌, ◌≤◌, ◌<◌, String, ◌≡◌, sym, subst, false, Option, none, some, ltb,
  lt→ltb, arith, inl, inr, Option-cases,
}
use gossip_pubsub.Publisher.{
  Network, PublisherMetrics, count_error, count_published, RetryError, cancelled, exhausted,
  backoff, retry_loop, publish_with_retry,
}

module _ {W E : Type 0} (net : Network W E) (message : String) where
  -- The topic refuses attempt `a` in the world `w`, the backoff passes, and so on until attempt `k`
  -- is due in the world `v`.
  pub data Fails : ℕ → W → ℕ → W → Type 0 where
    due : {a : ℕ} {w : W} → Fails a w a w
    refused :
        {a k : ℕ} {w v : W} {e : E}
        → (net.publish message w).0 ≡ some e
        → (net.wait (backoff a) (net.publish message w).1).0 ≡ none
        → Fails (a + 1) (net.wait (backoff a) (net.publish message w).1).1 k v
        → Fails a w k v

  abbrev pub after : W → W
  after w = (net.publish message w).1

  -- How a call with attempt `a` due in the world `w` ends: at an attempt `k` within the bound that
  -- is accepted, or whose backoff the context interrupts, or that is refused as the last.
  pub data Outcome (max : ℕ) (m : PublisherMetrics) (a : ℕ) (w : W)
      (r : Option (RetryError E) × PublisherMetrics × W) : Type 0 where
    succeeds :
        (k : ℕ) (v : W)
        → Fails a w k v
        → k ≤ max
        → (net.publish message v).0 ≡ none
        → r ≡ (none, count_published 1 (str_len message) (net.now (after v)) m, after v)
        → Outcome max m a w r
    interrupted :
        (k : ℕ) (v : W) (e c : E)
        → Fails a w k v
        → k < max
        → (net.publish message v).0 ≡ some e
        → (net.wait (backoff k) (after v)).0 ≡ some c
        → r ≡ (some (cancelled c), m, (net.wait (backoff k) (after v)).1)
        → Outcome max m a w r
    gives_up :
        (v : W) (e : E)
        → Fails a w max v
        → (net.publish message v).0 ≡ some e
        → r ≡ (some (exhausted max (some e)), count_error m, after v)
        → Outcome max m a w r

  Outcome-refused :
      (max : ℕ) (m : PublisherMetrics) (a : ℕ) (w : W)
      (r : Option (RetryError E) × PublisherMetrics × W) (e : E)
      → (net.publish message w).0 ≡ some e
      → (net.wait (backoff a) (after w)).0 ≡ none
      → Outcome max m (a + 1) (net.wait (backoff a) (after w)).1 r
      → Outcome max m a w r
  Outcome-refused max m a w r e p q (succeeds k v f l s t) = succeeds k v (refused p q f) l s t
  Outcome-refused max m a w r e p q (interrupted k v e' c f l s i t) =
      interrupted k v e' c (refused p q f) l s i t
  Outcome-refused max m a w r e p q (gives_up v e' f s t) = gives_up v e' (refused p q f) s t

  module _ (max : ℕ) (m : PublisherMetrics) (last : Option E) (a : ℕ) (w : W) where
    loop-accepted :
        (left : ℕ)
        → (net.publish message w).0 ≡ none
        → retry_loop net message max (suc left) a last m w
          ≡ (none, count_published 1 (str_len message) (net.now (after w)) m, after w)
    unfolding retry_loop
    loop-accepted left p = rw (p, retry_loop)

    module _ (e : E) (p : (net.publish message w).0 ≡ some e) where
      loop-again :
          (left : ℕ)
          → a < max
          → (net.wait (backoff a) (after w)).0 ≡ none
          → retry_loop net message max (suc left) a last m w
            ≡ retry_loop net message max left (a + 1) (some e) m (net.wait (backoff a) (after w)).1
      unfolding retry_loop
      loop-again left l q = rw (p, lt→ltb a max l, q, retry_loop)

      loop-interrupted :
          (left : ℕ) (c : E)
          → a < max
          → (net.wait (backoff a) (after w)).0 ≡ some c
          → retry_loop net message max (suc left) a last m w
            ≡ (some (cancelled c), m, (net.wait (backoff a) (after w)).1)
      unfolding retry_loop
      loop-interrupted left c l q = rw (p, lt→ltb a max l, q, retry_loop)

      loop-last :
          ltb a max ≡ false
          → retry_loop net message max 1 a last m w
            ≡ (some (exhausted max (some e)), count_error m, after w)
      unfolding retry_loop
      loop-last f = rw (p, f, retry_loop)

  retry_loop-Outcome :
      (max left a : ℕ) (last : Option E) (m : PublisherMetrics) (w : W)
      → suc left + a ≡ max + 1
      → Outcome max m a w (retry_loop net message max (suc left) a last m w)
  retry_loop-Outcome max zero a last m w h = elim (Option-cases (net.publish message w).0) [
    | inl p ↦ succeeds a w due (omega arith) p (loop-accepted max m last a w zero p)
    | inr (e, p) ↦
        let at_end : a ≡ max = omega arith in
        subst (λ k. Outcome k m a w (retry_loop net message k 1 a last m w)) at_end
          (gives_up w e due p (loop-last a m last a w e p (ground arith)))
  ]
  retry_loop-Outcome max (suc left) a last m w h = elim (Option-cases (net.publish message w).0) [
    | inl p ↦ succeeds a w due (omega arith) p (loop-accepted max m last a w (suc left) p)
    | inr (e, p) ↦
        let later = (net.wait (backoff a) (after w)).1 in
        elim (Option-cases (net.wait (backoff a) (after w)).0) [
          | inl q ↦ Outcome-refused max m a w _ e p q (
              subst (Outcome max m (a + 1) later)
                (sym (loop-again max m last a w e p (suc left) (omega arith) q))
                (retry_loop-Outcome max left (a + 1) (some e) m later (omega arith)))
          | inr (c, q) ↦
              interrupted a w e c due (omega arith) p q
                (loop-interrupted max m last a w e p (suc left) c (omega arith) q)
        ]
  ]

  -- Every call of `PublishWithRetry` ends at one attempt among its `maxRetries + 1`, after those
  -- before it were refused and their backoffs passed. If the topic accepts it, it counts one message
  -- and its bytes; if the context ends its backoff, the call returns that error and counts nothing;
  -- if it is the last and is refused, the call returns the topic's last error and counts one error.
  pub publish_with_retry-Outcome :
      (max : ℕ) (m : PublisherMetrics) (w : W)
      → Outcome max m 0 w (publish_with_retry net message max m w)
  unfolding publish_with_retry
  publish_with_retry-Outcome max m w =
      let attempts : suc max ≡ max + 1 = omega arith in
      subst (λ n. Outcome max m 0 w (retry_loop net message max n 0 none m w)) attempts
        (retry_loop-Outcome max max 0 none m w (omega arith))

-- The backoffs are exact, and positive as an int64, up to attempt 36.
backoff_doubles :
    (attempt : ℕ)
    → attempt < 36
    → (backoff (attempt + 1) ≡ 2 * backoff attempt) × (backoff (attempt + 1) < 2 ^ 63)
unfolding backoff
backoff_doubles attempt h =
    let small : 2 ^ attempt ≤ 2 ^ 35 =
      pow-le-pow_right {n = 2} (omega arith) {i = attempt} {j = 35} (omega arith) in
    let next : 2 ^ (attempt + 1) ≡ 2 * 2 ^ attempt = simp (unary_clauses, mul_comm) in
    (omega (arith, next, small), omega (arith, next, small))
