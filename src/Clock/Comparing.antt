-- ===== src/Clock/Comparing.antt =====
-- How `Compare` of CRDT/crdt.go answers for swapped, for equal and for three clocks.
use gossip_pubsub.Base.{◌≡◌, refl, inl, inr, sym}
use gossip_pubsub.GoMap.{SameMap}
use gossip_pubsub.Clock.{VectorClock, Causality, happens_after, happens_before, unordered, compare}
use gossip_pubsub.Clock.Order.{LeClock, LeClock-trans, Causal, compare_iff}

abbrev pub opposite : Causality → Causality
opposite happens_after = happens_before
opposite happens_before = happens_after
opposite unordered = unordered

Causal-opposite : (a b : VectorClock) (c : Causality) → Causal a b c → Causal b a (opposite c)
Causal-opposite a b happens_after h = h
Causal-opposite a b happens_before h = h
Causal-opposite a b unordered (inl h) = inl (h.1, h.0)
Causal-opposite a b unordered (inr h) = inr (h.1, h.0)

-- Swapping the two clocks negates the answer.
pub compare-opposite : (a b : VectorClock) → compare b a ≡ opposite (compare a b)
compare-opposite a b =
    (compare_iff b a (opposite (compare a b))).1
      (Causal-opposite a b (compare a b) ((compare_iff a b (compare a b)).0 refl))

-- "Happens before" is transitive.
pub compare_trans :
    (a b c : VectorClock)
    → compare a b ≡ happens_before
    → compare b c ≡ happens_before
    → compare a c ≡ happens_before
compare_trans a b c p q =
    let (le1, nle1) = (compare_iff a b happens_before).0 p in
    let (le2, nle2) = (compare_iff b c happens_before).0 q in
    (compare_iff a c happens_before).1
      (LeClock-trans a b c le1 le2, λ back. nle2 (LeClock-trans c a b back le1))

Causal-cong :
    (a a' b b' : VectorClock) (c : Causality)
    → (LeClock a b → LeClock a' b')
    → (LeClock a' b' → LeClock a b)
    → (LeClock b a → LeClock b' a')
    → (LeClock b' a' → LeClock b a)
    → Causal a b c
    → Causal a' b' c
Causal-cong a a' b b' happens_after f f' g g' h = (g h.0, λ k. h.1 (f' k))
Causal-cong a a' b b' happens_before f f' g g' h = (f h.0, λ k. h.1 (g' k))
Causal-cong a a' b b' unordered f f' g g' (inl h) = inl (f h.0, g h.1)
Causal-cong a a' b b' unordered f f' g g' (inr h) = inr (λ k. h.0 (f' k), λ k. h.1 (g' k))

LeClock-cong : (a a' b b' : VectorClock) → SameMap a a' → SameMap b b' → LeClock a b → LeClock a' b'
LeClock-cong a a' b b' p q h k = rw (sym (p k), sym (q k)) (h k)

-- The answer depends on the clocks as maps only, not on the order of their entries.
pub compare_cong :
    (a a' b b' : VectorClock) → SameMap a a' → SameMap b b' → compare a b ≡ compare a' b'
compare_cong a a' b b' p q =
    let p' : SameMap a' a = λ k. sym (p k) in
    let q' : SameMap b' b = λ k. sym (q k) in
    sym (
      (compare_iff a' b' (compare a b)).1 (
        Causal-cong a a' b b' (compare a b) (LeClock-cong a a' b b' p q)
          (LeClock-cong a' a b' b p' q') (LeClock-cong b b' a a' q p) (LeClock-cong b' b a' a q' p')
          ((compare_iff a b (compare a b)).0 refl)))
