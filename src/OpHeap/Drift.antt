-- ===== src/OpHeap/Drift.antt =====
-- CRDT/Heap.go: a log whose counter of bytes is too large, as when operations that it holds became
-- smaller after they were appended.
use gossip_pubsub.Base.{
  ℕ, ◌+◌, ◌-◌, ◌≤◌, ◌<◌, ◌≡◌, refl, ap, List, [], ◌∷◌, ◌++◌, ltb, arith, inl, inr, Bool-cases,
}
use gossip_pubsub.OpHeap.{Op, approx_size, OpHeap, Eviction, evict, append}
use gossip_pubsub.OpHeap.Bounded.{
  approx_size-lower, evict-IsEviction, total_size, total_size-append, total_size-one,
}

-- The counter is `d` above the size of what is held.
unfoldable pub Drifted : ℕ → OpHeap → Type 0
Drifted d h = h.bytes ≡ total_size h.ops + d

-- The log of the same operations with an exact counter, and a bound that is smaller by `d`.
unfoldable pub tightened : ℕ → OpHeap → OpHeap
tightened d h = record { ops = h.ops; bytes = total_size h.ops; cap_bytes = h.cap_bytes - d }

-- The result of an eviction with its counter `d` higher.
raised : ℕ → Eviction → Eviction
raised d r = record { ops = r.ops; bytes = r.bytes + d; evicted = r.evicted }

over_bound : (d cap bytes : ℕ) → 0 < bytes → ltb cap (bytes + d) ≡ ltb (cap - d) bytes
over_bound d cap bytes some = ground arith

evict_drifted :
    (d cap : ℕ) (ops : List Op) (bytes : ℕ) (done : List Op)
    → bytes ≡ total_size ops
    → evict cap ops (bytes + d) done ≡ raised d (evict (cap - d) ops bytes done)
unfolding evict total_size raised
evict_drifted d cap [] bytes done h = refl
evict_drifted d cap (old ∷ ops) bytes done h =
    let exact : bytes - approx_size old ≡ total_size ops = omega arith in
    let drifted : bytes + d - approx_size old ≡ bytes - approx_size old + d = omega arith in
    elim (Bool-cases (ltb (cap - d) bytes)) [
      | inl over ↦
          rw (over_bound d cap bytes (omega (arith, approx_size-lower old)), over, drifted)
            (evict_drifted d cap ops (bytes - approx_size old) (done ++ old ∷ []) exact)
      | inr fits ↦ rw (over_bound d cap bytes (omega (arith, approx_size-lower old)), fits) refl
    ]

module _ (d : ℕ) (op : Op) (h : OpHeap) (drifted : Drifted d h) where
  -- Where the counter of bytes is `d` too large, an append evicts and keeps what it would with an
  -- exact counter and a bound that is smaller by `d` (0 at least). The counter is `d` too large
  -- again, and what is held fits the smaller bound.
  pub append-Drifted :
      ((append op h).1 ≡ (append op (tightened d h)).1)
      × (tightened d (append op h).0 ≡ (append op (tightened d h)).0)
      × Drifted d (append op h).0
      × (total_size (append op h).0.ops ≤ h.cap_bytes - d)
  unfolding append tightened Drifted raised
  append-Drifted =
      let all = h.ops ++ op ∷ [] in
      let size = total_size h.ops + approx_size op in
      let exact : size ≡ total_size all =
        omega (arith, total_size-append h.ops (op ∷ []), total_size-one op) in
      let tight = evict-IsEviction (h.cap_bytes - d) all size [] exact in
      let sum : h.bytes + approx_size op ≡ size + d = omega (arith, drifted) in
      let same : evict h.cap_bytes all (h.bytes + approx_size op) []
          ≡ raised d (evict (h.cap_bytes - d) all size []) =
        rw sum (evict_drifted d h.cap_bytes all size [] exact) in
      rw same (
        refl,
        rw tight.counted refl,
        ap (λ n. n + d) tight.counted,
        omega (arith, tight.counted, tight.bounded),
      )
