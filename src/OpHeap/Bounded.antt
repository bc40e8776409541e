-- ===== src/OpHeap/Bounded.antt =====
-- The bound of the operation log, and what an append evicts.
use Prim.Native.String.{len as str_len}
use gossip_pubsub.Base.{
  length, ℕ, ◌+◌, ◌-◌, ◌*◌, ◌≤◌, ◌<◌, ◌≡◌, refl, ◌∙◌, ap, List, [], ◌∷◌, ◌++◌, ltb, arith, ◌⊎◌, inl,
  inr, Bool-cases,
}
use mathlib.Core.List.{append_assoc}
use gossip_pubsub.GoMap.{for_range}
use gossip_pubsub.Clock.{VectorClock}
use gossip_pubsub.OpHeap.{
  Op, add_entry_size, approx_size, OpHeap, new_op_heap, Eviction, evict, append,
}

unfoldable pub total_size : List Op → ℕ
total_size [] = 0
total_size (o ∷ l) = approx_size o + total_size l

pub total_size-append : (a b : List Op) → total_size (a ++ b) ≡ total_size a + total_size b
unfolding total_size
total_size-append [] b = omega arith
total_size-append (o ∷ a) b = omega (arith, total_size-append a b)

pub total_size-one : (op : Op) → total_size (op ∷ []) ≡ approx_size op
unfolding total_size
total_size-one op = omega arith

-- The counter of bytes is the size of what is held, and within the bound unless nothing is held.
pub record IsValid (h : OpHeap) : Type 0 where
  pub counted : h.bytes ≡ total_size h.ops
  pub bounded : h.bytes ≤ h.cap_bytes

-- `done` operations were evicted before this point. What is left starts later in the log, fits the
-- bound, and the last eviction was needed: with its operation the log was over the bound.
pub record IsEviction (cap : ℕ) (done all : List Op) (r : Eviction) : Type 0 where
  pub order : r.evicted ++ r.ops ≡ done ++ all
  pub counted : r.bytes ≡ total_size r.ops
  pub bounded : r.bytes ≤ cap
  pub needed :
      ((r.evicted ≡ done) × (r.ops ≡ all))
      ⊎ ((before : List Op) × (last : Op) × (r.evicted ≡ before ++ last ∷ [])
          × (cap < total_size (last ∷ r.ops)))

pub evict-IsEviction :
    (cap : ℕ) (ops : List Op) (bytes : ℕ) (done : List Op)
    → bytes ≡ total_size ops
    → IsEviction cap done ops (evict cap ops bytes done)
unfolding evict total_size
evict-IsEviction cap [] bytes done h = record {
  order = refl;
  counted = h;
  bounded = omega arith;
  needed = inl (refl, refl);
}
evict-IsEviction cap (old ∷ ops) bytes done h = elim (Bool-cases (ltb cap bytes)) [
  | inl over ↦ rw over (
      next (evict-IsEviction cap ops (bytes - approx_size old) (done ++ old ∷ []) (omega arith))
        (ground arith))
  | inr fits ↦
      rw fits
        (record { order = refl; counted = h; bounded = ground arith; needed = inl (refl, refl) })
]
  where
    next :
        {r : Eviction}
        → IsEviction cap (done ++ old ∷ []) ops r
        → cap < bytes
        → IsEviction cap done (old ∷ ops) r
    next {r} ih over = record {
      order = ih.order ∙ append_assoc done (old ∷ []) ops;
      counted = ih.counted;
      bounded = ih.bounded;
      needed = elim ih.needed [
        | inl (e, k) ↦ inr (done, old, e, rw k (omega arith))
        | inr w ↦ inr w
      ];
    }

module _ (cap : ℕ) (op : Op) (big : cap < approx_size op) where
  evict_oversized :
      (l : List Op) (bytes : ℕ) (done : List Op)
      → bytes ≡ total_size (l ++ op ∷ [])
      → evict cap (l ++ op ∷ []) bytes done
        ≡ record { ops = []; bytes = 0; evicted = done ++ (l ++ op ∷ []) }
  unfolding evict total_size
  evict_oversized [] bytes done h =
      let empty : bytes - approx_size op ≡ 0 = omega arith in ground arith
  evict_oversized (o ∷ l) bytes done h = ground (
    arith,
    total_size-append l (op ∷ []),
    evict_oversized l (bytes - approx_size o) (done ++ o ∷ []),
    append_assoc done (o ∷ []) (l ++ op ∷ []),
  )

pub new_op_heap-IsValid : (cap : ℕ) → IsValid (new_op_heap cap)
unfolding new_op_heap total_size
new_op_heap-IsValid cap = record { counted = refl; bounded = omega arith }

module _ (op : Op) (h : OpHeap) (v : IsValid h) where
  append-Eviction :
      IsEviction h.cap_bytes []
        (h.ops ++ op ∷ [])
        (evict h.cap_bytes (h.ops ++ op ∷ []) (h.bytes + approx_size op) [])
  append-Eviction =
      evict-IsEviction h.cap_bytes (h.ops ++ op ∷ []) (h.bytes + approx_size op) []
        (omega (arith, total_size-append h.ops (op ∷ []), v.counted, total_size-one op))

  -- An append keeps the log within its bound and its counter exact.
  pub append-IsValid : IsValid (append op h).0
  unfolding append
  append-IsValid = record { counted = append-Eviction.counted; bounded = append-Eviction.bounded }

  -- In a log whose counter of bytes is the size of what it holds, within the bound: nothing is lost or
  -- reordered, the evicted operations followed by those that are held are the log followed by the new
  -- operation. An eviction takes no more than needed: before the last one, the log was over its
  -- bound.
  pub append_evicts :
      ((append op h).1 ++ (append op h).0.ops ≡ h.ops ++ op ∷ [])
      × (((append op h).1 ≡ [])
          ⊎ ((before : List Op) × (last : Op) × ((append op h).1 ≡ before ++ last ∷ [])
              × (h.cap_bytes < total_size (last ∷ (append op h).0.ops))))
  unfolding append
  append_evicts =
      (append-Eviction.order, elim append-Eviction.needed [ inl e ↦ inl e.0 | inr w ↦ inr w ])

  -- An operation that alone exceeds the bound empties the log, itself included.
  append_oversized :
      h.cap_bytes < approx_size op
      → ((append op h).0.ops ≡ []) × ((append op h).1 ≡ h.ops ++ op ∷ [])
  unfolding append
  append_oversized big =
      let emptied =
        evict_oversized h.cap_bytes op big h.ops (h.bytes + approx_size op) []
          (omega (arith, total_size-append h.ops (op ∷ []), v.counted, total_size-one op)) in
      (ap (λ (r : Eviction). r.ops) emptied, ap (λ (r : Eviction). r.evicted) emptied)

entry_sizes : (c : VectorClock) (n : ℕ) → n ≤ for_range add_entry_size c n
unfolding for_range add_entry_size
entry_sizes [] n = omega arith
entry_sizes ((k, v) ∷ c) n = omega (arith, entry_sizes c (n + (16 + str_len k + 8 + 8)))

pub approx_size-lower : (o : Op) → 144 ≤ approx_size o
unfolding approx_size
approx_size-lower o = omega (
  arith,
  entry_sizes o.ts (
      8
      + 8
      + 1
      + 7
      + 8
      + 8
      + 8
      + 8
      + 24
      + ((16 + str_len o.key) + (16 + str_len o.node_id) + (16 + str_len o.element))
      + (8 + 8)),
)

pub total_size-lower : (l : List Op) → 144 * length l ≤ total_size l
unfolding total_size
total_size-lower [] = omega arith
total_size-lower (o ∷ l) = omega (arith, total_size-lower l, approx_size-lower o)

-- The log never holds more than one operation for each 144 bytes of its bound.
length-append-le :
    (op : Op) (h : OpHeap)
    → IsValid h
    → 144 * length (append op h).0.ops ≤ (append op h).0.cap_bytes
length-append-le op h v =
    let w = append-IsValid op h v in
    omega (arith, total_size-lower (append op h).0.ops, w.counted, w.bounded)

pub cap-append : (op : Op) (h : OpHeap) → (append op h).0.cap_bytes ≡ h.cap_bytes
unfolding append
cap-append op h = refl
