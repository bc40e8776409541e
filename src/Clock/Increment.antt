-- ===== src/Clock/Increment.antt =====
-- `Increment` and `Prune` of CRDT/crdt.go against the order of clocks.
use gossip_pubsub.Base.{
  ℕ, ◌+◌, ◌<◌, String, ◌≡◌, Option, none, some, ◌==◌, eq_iff, eq_refl, Option-cases, inl, inr,
  if◌then◌else◌, arith,
}
use gossip_pubsub.Base.Words.{u64_mod, add64, add64_exact}
use gossip_pubsub.GoMap.{lookup, IsMap}
use gossip_pubsub.GoMap.Laws.{lookup-insert, insert-IsMap}
use gossip_pubsub.Clock.{VectorClock, happens_after, compare, increment}
use gossip_pubsub.Clock.Order.{LeClock, LeClock-trans, compare_iff}

-- The counter after an increment, with uint64's wrap-around.
abbrev pub next_ts : Option ℕ → ℕ
next_ts none = 1
next_ts (some x) = add64 x 1

-- The counter of the node can still grow.
abbrev pub HasRoom : String → VectorClock → Type 0
HasRoom n c = (x : ℕ) → lookup n c ≡ some x → x + 1 < u64_mod

pub lookup-increment :
    (n k : String) (c : VectorClock)
    → lookup k (increment n c) ≡ (if n == k then some (next_ts (lookup n c)) else lookup k c)
unfolding increment
lookup-increment n k c =
    ground (arith, lookup-insert n k 1 c, lookup-insert n k (next_ts (lookup n c)) c)

pub increment-IsMap : (n : String) (c : VectorClock) → IsMap c → IsMap (increment n c)
unfolding increment
increment-IsMap n c h =
    ground (arith, insert-IsMap n 1 c h, insert-IsMap n (next_ts (lookup n c)) c h)

module _ (n : String) (c : VectorClock) (room : HasRoom n c) where
  pub le-increment : LeClock c (increment n c)
  le-increment k = elim (Option-cases (lookup n c)) [
    | inl e ↦ ground (arith, lookup-increment n k c, eq_iff n k)
    | inr (x, e) ↦
        ground (arith, lookup-increment n k c, eq_iff n k, room x e, add64_exact x 1 (room x e))
  ]

  not-increment-le : (d : VectorClock) → LeClock d c → ¬ LeClock (increment n c) d
  not-increment-le d below le = elim (Option-cases (lookup n c)) [
    | inl e ↦ ground (arith, lookup-increment n n c, eq_refl n, le n, below n)
    | inr (x, e) ↦ ground (
      arith,
      lookup-increment n n c,
      eq_refl n,
      le n,
      below n,
      room x e,
      add64_exact x 1 (room x e),
    )
  ]

  -- Below the overflow of the node's counter, an incremented clock comes after every clock that
  -- lies below the old one.
  pub increment-happens_after :
      (d : VectorClock) → LeClock d c → compare (increment n c) d ≡ happens_after
  increment-happens_after d below =
      (compare_iff (increment n c) d happens_after).1
        (LeClock-trans d c (increment n c) below le-increment, not-increment-le d below)
