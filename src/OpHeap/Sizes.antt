-- ===== src/OpHeap/Sizes.antt =====
-- CRDT/Heap.go: an operation with a smaller clock is not larger.
use gossip_pubsub.Base.{
  ℕ, ◌+◌, ◌≤◌, String, ◌==◌, Bool, true, false, none, some, Bool-cases, [], ◌∷◌, inl, inr, arith,
}
use Prim.Native.String.{len as str_len}
use gossip_pubsub.GoMap.{GoMap, lookup, delete, for_range, len}
use gossip_pubsub.GoMap.Range.{for_range_inv}
use gossip_pubsub.Clock.{VectorClock, prune_node, prune}
use gossip_pubsub.OpHeap.{Op, add_entry_size, approx_size}

-- The size of a clock is at most that of another.
pub record Shrinks (c d : VectorClock) : Type 0 where
  pub entries : (n : ℕ) → for_range add_entry_size c n ≤ for_range add_entry_size d n
  pub count : len c ≤ len d

pub Shrinks-refl : (c : VectorClock) → Shrinks c c
Shrinks-refl c = record { entries = λ n. omega arith; count = omega arith }

pub Shrinks-trans : {b c d : VectorClock} → Shrinks b c → Shrinks c d → Shrinks b d
Shrinks-trans p q = record {
  entries = λ n. omega (arith, p.entries n, q.entries n);
  count = omega (arith, p.count, q.count);
}

entries_mono :
    (c : VectorClock) (m n : ℕ)
    → m ≤ n
    → for_range add_entry_size c m ≤ for_range add_entry_size c n
unfolding for_range add_entry_size
entries_mono [] m n le = le
entries_mono ((k, v) ∷ c) m n le =
    entries_mono c (m + (16 + str_len k + 8 + 8)) (n + (16 + str_len k + 8 + 8)) (omega arith)

delete-Shrinks : (k : String) (c : VectorClock) → Shrinks (delete k c) c
unfolding delete for_range add_entry_size
delete-Shrinks k [] = Shrinks-refl []
delete-Shrinks k ((j, v) ∷ c) = elim (Bool-cases (j == k)) [
  | inl same ↦ rw same (record {
    entries = λ n. omega (
      arith,
      (delete-Shrinks k c).entries n,
      entries_mono c n (n + (16 + str_len j + 8 + 8)) (omega arith),
    );
    count = omega (arith, (delete-Shrinks k c).count);
  })
  | inr other ↦ rw other (record {
    entries = λ n. (delete-Shrinks k c).entries (n + (16 + str_len j + 8 + 8));
    count = omega (arith, (delete-Shrinks k c).count);
  })
]

pub prune-Shrinks : (active : GoMap Bool) (c : VectorClock) → Shrinks (prune active c) c
unfolding prune
prune-Shrinks active c =
    for_range_inv (λ d. Shrinks d c) (prune_node active) round c c (Shrinks-refl c)
  where
    round :
        (k : String) (v : ℕ) (d : VectorClock) → Shrinks d c → Shrinks (prune_node active k v d) c
    round k v d s =
        unfold prune_node in
        elim (lookup k active)
          as (λ found.
            Shrinks
              (elim found as (λ _. VectorClock) [
                | some true ↦ d
                | some false ↦ delete k d
                | none ↦ delete k d
              ])
              c) [
                | some true ↦ s
                | some false ↦ Shrinks-trans (delete-Shrinks k d) s
                | none ↦ Shrinks-trans (delete-Shrinks k d) s
              ]

pub approx_size_mono :
    (o : Op) (c : VectorClock) → Shrinks c o.ts → approx_size (record o { ts = c }) ≤ approx_size o
unfolding approx_size
approx_size_mono o c s =
    let n =
      8
      + 8
      + 1
      + 7
      + 8
      + 8
      + 8
      + 8
      + 24
      + ((16 + str_len o.key) + (16 + str_len o.node_id) + (16 + str_len o.element))
      + (8 + 8) in
    omega (arith, s.entries n, s.count)
