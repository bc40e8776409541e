-- ===== src/Counter/Total.antt =====
-- `Value` of CRDT/crdt.go: the sum of the nodes' counts modulo 2^64, whatever their order.
use gossip_pubsub.Base.{
  ℕ, ◌+◌, ◌%◌, String, ◌≡◌, refl, sym, ◌∙◌, some, [], ◌∷◌, eq_iff, eq_refl, arith,
}
use gossip_pubsub.Base.Words.{u64_mod, add64}
use gossip_pubsub.GoMap.{GoMap, lookup, insert, delete, for_range, IsMap, SameMap}
use gossip_pubsub.GoMap.Laws.{lookup-delete, delete-IsMap}
use gossip_pubsub.Counter.{
  Counter, count_at, add_value, increment, increment_with_timestamp, add_to_total, value,
}

-- The sum without wrap-around.
unfoldable pub sum : GoMap ℕ → ℕ
sum [] = 0
sum ((k, v) ∷ m) = v + sum m

total-sum :
    (m : GoMap ℕ) (t : ℕ) → t ≡ t % u64_mod → for_range add_to_total m t ≡ (t + sum m) % u64_mod
unfolding for_range add_to_total sum
total-sum [] t h = omega arith
total-sum ((k, v) ∷ m) t h = omega (arith, total-sum m ((t + v) % u64_mod) (omega arith))

-- The value is the sum of the counts modulo 2^64.
pub value-sum : (c : Counter) → value c ≡ sum c.counters % u64_mod
unfolding value
value-sum c = omega (arith, total-sum c.counters 0 (omega arith))

sum-insert : (n : String) (v : ℕ) (m : GoMap ℕ) → sum (insert n v m) + count_at n m ≡ sum m + v
unfolding sum insert lookup
sum-insert n v [] = omega arith
sum-insert n v ((k, w) ∷ m) = ground (arith, sum-insert n v m)

sum-add_value :
    (n : String) (v : ℕ) (m : GoMap ℕ) → sum (add_value n v m) % u64_mod ≡ (sum m + v) % u64_mod
unfolding add_value add64
sum-add_value n v m = omega (arith, sum-insert n ((count_at n m + v) % u64_mod) m)

-- Both kinds of increment add the value to the total, modulo 2^64.
pub value-increment :
    (n : String) (v : ℕ) (c : Counter) → value (increment n v c) ≡ add64 (value c) v
unfolding increment add64
value-increment n v c =
    omega (arith, value-sum c, value-sum (increment n v c), sum-add_value n v c.counters)

pub value-increment_with_timestamp :
    (n : String) (v : ℕ) (ts : GoMap ℕ) (c : Counter)
    → value (increment_with_timestamp n v ts c) ≡ add64 (value c) v
unfolding increment_with_timestamp add64
value-increment_with_timestamp n v ts c = ground (
  arith,
  value-sum c,
  value-sum (increment_with_timestamp n v ts c),
  sum-add_value n v c.counters,
)

sum-delete : (k : String) (m : GoMap ℕ) → IsMap m → sum m ≡ count_at k m + sum (delete k m)
unfolding sum delete lookup
sum-delete k [] h = omega arith
sum-delete k ((j, v) ∷ m) h = ground (arith, eq_iff j k, sum-delete k m h.1)

SameMap-sum : (a b : GoMap ℕ) → IsMap a → IsMap b → SameMap a b → sum a ≡ sum b
unfolding sum lookup
SameMap-sum [] [] p q h = refl
SameMap-sum [] ((k, v) ∷ b) p q h = cc (h k, eq_refl k)
SameMap-sum ((k, v) ∷ a) b p q h =
    let found : lookup k b ≡ some v = sym (h k) ∙ rw eq_refl in
    let rest : SameMap a (delete k b) =
      λ j. ground (arith, eq_iff k j, lookup-delete k j b, h j, p.0) in
    let ih = SameMap-sum a (delete k b) p.1 (delete-IsMap k b q) rest in
    ground (arith, sum-delete k b q)

-- Counters with the same count for each node have the same value.
pub value_cong :
    (c d : Counter)
    → IsMap c.counters
    → IsMap d.counters
    → SameMap c.counters d.counters
    → value c ≡ value d
value_cong c d p q h =
    omega (arith, value-sum c, value-sum d, SameMap-sum c.counters d.counters p q h)
