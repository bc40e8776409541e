-- ===== src/Counter/Convergence.antt =====
-- `Counter.Merge` of CRDT/crdt.go between replicas.
use gossip_pubsub.Base.{
  ℕ, ◌+◌, ◌<◌, String, ◌≡◌, refl, ap, ◌∙◌, eq_iff, arith, inl, inr, Bool-cases, ltb, ◌≢◌,
}
use gossip_pubsub.Base.Words.{u64_mod, add64, add64_exact}
use gossip_pubsub.GoMap.{GoMap, insert, len, IsMap, SameMap}
use gossip_pubsub.GoMap.Laws.{lookup-insert, insert-IsMap}
use gossip_pubsub.Clock
use gossip_pubsub.Clock.{VectorClock, copy_entry, merge_node}
use gossip_pubsub.Clock.Order.{LeClock, LeClock-refl, LeClock-antisymm}
use gossip_pubsub.Clock.Merge.{
  lookup-merge, merge-IsMap, merge_comm, merge_assoc, merge_idem, merge-le, le-merge_right,
}
use gossip_pubsub.Clock.Increment.{increment-IsMap}
use gossip_pubsub.Counter.{
  Counter, new_counter, count_at, add_value, increment, increment_with_timestamp, value,
  merge_count, merge_with,
}
use gossip_pubsub.Counter.Total.{value_cong, value-increment}

-- The loop over the counts is that of the clocks: the larger count of each node.
merge_count-eq : (n : String) (v : ℕ) (r : GoMap ℕ) → merge_count n v r ≡ merge_node n v r
unfolding merge_count merge_node
merge_count-eq n v r = refl

pub counters-merge_with :
    (c o : Counter) → (merge_with c o).counters ≡ Clock.merge c.counters o.counters
unfolding merge_with Clock.merge
counters-merge_with c o = refl

-- The invariant of a counter.
pub record IsValid (c : Counter) : Type 0 where
  pub counters_map : IsMap c.counters
  pub timestamp_map : IsMap c.timestamp

pub new_counter-IsValid : (key : String) → IsValid (new_counter key)
unfolding new_counter
new_counter-IsValid key = record { counters_map = tt; timestamp_map = tt }

pub merge_with-IsValid : (c o : Counter) → IsValid (merge_with c o)
merge_with-IsValid c o = record {
  counters_map = rw counters-merge_with (merge-IsMap c.counters o.counters);
  timestamp_map = unfold merge_with in merge-IsMap c.timestamp o.timestamp;
}

add_value-IsMap : (n : String) (v : ℕ) (m : GoMap ℕ) → IsMap m → IsMap (add_value n v m)
unfolding add_value
add_value-IsMap n v m h = insert-IsMap n (add64 (count_at n m) v) m h

pub increment_with_timestamp-IsValid :
    (n : String) (v : ℕ) (ts : VectorClock) (c : Counter)
    → IsValid c
    → IsValid (increment_with_timestamp n v ts c)
unfolding increment_with_timestamp
increment_with_timestamp-IsValid n v ts c h = elim (Bool-cases (ltb 0 (len ts))) [
  | inl given ↦ rw given (record {
    counters_map = add_value-IsMap n v c.counters h.counters_map;
    timestamp_map = merge-IsMap c.timestamp ts;
  })
  | inr empty ↦ rw empty (record {
    counters_map = add_value-IsMap n v c.counters h.counters_map;
    timestamp_map = increment-IsMap n c.timestamp h.timestamp_map;
  })
]

pub increment-IsValid : (n : String) (v : ℕ) (c : Counter) → IsValid c → IsValid (increment n v c)
unfolding increment
increment-IsValid n v c h = record {
  counters_map = add_value-IsMap n v c.counters h.counters_map;
  timestamp_map = increment-IsMap n c.timestamp h.timestamp_map;
}

-- Merging counters in any order and grouping, and more than once, yields one value.
pub merge_with_value :
    (a b c : Counter)
    → IsValid a
    → IsValid b
    → IsValid c
    → (value (merge_with a b) ≡ value (merge_with b a))
      × (value (merge_with (merge_with a b) c) ≡ value (merge_with a (merge_with b c)))
      × (value (merge_with a a) ≡ value a)
merge_with_value a b c ha hb hc = (
  value_cong (merge_with a b) (merge_with b a) (merge_with-IsValid a b).counters_map
      (merge_with-IsValid b a).counters_map
      (simp counters-merge_with (merge_comm a.counters b.counters ha.counters_map hb.counters_map)),
  value_cong (merge_with (merge_with a b) c) (merge_with a (merge_with b c))
      (merge_with-IsValid (merge_with a b) c).counters_map
      (merge_with-IsValid a (merge_with b c)).counters_map
      (simp counters-merge_with (
        merge_assoc a.counters b.counters ha.counters_map hb.counters_map c.counters
          hc.counters_map)),
  value_cong (merge_with a a) a (merge_with-IsValid a a).counters_map ha.counters_map
      (simp counters-merge_with (merge_idem a.counters ha.counters_map)),
)

-- A local increment that does not overflow the node's count moves the counts up.
le-add_value :
    (n : String) (v : ℕ) (m : GoMap ℕ) → count_at n m + v < u64_mod → LeClock m (add_value n v m)
unfolding add_value
le-add_value n v m fits k = ground (
  arith,
  eq_iff n k,
  lookup-insert n k (add64 (count_at n m) v) m,
  add64_exact (count_at n m) v fits,
)

-- A merge with a replica that has every count of ours, or more, yields its value, on either side.
merge_with_ahead :
    (c o : Counter)
    → IsValid c
    → IsValid o
    → LeClock c.counters o.counters
    → (value (merge_with c o) ≡ value o) × (value (merge_with o c) ≡ value o)
merge_with_ahead c o h k le =
    let ours = c.counters in
    let theirs = o.counters in
    let same =
      LeClock-antisymm (Clock.merge ours theirs) theirs
        (merge-le ours theirs h.counters_map k.counters_map theirs le (LeClock-refl theirs))
        (le-merge_right ours theirs h.counters_map k.counters_map) in
    let mirrored : SameMap (Clock.merge theirs ours) theirs =
      λ j. merge_comm theirs ours k.counters_map h.counters_map j ∙ same j in
    (
      value_cong (merge_with c o) o (merge_with-IsValid c o).counters_map k.counters_map
          (simp counters-merge_with same),
      value_cong (merge_with o c) o (merge_with-IsValid o c).counters_map k.counters_map
          (simp counters-merge_with mirrored),
    )

add_value_split :
    (a b : String) (x y : ℕ) (m : GoMap ℕ)
    → IsMap m
    → a ≢ b
    → count_at a m + x < u64_mod
    → count_at b m + y < u64_mod
    → SameMap (Clock.merge (add_value a x m) (add_value b y m)) (add_value b y (add_value a x m))
unfolding add_value
add_value_split a b x y m h ne p q k =
    let xa = add64 (count_at a m) x in
    let ma = insert a xa m in
    let yb = add64 (count_at b m) y in
    ground (
      arith,
      eq_iff a k,
      eq_iff b k,
      eq_iff a b,
      lookup-merge ma (insert b yb m) k (insert-IsMap a xa m h) (insert-IsMap b yb m h),
      lookup-insert a k xa m,
      lookup-insert a b xa m,
      lookup-insert b k yb m,
      lookup-insert b k (add64 (count_at b ma) y) ma,
      add64_exact (count_at a m) x p,
      add64_exact (count_at b m) y q,
    )

-- Two replicas that counted for different nodes since they were equal: the merge has both counts.
pub merge_with_concurrent :
    (a b : String) (x y : ℕ) (c : Counter)
    → IsValid c
    → a ≢ b
    → count_at a c.counters + x < u64_mod
    → count_at b c.counters + y < u64_mod
    → value (merge_with (increment a x c) (increment b y c)) ≡ add64 (add64 (value c) x) y
merge_with_concurrent a b x y c h ne p q =
    let both = increment b y (increment a x c) in
    value_cong (merge_with (increment a x c) (increment b y c)) both
      (merge_with-IsValid (increment a x c) (increment b y c)).counters_map
      (increment-IsValid b y (increment a x c) (increment-IsValid a x c h)).counters_map
      (rw counters-merge_with
        (unfold increment in add_value_split a b x y c.counters h.counters_map ne p q))
    ∙ value-increment b y (increment a x c)
    ∙ ap (λ t. add64 t y) (value-increment a x c)
