-- ===== src/Sync/Gossip/Totals.antt =====
-- The counts that a history of accepted increments gives to each node, and their sum.
use gossip_pubsub.Base.{
  ℕ, ◌+◌, ◌≤◌, String, ◌≡◌, Option, none, some, List, [], ◌∷◌, ◌++◌, ◌==◌, eq_iff, eq_refl,
  if◌then◌else◌, refl, arith,
}
use gossip_pubsub.Base.Words.{add64}
use gossip_pubsub.GoMap.{GoMap, lookup, IsMap}
use gossip_pubsub.Counter.{count_at}
use gossip_pubsub.Counter.Total.{sum}
use gossip_pubsub.Engine.{EngineError}
use gossip_pubsub.Engine.Runs.{Call, add, remove, increment}
use gossip_pubsub.Engine.Counted.Calls.{grown}
use gossip_pubsub.Sync.Gossip.{Increment, accepted, made, total}

pub made_grows : (p k : String) (es h : List Increment) → made p k h ≤ made p k (es ++ h)
unfolding made
made_grows p k [] h = omega arith
made_grows p k (e ∷ es) h = ground (arith, made_grows p k es h)

-- What a call adds to a count is no more than what it adds to the history.
pub grown-le :
    (c : Call) (r : Option EngineError) (p j : String) (v : ℕ) (h : List Increment)
    → v ≤ made p j h
    → grown c r p j v ≤ made p j (accepted c r ++ h)
unfolding made add64
grown-le (increment now n k d ts) none p j v h le = ground arith
grown-le (increment now n k d ts) (some r) p j v h le = le
grown-le (add now n k e ts) r p j v h le = le
grown-le (remove now n k e ts) r p j v h le = le

-- The history without the increments of one node.
without : String → List Increment → List Increment
without p [] = []
without p (e ∷ h) = let rest = without p h in if e.node_id == p then rest else e ∷ rest

made-without :
    (p q k : String) (h : List Increment)
    → made q k (without p h) ≡ (if q == p then 0 else made q k h)
unfolding made without
made-without p q k [] = ground (arith, eq_iff q p)
made-without p q k (e ∷ h) =
    ground (arith, made-without p q k h, eq_iff q p, eq_iff e.node_id p, eq_iff e.node_id q)

total-without : (p k : String) (h : List Increment) → total k h ≡ made p k h + total k (without p h)
unfolding made total without
total-without p k [] = omega arith
total-without p k (e ∷ h) = ground (arith, total-without p k h)

module _ (p k : String) (v : ℕ) (m : GoMap ℕ) (h : List Increment) (map : IsMap ((p, v) ∷ m)) where
  rest_count : (q : String) → count_at q m ≡ (if q == p then 0 else count_at q ((p, v) ∷ m))
  unfolding lookup
  rest_count q = ground (arith, eq_iff q p, eq_iff p q, map.0)

  first_count : count_at p ((p, v) ∷ m) ≡ v
  unfolding lookup
  first_count = ground (arith, eq_refl p)

-- Counts that stay within those of the history have a sum within the total.
pub sum-le-total :
    (k : String) (m : GoMap ℕ) (h : List Increment)
    → IsMap m
    → ((q : String) → count_at q m ≤ made q k h)
    → sum m ≤ total k h
unfolding sum
sum-le-total k [] h map le = omega arith
sum-le-total k ((p, v) ∷ m) h map le =
    let ih =
      sum-le-total k m (without p h) map.1
        (λ q. ground (arith, rest_count p k v m h map q, made-without p q k h, le q)) in
    omega (arith, ih, total-without p k h, le p, first_count p k v m h map)

no_counts : (k : String) (h : List Increment) → ((q : String) → made q k h ≡ 0) → total k h ≡ 0
unfolding made total
no_counts k [] none_made = refl
no_counts k (e ∷ h) none_made =
    let ih =
      no_counts k h
        (λ q. let step = made_grows q k (e ∷ []) h in omega (arith, none_made q, step)) in
    ground (arith, ih, none_made e.node_id, eq_refl e.node_id)

-- Counts that are those of the history have its total as their sum.
pub sum-eq-total :
    (k : String) (m : GoMap ℕ) (h : List Increment)
    → IsMap m
    → ((q : String) → count_at q m ≡ made q k h)
    → sum m ≡ total k h
unfolding sum lookup
sum-eq-total k [] h map same = ground (arith, no_counts k h (λ q. ground (arith, same q)))
sum-eq-total k ((p, v) ∷ m) h map same =
    let ih =
      sum-eq-total k m (without p h) map.1
        (λ q. ground (arith, rest_count p k v m h map q, made-without p q k h, same q)) in
    omega (arith, ih, total-without p k h, same p, first_count p k v m h map)
