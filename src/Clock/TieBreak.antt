-- ===== src/Clock/TieBreak.antt =====
-- `extractNodeID` and `deterministicMerge` of CRDT/crdt.go: how `LWWSet.Merge` chooses between two
-- clocks of one element.
use gossip_pubsub.Base.{
  ℕ, ◌≤◌, ◌<◌, String, ◌≡◌, ◌≢◌, refl, ◌⊎◌, inl, inr, true, some, [], ◌∷◌, ◌==◌, eq_iff,
  if◌then◌else◌, Bool-cases, arith,
}
use gossip_pubsub.Base.Strings.{str_lt, str_lt_irrefl, str_lt_asymm}
use gossip_pubsub.GoMap.{lookup, for_range, IsMap, SameMap}
use gossip_pubsub.Clock.{
  VectorClock, happens_after, happens_before, unordered, compare, deterministic_merge, Best,
  extract_round, extract_node_id, resolve,
}
use gossip_pubsub.Clock.Comparing.{compare-opposite}

-- The choice in closed form: the later clock, and the smaller extracted node id where neither is.
pub resolve_cases :
    (a b : VectorClock)
    → ((compare a b ≡ happens_before) × (resolve a b ≡ b) × (resolve b a ≡ b))
      ⊎ ((compare a b ≡ happens_after) × (resolve a b ≡ a) × (resolve b a ≡ a))
      ⊎ ((compare a b ≡ unordered)
          × (resolve a b ≡ (if str_lt (extract_node_id a) (extract_node_id b) then a else b))
          × (resolve b a ≡ (if str_lt (extract_node_id b) (extract_node_id a) then b else a)))
unfolding resolve deterministic_merge
resolve_cases a b = ground (arith, compare-opposite a b)

pub resolve_tied :
    (a b : VectorClock)
    → compare a b ≡ unordered
    → extract_node_id a ≡ extract_node_id b
    → resolve a b ≡ b
resolve_tied a b u e = ground (arith, resolve_cases a b, str_lt_irrefl (extract_node_id b))

-- The choice is not associative: where `b` is later than `a`, `c` is concurrent with both, and the
-- extracted node ids are in the order of `a`, `c`, `b`, the grouping decides.
pub resolve_not_assoc :
    (a b c : VectorClock)
    → compare a b ≡ happens_before
    → compare b c ≡ unordered
    → compare a c ≡ unordered
    → str_lt (extract_node_id a) (extract_node_id c) ≡ true
    → str_lt (extract_node_id c) (extract_node_id b) ≡ true
    → (resolve (resolve a b) c ≡ c) × (resolve a (resolve b c) ≡ a)
resolve_not_assoc a b c p q r l m =
    let ab : resolve a b ≡ b = ground (arith, resolve_cases a b) in
    let bc : resolve b c ≡ c =
      ground (arith, resolve_cases b c, str_lt_asymm (extract_node_id c) (extract_node_id b) m) in
    let ac : resolve a c ≡ a = ground (arith, resolve_cases a c) in (rw ab bc, rw bc ac)

extract_loop :
    (m : VectorClock) (s : Best)
    → IsMap m
    → let r = for_range extract_round m s in
      (s.max_ts ≤ r.max_ts)
      × ((r ≡ s) ⊎ (lookup r.max_node m ≡ some r.max_ts))
      × ((k : String) (x : ℕ) → lookup k m ≡ some x → x ≤ r.max_ts)
unfolding for_range extract_round lookup
extract_loop [] s h = (omega arith, inl refl, λ k x e. cc)
extract_loop ((j, v) ∷ m) s h =
    let (grows, held, bounds) = extract_loop m (extract_round j v s) h.1 in
    let node = (for_range extract_round m (extract_round j v s)).max_node in
    (ground arith, ground (arith, eq_iff j node), λ k x e. ground (arith, eq_iff j k, bounds k x))

-- The extracted node holds the largest counter, if some counter is not zero.
extract_node_id_lem :
    (c : VectorClock) (k : String) (x : ℕ)
    → IsMap c
    → lookup k c ≡ some x
    → 0 < x
    → (y : ℕ) × (lookup (extract_node_id c) c ≡ some y)
      × ((j : String) (z : ℕ) → lookup j c ≡ some z → z ≤ y)
unfolding extract_node_id
extract_node_id_lem [] k x h e pos = absurd (unfold lookup in cc)
extract_node_id_lem (f ∷ c) k x h e pos =
    let (grows, held, bounds) = extract_loop (f ∷ c) (record { max_node = ""; max_ts = 0 }) h in
    let r = for_range extract_round (f ∷ c) (record { max_node = ""; max_ts = 0 }) in
    (r.max_ts, ground (arith, bounds k x e), bounds)

-- A node whose counter is larger than all others is extracted, whatever the order of the entries.
pub extract_node_id_unique :
    (c : VectorClock) (k : String) (x : ℕ)
    → IsMap c
    → lookup k c ≡ some x
    → 0 < x
    → ((j : String) (z : ℕ) → lookup j c ≡ some z → j ≢ k → z < x)
    → extract_node_id c ≡ k
extract_node_id_unique c k x h e pos largest =
    let (y, found, bounds) = extract_node_id_lem c k x h e pos in
    let top = bounds k x e in
    elim (Bool-cases (extract_node_id c == k)) [
      | inl same ↦ (eq_iff (extract_node_id c) k).0 same
      | inr other ↦
          absurd (ground (arith, eq_iff (extract_node_id c) k, largest (extract_node_id c) y found))
    ]

-- Where the counters of two nodes are equal, the extracted id is the one that `range` visits first.
extract_depends_on_order :
    (a b : String) (x : ℕ)
    → a ≢ b
    → 0 < x
    → SameMap ((a, x) ∷ (b, x) ∷ []) ((b, x) ∷ (a, x) ∷ [])
      × (extract_node_id ((a, x) ∷ (b, x) ∷ []) ≡ a)
      × (extract_node_id ((b, x) ∷ (a, x) ∷ []) ≡ b)
unfolding lookup extract_node_id for_range
extract_depends_on_order a b x ne pos =
    (λ k. ground (arith, eq_iff a k, eq_iff b k), ground arith, ground arith)
