-- ===== src/Clock/Order.antt =====
-- `Compare` of CRDT/crdt.go decides the order of clocks: a clock lies below another if it has no
-- node that the other lacks and no larger counter.
use gossip_pubsub.Base.{
  ℕ, ◌≤◌, String, ◌≡◌, refl, ◌⊎◌, ◌↔◌, inl, inr, Bool, true, false, Option, none, some, [], ◌∷◌,
  eq_iff, eq_refl, Bool-cases, arith, ◌||◌, ◌&&◌, not, ltb, is_some, ap, subst, Option-cases,
}
use gossip_pubsub.GoMap.{GoMap, lookup, insert, for_range, SameMap}
use gossip_pubsub.GoMap.Laws.{lookup-insert}
use gossip_pubsub.Clock.{
  VectorClock, Causality, happens_after, happens_before, unordered, Flags, add_node, all_nodes,
  compare_node, verdict, compare, no_flags,
}

-- A missing node stands below every counter, zero included.
abbrev pub LeTs : Option ℕ → Option ℕ → Type 0
LeTs none o = Unit
LeTs (some x) none = ⊥
LeTs (some x) (some y) = x ≤ y

abbrev pub LeClock : VectorClock → VectorClock → Type 0
LeClock a b = (k : String) → LeTs (lookup k a) (lookup k b)

abbrev pub Causal : VectorClock → VectorClock → Causality → Type 0
Causal a b happens_after = LeClock b a × (¬ LeClock a b)
Causal a b happens_before = LeClock a b × (¬ LeClock b a)
Causal a b unordered = (LeClock a b × LeClock b a) ⊎ ((¬ LeClock a b) × (¬ LeClock b a))

LeTs-trans : (a b c : Option ℕ) → LeTs a b → LeTs b c → LeTs a c
LeTs-trans a b c h k = ground arith

pub LeClock-trans : (a b c : VectorClock) → LeClock a b → LeClock b c → LeClock a c
LeClock-trans a b c h k j = LeTs-trans (lookup j a) (lookup j b) (lookup j c) (h j) (k j)

pub LeClock-refl : (a : VectorClock) → LeClock a a
LeClock-refl a k = LeTs-refl (lookup k a)
  where
    LeTs-refl : (o : Option ℕ) → LeTs o o
    LeTs-refl none = tt
    LeTs-refl (some x) = omega arith

LeTs-antisymm : (a b : Option ℕ) → LeTs a b → LeTs b a → a ≡ b
LeTs-antisymm a b h k = ground arith

-- Two clocks below one another are the same map.
pub LeClock-antisymm : (a b : VectorClock) → LeClock a b → LeClock b a → SameMap a b
LeClock-antisymm a b h k j = LeTs-antisymm (lookup j a) (lookup j b) (h j) (k j)

-- Whether `k` is among the nodes.
abbrev has {ℓ} : {V : Type ℓ} → GoMap V → String → Bool
has m k = is_some (lookup k m)

-- A test that holds at some node of a set.
any_node : (String → Bool) → GoMap Bool → Bool
any_node p [] = false
any_node p ((k, v) ∷ m) = p k || any_node p m

any_node-true :
    (p : String → Bool) (m : GoMap Bool)
    → any_node p m ≡ true
    → (k : String) × (has m k ≡ true) × (p k ≡ true)
unfolding any_node lookup
any_node-true p [] h = cc
any_node-true p ((k, v) ∷ m) h = elim (Bool-cases (p k)) [
  | inl e ↦ (k, rw eq_refl, e)
  | inr e ↦ let (j, found, holds) = any_node-true p m (ground arith) in (j, ground arith, holds)
]

any_node-false :
    (p : String → Bool) (m : GoMap Bool)
    → any_node p m ≡ false
    → (k : String) → has m k ≡ true
    → p k ≡ false
unfolding any_node lookup
any_node-false p [] h k found = cc
any_node-false p ((j, v) ∷ m) h k found =
    ground (arith, eq_iff j k, any_node-false p m (ground arith) k)

has-add_nodes {ℓ} :
    {V : Type ℓ} (m : GoMap V) (r : GoMap Bool) (j : String)
    → has (for_range add_node m r) j ≡ (has m j || has r j)
unfolding lookup for_range add_node
has-add_nodes [] r j = refl
has-add_nodes ((k, v) ∷ m) r j =
    ground (arith, eq_iff k j, has-add_nodes m (insert k true r) j, lookup-insert k j true r)

has-all_nodes : (a b : VectorClock) (j : String) → has (all_nodes a b) j ≡ (has b j || has a j)
unfolding all_nodes lookup
has-all_nodes a b j =
    ground (arith, has-add_nodes b (for_range add_node a []) j, has-add_nodes a [] j)

module _ (a b : VectorClock) where
  -- The round of a node sets `less`.
  below_at : String → Bool
  below_at k = elim (lookup k a) [
    | none ↦ true
    | some x ↦ elim (lookup k b) [ none ↦ false | some y ↦ ltb x y ]
  ]

  above_at : String → Bool
  above_at k = elim (lookup k a) [
    | none ↦ false
    | some x ↦ elim (lookup k b) [ none ↦ true | some y ↦ ltb y x ]
  ]

  loop-flags :
      (m : GoMap Bool) (s : Flags)
      → for_range (compare_node a b) m s ≡ record {
        less = s.less || any_node below_at m;
        greater = s.greater || any_node above_at m;
        equal = s.equal && not (any_node below_at m || any_node above_at m);
      }
  unfolding for_range any_node below_at above_at compare_node
  loop-flags [] s = ground arith
  loop-flags ((k, v) ∷ m) s = ground (arith, loop-flags m (compare_node a b k v s))

  le_of_no_below : any_node below_at (all_nodes a b) ≡ false → LeClock b a
  unfolding below_at
  le_of_no_below h k = elim (Option-cases (lookup k b)) [
    | inl e ↦ rw e tt
    | inr (y, e) ↦ ground (arith, any_node-false below_at (all_nodes a b) h k, has-all_nodes a b k)
  ]

  le_of_no_above : any_node above_at (all_nodes a b) ≡ false → LeClock a b
  unfolding above_at
  le_of_no_above h k = elim (Option-cases (lookup k a)) [
    | inl e ↦ rw e tt
    | inr (y, e) ↦ ground (arith, any_node-false above_at (all_nodes a b) h k, has-all_nodes a b k)
  ]

  not-le_of_below : any_node below_at (all_nodes a b) ≡ true → ¬ LeClock b a
  unfolding below_at
  not-le_of_below h le =
      let (k, found, below) = any_node-true below_at (all_nodes a b) h in
      ground (arith, le k, has-all_nodes a b k)

  not-le_of_above : any_node above_at (all_nodes a b) ≡ true → ¬ LeClock a b
  unfolding above_at
  not-le_of_above h le =
      let (k, found, above) = any_node-true above_at (all_nodes a b) h in
      ground (arith, le k, has-all_nodes a b k)

  compare-tests :
      compare a b
      ≡ verdict (record {
        less = any_node below_at (all_nodes a b);
        greater = any_node above_at (all_nodes a b);
        equal = not (any_node below_at (all_nodes a b) || any_node above_at (all_nodes a b));
      })
  unfolding compare
  compare-tests = ap verdict (loop-flags (all_nodes a b) no_flags)

  compare_sound : Causal a b (compare a b)
  unfolding verdict
  compare_sound = rw compare-tests (elim (Bool-cases (any_node below_at (all_nodes a b))) [
    | inl l ↦ elim (Bool-cases (any_node above_at (all_nodes a b))) [
      | inl g ↦ rw (l, g, verdict) (inr (not-le_of_above g, not-le_of_below l))
      | inr g ↦ rw (l, g, verdict) (le_of_no_above g, not-le_of_below l)
    ]
    | inr l ↦ elim (Bool-cases (any_node above_at (all_nodes a b))) [
      | inl g ↦ rw (l, g, verdict) (le_of_no_below l, not-le_of_above g)
      | inr g ↦ rw (l, g, verdict) (inl (le_of_no_above g, le_of_no_below l))
    ]
  ])

Causal-unique : (a b : VectorClock) (c d : Causality) → Causal a b c → Causal a b d → c ≡ d
Causal-unique a b happens_after happens_after h k = refl
Causal-unique a b happens_after happens_before h k = absurd (h.1 k.0)
Causal-unique a b happens_after unordered h (inl k) = absurd (h.1 k.0)
Causal-unique a b happens_after unordered h (inr k) = absurd (k.1 h.0)
Causal-unique a b happens_before happens_before h k = refl
Causal-unique a b happens_before happens_after h k = absurd (h.1 k.0)
Causal-unique a b happens_before unordered h (inl k) = absurd (h.1 k.1)
Causal-unique a b happens_before unordered h (inr k) = absurd (k.0 h.0)
Causal-unique a b unordered unordered h k = refl
Causal-unique a b unordered happens_after (inl h) k = absurd (k.1 h.0)
Causal-unique a b unordered happens_after (inr h) k = absurd (h.1 k.0)
Causal-unique a b unordered happens_before (inl h) k = absurd (k.1 h.1)
Causal-unique a b unordered happens_before (inr h) k = absurd (h.0 k.0)

-- `Compare` answers 1 exactly if the other clock lies strictly below the receiver, -1 exactly if
-- it lies strictly above, and 0 exactly if each lies below the other or neither does.
pub compare_iff : (a b : VectorClock) (c : Causality) → (compare a b ≡ c) ↔ Causal a b c
compare_iff a b c = (
  λ e. subst (Causal a b) e (compare_sound a b),
  λ h. Causal-unique a b (compare a b) c (compare_sound a b) h,
)
