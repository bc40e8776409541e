-- ===== src/MemStore/Shared/Pruned.antt =====
-- What `PruneVectorClocks` of CRDT/MemoryStore.go leaves at each address.
use gossip_pubsub.Base.{
  ℕ, String, ◌≡◌, refl, ap, ◌∙◌, Bool, true, false, ◌||◌, none, [], ◌∷◌, eq_iff, eqb, Bool-cases,
  if◌then◌else◌, inl, inr, arith,
}
use gossip_pubsub.GoMap.{GoMap, lookup, for_range}
use gossip_pubsub.Clock
use gossip_pubsub.Clock.{VectorClock, prune_node}
use gossip_pubsub.Clock.Pruning.{is_active, lookup-prune}
use gossip_pubsub.MemStore.Shared.{SharedCrdt, shared_set, own_counter, prune_at, prune_cells}

module _ (active : GoMap Bool) where
  abbrev AllActive : VectorClock → Type 0
  AllActive [] = Unit
  AllActive ((k, v) ∷ c) = (is_active active k ≡ true) × AllActive c

  keep_active : (c d : VectorClock) → AllActive c → for_range (prune_node active) c d ≡ d
  unfolding for_range prune_node
  keep_active [] d h = refl
  keep_active ((k, v) ∷ c) d h = ground (arith, keep_active c d h.1)

  found-AllActive :
      (c : VectorClock)
      → ((k : String) → is_active active k ≡ false → lookup k c ≡ none)
      → AllActive c
  unfolding lookup
  found-AllActive [] h = tt
  found-AllActive ((k, v) ∷ c) h = elim (Bool-cases (is_active active k)) [
    | inl alive ↦ (alive, found-AllActive c (λ j e. ground (arith, h j e, eq_iff k j)))
    | inr dead ↦ absurd (ground (arith, h k dead, eq_iff k k))
  ]

  -- Pruning twice is pruning once.
  prune-prune : (c : VectorClock) → Clock.prune active (Clock.prune active c) ≡ Clock.prune active c
  unfolding Clock.prune
  prune-prune c =
      keep_active (Clock.prune active c) (Clock.prune active c)
        (found-AllActive (Clock.prune active c) (λ k e. ground (arith, lookup-prune active c k)))

  abbrev pruned_if : Bool → VectorClock → VectorClock
  pruned_if b c = if b then Clock.prune active c else c

  pruned_twice : (p q : Bool) (c : VectorClock) → pruned_if q (pruned_if p c) ≡ pruned_if (p || q) c
  pruned_twice true true c = prune-prune c
  pruned_twice true false c = refl
  pruned_twice false q c = refl

  -- The address stands in a map, in an object, in some object.
  abbrev pub stands : ℕ → GoMap ℕ → Bool
  stands a [] = false
  stands a ((e, b) ∷ m) = eqb b a || stands a m

  abbrev pub stands_in : ℕ → SharedCrdt → Bool
  stands_in a (shared_set s) = stands a s.adds || stands a s.removes
  stands_in a (own_counter c) = false

  abbrev pub stands_among : ℕ → GoMap SharedCrdt → Bool
  stands_among a [] = false
  stands_among a ((k, c) ∷ objects) = stands_in a c || stands_among a objects

  at-prune_at :
      (e : String) (b a : ℕ) (cells : ℕ → VectorClock)
      → prune_at active e b cells a ≡ pruned_if (eqb b a) (cells a)
  unfolding prune_at
  at-prune_at e b a cells = elim (Bool-cases (eqb b a)) [
    | inl same ↦ let at : b ≡ a = ground arith in rw (same, at) refl
    | inr other ↦ rw other refl
  ]

  at-prune_all :
      (m : GoMap ℕ) (a : ℕ) (cells : ℕ → VectorClock)
      → for_range (prune_at active) m cells a ≡ pruned_if (stands a m) (cells a)
  unfolding for_range
  at-prune_all [] a cells = refl
  at-prune_all ((e, b) ∷ m) a cells =
      at-prune_all m a (prune_at active e b cells)
      ∙ ap (pruned_if (stands a m)) (at-prune_at e b a cells)
      ∙ pruned_twice (eqb b a) (stands a m) (cells a)

  at-prune_cells :
      (key : String) (c : SharedCrdt) (a : ℕ) (cells : ℕ → VectorClock)
      → prune_cells active key c cells a ≡ pruned_if (stands_in a c) (cells a)
  unfolding prune_cells
  at-prune_cells key (shared_set s) a cells =
      at-prune_all s.removes a (for_range (prune_at active) s.adds cells)
      ∙ ap (pruned_if (stands a s.removes)) (at-prune_all s.adds a cells)
      ∙ pruned_twice (stands a s.adds) (stands a s.removes) (cells a)
  at-prune_cells key (own_counter c) a cells = refl

  pub at-prune_objects :
      (objects : GoMap SharedCrdt) (a : ℕ) (cells : ℕ → VectorClock)
      → for_range (prune_cells active) objects cells a
        ≡ pruned_if (stands_among a objects) (cells a)
  unfolding for_range
  at-prune_objects [] a cells = refl
  at-prune_objects ((k, c) ∷ objects) a cells =
      at-prune_objects objects a (prune_cells active k c cells)
      ∙ ap (pruned_if (stands_among a objects)) (at-prune_cells k c a cells)
      ∙ pruned_twice (stands_in a c) (stands_among a objects) (cells a)
