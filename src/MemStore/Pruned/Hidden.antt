-- ===== src/MemStore/Pruned/Hidden.antt =====
-- That a prune of CRDT/MemoryStore.go can hide what was visible.
use gossip_pubsub.Base.{
  String, ◌≡◌, refl, sym, ap, ◌∙◌, Bool, true, false, some, Bool-cases, inl, inr, arith,
}
use gossip_pubsub.GoMap.{GoMap, lookup, SameMap}
use gossip_pubsub.Clock
use gossip_pubsub.Clock.{VectorClock, unordered, happens_after}
use gossip_pubsub.Clock.Order.{LeClock-refl, compare_iff}
use gossip_pubsub.Clock.Comparing.{compare_cong}
use gossip_pubsub.Clock.Pruning.{is_active, lookup-prune}
use gossip_pubsub.LwwSet.{LwwSet, contains, is_after}
use gossip_pubsub.Crdt.{lww_set}
use gossip_pubsub.MemStore.{MemStore, prune_crdt, prune_vector_clocks, get_set_elements}
use gossip_pubsub.MemStore.Pruned.{
  pruned_set, pruned_clock, lookup-pruned, lookup-prune_vector_clocks, prune_vector_clocks-IsValid,
}
use gossip_pubsub.MemStore.Validity.{IsValid}
use gossip_pubsub.MemStore.Sets.{in_read, in_read-member}

module _ (active : GoMap Bool) where
  -- Two clocks have the same counters at the active nodes.
  abbrev pub AgreeActive : VectorClock → VectorClock → Type 0
  AgreeActive a b = (k : String) → is_active active k ≡ true → lookup k a ≡ lookup k b

  pruned_alike :
      (a b : VectorClock) → AgreeActive a b → SameMap (Clock.prune active a) (Clock.prune active b)
  pruned_alike a b h k = elim (Bool-cases (is_active active k)) [
    | inl p ↦ ground (arith, lookup-prune active a k, lookup-prune active b k, h k p)
    | inr p ↦ ground (arith, lookup-prune active a k, lookup-prune active b k)
  ]

  unordered_alike : (a b : VectorClock) → SameMap a b → Clock.compare a b ≡ unordered
  unordered_alike a b h =
      compare_cong a a b a (λ k. refl) (λ k. sym (h k))
      ∙ (compare_iff a a unordered).1 (inl (LeClock-refl a, LeClock-refl a))

  visible_set :
      (e : String) (t : LwwSet) (a r : VectorClock)
      → lookup e t.adds ≡ some a
      → lookup e t.removes ≡ some r
      → contains e t ≡ is_after (Clock.compare a r)
  unfolding contains
  visible_set e t a r add rm = rw (add, rm, contains)

  -- An element that is visible since its add lies after its remove becomes invisible by
  -- `PruneVectorClocks` if the two clocks differ at nodes only that are not active.
  pub prune_hides :
      (s : MemStore) (k e : String) (t : LwwSet) (a r : VectorClock)
      → IsValid s
      → lookup k s.objects ≡ some (lww_set t)
      → lookup e t.adds ≡ some a
      → lookup e t.removes ≡ some r
      → Clock.compare a r ≡ happens_after
      → AgreeActive a r
      → (in_read e (get_set_elements k s) ≡ true)
        × (in_read e (get_set_elements k (prune_vector_clocks active s)) ≡ false)
  unfolding prune_crdt
  prune_hides s k e t a r v p add rm after agree =
      let w = prune_vector_clocks-IsValid active s v in
      let valid = v.objects.valid k (lww_set t) p in
      let same = unordered_alike _ _ (pruned_alike a r agree) in
      (
        in_read-member s k e v.objects ∙ rw p (visible_set e t a r add rm ∙ ap is_after after),
        in_read-member (prune_vector_clocks active s) k e w.objects
            ∙ rw (lookup-prune_vector_clocks active s k v.objects.map, p)
                (visible_set e (pruned_set active t) (Clock.prune active a) (Clock.prune active r)
                    (lookup-pruned active t.adds e valid.adds_map ∙ ap (pruned_clock active) add)
                    (lookup-pruned active t.removes e valid.removes_map
                      ∙ ap (pruned_clock active) rm)
                  ∙ ap is_after same),
      )
