-- ===== src/MemStore/Pruned.antt =====
-- What `PruneVectorClocks` of CRDT/MemoryStore.go does to the objects.
pub mod Hidden
pub mod Mapped
use gossip_pubsub.Base.{
  ℕ, String, ◌≡◌, refl, sym, ap, subst, ◌∙◌, Bool, true, false, Option, none, some, is_some, [],
  ◌∷◌, ◌==◌, if◌then◌else◌, Option-cases, Bool-cases, inl, inr, arith,
}
use gossip_pubsub.GoMap.{GoMap, lookup, insert, for_range, IsMap, SameMap}
use gossip_pubsub.GoMap.Laws.{lookup-insert, insert-IsMap}
use gossip_pubsub.GoMap.Range.{Writes, made, lookup-for_range_make, for_range_inv}
use gossip_pubsub.Clock
use gossip_pubsub.Clock.{VectorClock, unordered, happens_after}
use gossip_pubsub.Clock.Order.{LeTs, LeClock, LeClock-refl, compare_iff}
use gossip_pubsub.Clock.Comparing.{compare_cong}
use gossip_pubsub.Clock.Pruning.{is_active, lookup-prune, prune-IsMap}
use gossip_pubsub.LwwSet
use gossip_pubsub.LwwSet.{LwwSet, contains, is_after}
use gossip_pubsub.LwwSet.Validity
use gossip_pubsub.LwwSet.Validity.{IsBelow, AllBelow}
use gossip_pubsub.Counter
use gossip_pubsub.Counter.{Counter}
use gossip_pubsub.Counter.Convergence
use gossip_pubsub.Crdt
use gossip_pubsub.Crdt.{Crdt, lww_set, counter, get_key}
use gossip_pubsub.MemStore.{
  MemStore, prune_element, prune_crdt, prune_object, prune_vector_clocks, get_set_elements,
}
use gossip_pubsub.MemStore.Validity.{AllValid, IsValid}
use gossip_pubsub.MemStore.Sets.{in_read, member, in_read-member}

module _ (active : GoMap Bool) where
  prune_element-Writes : Writes (prune_element active) (λ e ts. Clock.prune active ts)
  unfolding prune_element
  prune_element-Writes k j ts r = lookup-insert k j (Clock.prune active ts) r

  -- The loops over adds and removes write each clock back pruned.
  abbrev pruned : GoMap VectorClock → GoMap VectorClock
  pruned m = for_range (prune_element active) m m

  abbrev pruned_clock : Option VectorClock → Option VectorClock
  pruned_clock none = none
  pruned_clock (some c) = some (Clock.prune active c)

  lookup-pruned :
      (m : GoMap VectorClock) (e : String)
      → IsMap m
      → lookup e (pruned m) ≡ pruned_clock (lookup e m)
  lookup-pruned m e h =
      lookup-for_range_make (prune_element active) (λ e ts. Clock.prune active ts)
        prune_element-Writes m m e h
      ∙ made_twice (lookup e m)
    where
      made_twice :
          (o : Option VectorClock)
          → made (prune_element active) (λ e ts. Clock.prune active ts) e o o ≡ pruned_clock o
      made_twice none = refl
      made_twice (some c) = refl

  pruned-IsMap : (m : GoMap VectorClock) → IsMap m → IsMap (pruned m)
  unfolding prune_element
  pruned-IsMap m h =
      for_range_inv IsMap (prune_element active)
        (λ k v s q. insert-IsMap k (Clock.prune active v) s q) m m h

  le-prune :
      (a b : VectorClock) → LeClock a b → LeClock (Clock.prune active a) (Clock.prune active b)
  le-prune a b h k = ground (arith, lookup-prune active a k, lookup-prune active b k, h k)

  AllBelow-pruned :
      (top : VectorClock) (m : GoMap VectorClock)
      → IsMap m
      → AllBelow top m
      → AllBelow (Clock.prune active top) (pruned m)
  AllBelow-pruned top m map h = record {
    at = λ e c p. elim (Option-cases (lookup e m)) [
      | inl q ↦ absurd (ground (arith, lookup-pruned m e map))
      | inr (d, q) ↦
          let same : Clock.prune active d ≡ c = ground (arith, lookup-pruned m e map) in
          let old = h.at e d q in
          subst (IsBelow (Clock.prune active top)) same
            (record { clock = prune-IsMap active d old.clock; below = le-prune d top old.below })
    ];
  }

  abbrev pruned_set : LwwSet → LwwSet
  pruned_set s = record s {
    adds = pruned s.adds;
    removes = pruned s.removes;
    timestamp = Clock.prune active s.timestamp;
  }

  pruned_set-IsValid :
      (s : LwwSet) → LwwSet.Validity.IsValid s → LwwSet.Validity.IsValid (pruned_set s)
  pruned_set-IsValid s v = record {
    adds_map = pruned-IsMap s.adds v.adds_map;
    removes_map = pruned-IsMap s.removes v.removes_map;
    timestamp_map = prune-IsMap active s.timestamp v.timestamp_map;
    adds_below = AllBelow-pruned s.timestamp s.adds v.adds_map v.adds_below;
    removes_below = AllBelow-pruned s.timestamp s.removes v.removes_map v.removes_below;
  }

  prune_crdt-IsValid : (c : Crdt) → Crdt.IsValid c → Crdt.IsValid (prune_crdt active c)
  unfolding prune_crdt
  prune_crdt-IsValid (lww_set s) v = pruned_set-IsValid s v
  prune_crdt-IsValid (counter c) v = record {
    counters_map = v.counters_map;
    timestamp_map = prune-IsMap active c.timestamp v.timestamp_map;
  }

  key-prune_crdt : (c : Crdt) → get_key (prune_crdt active c) ≡ get_key c
  unfolding prune_crdt get_key
  key-prune_crdt (lww_set s) = refl
  key-prune_crdt (counter c) = refl

  prune_object-Writes : Writes (prune_object active) (λ k c. prune_crdt active c)
  unfolding prune_object
  prune_object-Writes k j c r = lookup-insert k j (prune_crdt active c) r

  abbrev pruned_crdt : Option Crdt → Option Crdt
  pruned_crdt none = none
  pruned_crdt (some c) = some (prune_crdt active c)

  lookup-prune_vector_clocks :
      (s : MemStore) (k : String)
      → IsMap s.objects
      → lookup k (prune_vector_clocks active s).objects ≡ pruned_crdt (lookup k s.objects)
  unfolding prune_vector_clocks
  lookup-prune_vector_clocks s k h =
      lookup-for_range_make (prune_object active) (λ k c. prune_crdt active c) prune_object-Writes
        s.objects s.objects k h
      ∙ made_twice (lookup k s.objects)
    where
      made_twice :
          (o : Option Crdt)
          → made (prune_object active) (λ k c. prune_crdt active c) k o o ≡ pruned_crdt o
      made_twice none = refl
      made_twice (some c) = refl

  -- The object under a key after a prune is that before it, pruned.
  from_pruned :
      (s : MemStore) (k : String) (c : Crdt)
      → IsMap s.objects
      → lookup k (prune_vector_clocks active s).objects ≡ some c
      → (d : Crdt) × (lookup k s.objects ≡ some d) × (prune_crdt active d ≡ c)
  from_pruned s k c h p = elim (Option-cases (lookup k s.objects)) [
    | inl q ↦ absurd (ground (arith, lookup-prune_vector_clocks s k h))
    | inr (d, q) ↦ (d, q, ground (arith, lookup-prune_vector_clocks s k h))
  ]

  objects-IsMap : (s : MemStore) → IsMap s.objects → IsMap (prune_vector_clocks active s).objects
  unfolding prune_vector_clocks prune_object
  objects-IsMap s h =
      for_range_inv IsMap (prune_object active)
        (λ k c r q. insert-IsMap k (prune_crdt active c) r q) s.objects s.objects h

  -- `PruneVectorClocks` keeps the invariant of the store, whatever nodes are active: each object
  -- stays under its own key, no clock of a set counts beyond the set's, and the log is as it was.
  pub prune_vector_clocks-IsValid :
      (s : MemStore) → IsValid s → IsValid (prune_vector_clocks active s)
  prune_vector_clocks-IsValid s v =
      let m = v.objects in
      record {
        objects = record {
          map = objects-IsMap s m.map;
          keyed = λ k c p.
              let (d, q, same) = from_pruned s k c m.map p in
              ap get_key (sym same) ∙ key-prune_crdt d ∙ m.keyed k d q;
          valid = λ k c p.
              let (d, q, same) = from_pruned s k c m.map p in
              subst Crdt.IsValid same (prune_crdt-IsValid d (m.valid k d q));
        };
        log = unfold prune_vector_clocks in v.log;
        accounted = unfold prune_vector_clocks in v.accounted;
      }
