-- ===== src/LwwSet/Agreement.antt =====
-- `LWWSet.Merge` of CRDT/crdt.go between two replicas that take in each other's state.
use gossip_pubsub.Base.{
  String, ◌≡◌, refl, ◌⊎◌, inl, inr, Bool, true, false, Option, none, some, arith, sym, ap, ◌∙◌, ◌≢◌,
}
use gossip_pubsub.GoMap.{GoMap, lookup, IsMap, SameMap}
use gossip_pubsub.Clock
use gossip_pubsub.Clock.{
  VectorClock, happens_after, happens_before, unordered, extract_node_id, resolve,
}
use gossip_pubsub.Clock.Comparing.{compare-opposite, compare_cong}
use gossip_pubsub.Clock.TieBreak.{resolve_tied}
use gossip_pubsub.Clock.Swapped.{Leads, resolve_comm_iff, resolve_led}
use gossip_pubsub.LwwSet.{LwwSet, contains, is_after, merge_with}
use gossip_pubsub.LwwSet.Validity.{AllBelow, IsValid, merged, lookup-merge_elements}

-- Two reads that find the same clock, or find none both.
abbrev pub SameClock : Option VectorClock → Option VectorClock → Type 0
SameClock none none = Unit
SameClock none (some b) = ⊥
SameClock (some a) none = ⊥
SameClock (some a) (some b) = SameMap a b

contains_cong :
    (j : String) (s o : LwwSet)
    → SameClock (lookup j s.adds) (lookup j o.adds)
    → SameClock (lookup j s.removes) (lookup j o.removes)
    → contains j s ≡ contains j o
unfolding contains
contains_cong j s o =
    decide (lookup j s.adds) (lookup j o.adds) (lookup j s.removes) (lookup j o.removes)
  where
    shown : Option VectorClock → Option VectorClock → Bool
    shown x y = elim x [
      | none ↦ false
      | some a ↦ elim y [ none ↦ true | some r ↦ is_after (Clock.compare a r) ]
    ]

    decide :
        (x x' y y' : Option VectorClock) → SameClock x x' → SameClock y y' → shown x y ≡ shown x' y'
    decide none none y y' p q = refl
    decide none (some b) y y' p q = absurd p
    decide (some a) none y y' p q = absurd p
    decide (some a) (some b) none none p q = refl
    decide (some a) (some b) none (some d) p q = absurd q
    decide (some a) (some b) (some c) none p q = absurd q
    decide (some a) (some b) (some c) (some d) p q = ap is_after (compare_cong a b c d p q)

-- The merge loops choose between the two clocks in the same way from both sides, whatever the order
-- in which `range` takes their entries.
abbrev pub IsUntied : Option VectorClock → Option VectorClock → Type 0
IsUntied none y = Unit
IsUntied (some a) none = Unit
IsUntied (some a) (some b) =
    (Clock.compare a b ≢ unordered)
    ⊎ SameMap a b
    ⊎ (i : String) × (j : String) × Leads i a × Leads j b × (i ≢ j)

abbrev IsClock : Option VectorClock → Type 0
IsClock none = Unit
IsClock (some c) = IsMap c

merged_swapped :
    (x y x' y' : Option VectorClock)
    → SameClock x x'
    → SameClock y y'
    → IsClock x × IsClock y × IsClock x' × IsClock y'
    → IsUntied x y
    → SameClock (merged x y) (merged y' x')
merged_swapped none none none none p q m h = tt
merged_swapped none (some b) none (some b') p q m h = q
merged_swapped (some a) none (some a') none p q m h = p
merged_swapped (some a) (some b) (some a') (some b') p q m (inl ordered) =
    (resolve_comm_iff a b a' b' p q).1 (inl ordered)
merged_swapped (some a) (some b) (some a') (some b') p q m (inr (inl same)) =
    (resolve_comm_iff a b a' b' p q).1 (inr (inl same))
merged_swapped (some a) (some b) (some a') (some b') p q m (inr (inr (i, j, la, lb, ne))) =
    resolve_led a b a' b' p q i j m.0 m.1 m.2 m.3 la lb ne
merged_swapped none y (some a') y' p q m h = absurd p
merged_swapped (some a) y none y' p q m h = absurd p
merged_swapped none none none (some b') p q m h = absurd q
merged_swapped none (some b) none none p q m h = absurd q
merged_swapped (some a) none (some a') (some b') p q m h = absurd q
merged_swapped (some a) (some b) (some a') none p q m h = absurd q

-- Two sets with the same clocks, each with an order of its own.
pub record SameSet (s s' : LwwSet) : Type 0 where
  pub adds : (e : String) → SameClock (lookup e s.adds) (lookup e s'.adds)
  pub removes : (e : String) → SameClock (lookup e s.removes) (lookup e s'.removes)

pub SameClock-refl : (x : Option VectorClock) → SameClock x x
SameClock-refl none = tt
SameClock-refl (some c) = λ k. refl

pub SameSet-refl : (s : LwwSet) → SameSet s s
SameSet-refl s = record {
  adds = λ e. SameClock-refl (lookup e s.adds);
  removes = λ e. SameClock-refl (lookup e s.removes);
}

SameClock-symm : (x y : Option VectorClock) → SameClock x y → SameClock y x
SameClock-symm none none h = tt
SameClock-symm (some a) (some b) h = λ k. sym (h k)
SameClock-symm none (some b) h = absurd h
SameClock-symm (some a) none h = absurd h

pub SameSet-symm : (s o : LwwSet) → SameSet s o → SameSet o s
SameSet-symm s o h = record {
  adds = λ e. SameClock-symm (lookup e s.adds) (lookup e o.adds) (h.adds e);
  removes = λ e. SameClock-symm (lookup e s.removes) (lookup e o.removes) (h.removes e);
}

Leads-cong : (i : String) (c d : VectorClock) → SameMap c d → Leads i c → Leads i d
Leads-cong i c d same l = record {
  count = l.count;
  found = sym (same i) ∙ l.found;
  positive = l.positive;
  largest = λ j z e ne. l.largest j z (same j ∙ e) ne;
}

-- Whether two clocks are tied does not depend on the order of the entries.
pub IsUntied-cong : (x y y' : Option VectorClock) → SameClock y y' → IsUntied x y → IsUntied x y'
IsUntied-cong none y y' same h = tt
IsUntied-cong (some a) y none same h = tt
IsUntied-cong (some a) none (some b') same h = absurd same
IsUntied-cong (some a) (some b) (some b') same (inl ordered) =
    inl (λ u. ordered (compare_cong a a b b' (λ k. refl) same ∙ u))
IsUntied-cong (some a) (some b) (some b') same (inr (inl e)) = inr (inl (λ k. e k ∙ same k))
IsUntied-cong (some a) (some b) (some b') same (inr (inr (i, j, la, lb, ne))) =
    inr (inr (i, j, la, Leads-cong j b b' same lb, ne))

clocks-IsClock :
    (top : VectorClock) (m : GoMap VectorClock) (e : String)
    → AllBelow top m
    → (x : Option VectorClock) → lookup e m ≡ x
    → IsClock x
clocks-IsClock top m e h none p = tt
clocks-IsClock top m e h (some c) p = (h.at e c p).clock

-- Two replicas `s` and `o`, and the copies `s'` and `o'` of their states that the other side has, each
-- with its own order of the entries of a clock: where each side merges the state of the other into
-- its own, they agree on an element. Its adds must be ordered, the same, or led each by one node,
-- two different ones; and likewise its removes. All four are valid.
pub merge_agree :
    (s o s' o' : LwwSet) (j : String)
    → SameSet s s'
    → SameSet o o'
    → IsValid s × IsValid o × IsValid s' × IsValid o'
    → IsUntied (lookup j s.adds) (lookup j o.adds)
    → IsUntied (lookup j s.removes) (lookup j o.removes)
    → contains j (merge_with s o) ≡ contains j (merge_with o' s')
unfolding merge_with
merge_agree s o s' o' j p q (v, w, v', w') ha hr =
    contains_cong j (merge_with s o) (merge_with o' s')
      (rw
        (
          lookup-merge_elements s.adds o.adds j v.adds_map w.adds_map,
          lookup-merge_elements o'.adds s'.adds j w'.adds_map v'.adds_map,
        )
        (merged_swapped (lookup j s.adds) (lookup j o.adds) (lookup j s'.adds) (lookup j o'.adds)
          (p.adds j) (q.adds j)
          (
            clocks-IsClock s.timestamp s.adds j v.adds_below (lookup j s.adds) refl,
            clocks-IsClock o.timestamp o.adds j w.adds_below (lookup j o.adds) refl,
            clocks-IsClock s'.timestamp s'.adds j v'.adds_below (lookup j s'.adds) refl,
            clocks-IsClock o'.timestamp o'.adds j w'.adds_below (lookup j o'.adds) refl,
          )
          ha))
      (rw
        (
          lookup-merge_elements s.removes o.removes j v.removes_map w.removes_map,
          lookup-merge_elements o'.removes s'.removes j w'.removes_map v'.removes_map,
        )
        (merged_swapped (lookup j s.removes) (lookup j o.removes) (lookup j s'.removes)
          (lookup j o'.removes) (p.removes j) (q.removes j)
          (
            clocks-IsClock s.timestamp s.removes j v.removes_below (lookup j s.removes) refl,
            clocks-IsClock o.timestamp o.removes j w.removes_below (lookup j o.removes) refl,
            clocks-IsClock s'.timestamp s'.removes j v'.removes_below (lookup j s'.removes) refl,
            clocks-IsClock o'.timestamp o'.removes j w'.removes_below (lookup j o'.removes) refl,
          )
          hr))

-- Where the adds of an element are concurrent and have one extracted node id, each replica ends
-- with the other's clock.
pub merge_swaps_tied :
    (s o : LwwSet) (j : String) (a b : VectorClock)
    → IsValid s
    → IsValid o
    → lookup j s.adds ≡ some a
    → lookup j o.adds ≡ some b
    → Clock.compare a b ≡ unordered
    → extract_node_id a ≡ extract_node_id b
    → (lookup j (merge_with s o).adds ≡ some b) × (lookup j (merge_with o s).adds ≡ some a)
unfolding merge_with
merge_swaps_tied s o j a b v w p q u e =
    let ab = resolve_tied a b u e in
    let ba = resolve_tied b a (ground (arith, compare-opposite a b)) (sym e) in
    (
      ground (arith, lookup-merge_elements s.adds o.adds j v.adds_map w.adds_map),
      ground (arith, lookup-merge_elements o.adds s.adds j w.adds_map v.adds_map),
    )
