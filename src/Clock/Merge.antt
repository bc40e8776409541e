-- ===== src/Clock/Merge.antt =====
-- `VectorClock.Merge` of CRDT/crdt.go is the least upper bound of two clocks.
use gossip_pubsub.Base.{
  ℕ, String, ◌≡◌, ◌↔◌, Option, none, some, [], ◌==◌, eq_iff, ltb, if◌then◌else◌, arith,
}
use gossip_pubsub.GoMap.{GoMap, lookup, for_range, IsMap, SameMap}
use gossip_pubsub.GoMap.Laws.{lookup-insert, insert-IsMap}
use gossip_pubsub.GoMap.Range.{for_range_inv, lookup-for_range}
use gossip_pubsub.Clock.{VectorClock, copy_entry, merge_node, merge}
use gossip_pubsub.Clock.Order.{LeClock, LeClock-trans}

-- The larger of two counters, where a missing one loses.
abbrev pub max_ts : Option ℕ → Option ℕ → Option ℕ
max_ts none o = o
max_ts (some x) none = some x
max_ts (some x) (some y) = some (if ltb x y then y else x)

later : ℕ → Option ℕ → ℕ
later ts none = ts
later ts (some our) = if ltb our ts then ts else our

merge_node_local :
    (k j : String) (v : ℕ) (r : VectorClock)
    → lookup j (merge_node k v r) ≡ (if k == j then some (later v (lookup k r)) else lookup j r)
unfolding merge_node later
merge_node_local k j v r = ground (arith, eq_iff k j, lookup-insert k j v r)

module _ {ℓ} {V : Type ℓ} where
  copy_entry_local :
      (k j : String) (v : V) (r : GoMap V)
      → lookup j (copy_entry k v r) ≡ (if k == j then some v else lookup j r)
  unfolding copy_entry
  copy_entry_local k j v r = lookup-insert k j v r

  -- A loop that copies entry by entry yields the same map.
  pub lookup-copy :
      (m : GoMap V) (j : String) → IsMap m → lookup j (for_range copy_entry m []) ≡ lookup j m
  unfolding lookup
  lookup-copy m j h =
      ground (arith, lookup-for_range copy_entry (λ v o. v) copy_entry_local m [] j h)

  pub copy-IsMap : (m : GoMap V) → IsMap (for_range copy_entry m [])
  unfolding copy_entry
  copy-IsMap m = for_range_inv IsMap copy_entry (λ k v s h. insert-IsMap k v s h) m [] tt

-- Each node has the larger of its two counters.
pub lookup-merge :
    (a b : VectorClock) (k : String)
    → IsMap a
    → IsMap b
    → lookup k (merge a b) ≡ max_ts (lookup k a) (lookup k b)
unfolding merge later
lookup-merge a b k ha hb = ground (
  arith,
  lookup-for_range merge_node later merge_node_local b (for_range copy_entry a []) k hb,
  lookup-copy a k ha,
)

pub merge-IsMap : (a b : VectorClock) → IsMap (merge a b)
unfolding merge
merge-IsMap a b = for_range_inv IsMap merge_node round b (for_range copy_entry a []) (copy-IsMap a)
  where
    round : (k : String) (v : ℕ) (s : VectorClock) → IsMap s → IsMap (merge_node k v s)
    round k v s h = unfold merge_node in ground (arith, insert-IsMap k v s h)

module _ (a b : VectorClock) (ha : IsMap a) (hb : IsMap b) where
  pub le-merge_left : LeClock a (merge a b)
  le-merge_left k = ground (arith, lookup-merge a b k ha hb)

  pub le-merge_right : LeClock b (merge a b)
  le-merge_right k = ground (arith, lookup-merge a b k ha hb)

  pub merge-le : (c : VectorClock) → LeClock a c → LeClock b c → LeClock (merge a b) c
  merge-le c p q k = ground (arith, lookup-merge a b k ha hb, p k, q k)

  -- The merge is the least upper bound: it lies below a clock exactly if both clocks do.
  pub merge_lub : (c : VectorClock) → LeClock (merge a b) c ↔ (LeClock a c × LeClock b c)
  merge_lub c = (
    λ h. (
      LeClock-trans a (merge a b) c le-merge_left h,
      LeClock-trans b (merge a b) c le-merge_right h,
    ),
    λ h. merge-le c h.0 h.1,
  )

  pub merge_comm : SameMap (merge a b) (merge b a)
  merge_comm k = ground (arith, lookup-merge a b k ha hb, lookup-merge b a k hb ha)

  pub merge_assoc :
      (c : VectorClock) → IsMap c → SameMap (merge (merge a b) c) (merge a (merge b c))
  merge_assoc c hc k = ground (
    arith,
    lookup-merge (merge a b) c k (merge-IsMap a b) hc,
    lookup-merge a b k ha hb,
    lookup-merge a (merge b c) k ha (merge-IsMap b c),
    lookup-merge b c k hb hc,
  )

pub merge_idem : (a : VectorClock) → IsMap a → SameMap (merge a a) a
merge_idem a h k = ground (arith, lookup-merge a a k h h)

-- Merging replicas' clocks in any order and grouping, and more than once, yields one clock.
merge_semilattice :
    (a b c : VectorClock)
    → IsMap a
    → IsMap b
    → IsMap c
    → SameMap (merge a b) (merge b a)
      × SameMap (merge (merge a b) c) (merge a (merge b c))
      × SameMap (merge a a) a
merge_semilattice a b c ha hb hc =
    (merge_comm a b ha hb, merge_assoc a b ha hb c hc, merge_idem a ha)

-- Copies merge as the originals do.
pub merge-copied :
    (a b : VectorClock)
    → IsMap a
    → IsMap b
    → SameMap (merge (for_range copy_entry a []) (for_range copy_entry b [])) (merge a b)
merge-copied a b ha hb k = ground (
  arith,
  lookup-merge (for_range copy_entry a []) (for_range copy_entry b []) k (copy-IsMap a)
      (copy-IsMap b),
  lookup-merge a b k ha hb,
  lookup-copy a k ha,
  lookup-copy b k hb,
)
