-- ===== src/Clock/Pruning.antt =====
-- `Prune` and `GetActiveNodes` of CRDT/crdt.go.
use gossip_pubsub.Base.{
  ℕ, String, ◌≡◌, refl, Bool, true, false, none, some, [], ◌∷◌, eq_iff, if◌then◌else◌, is_some,
  arith,
}
use gossip_pubsub.GoMap.{GoMap, lookup, insert, for_range, IsMap}
use gossip_pubsub.GoMap.Laws.{lookup-insert, lookup-delete, delete-IsMap}
use gossip_pubsub.GoMap.Range.{for_range_inv}
use gossip_pubsub.Clock.{VectorClock, add_node, prune_node, prune, get_active_nodes}

-- active[k], where a missing key reads as false.
abbrev pub is_active : GoMap Bool → String → Bool
is_active active k = elim (lookup k active) [ none ↦ false | some b ↦ b ]

lookup-prune_loop :
    (active : GoMap Bool) (m s : VectorClock) (k : String)
    → lookup k (for_range (prune_node active) m s) ≡ (
        if is_active active k
        then lookup k s
        else if is_some (lookup k m)
        then none
        else lookup k s)
unfolding lookup for_range prune_node
lookup-prune_loop active [] s k = ground arith
lookup-prune_loop active ((j, v) ∷ m) s k =
    ground (
      arith,
      eq_iff j k,
      lookup-prune_loop active m (prune_node active j v s) k,
      lookup-delete j k s,
    )

-- Pruning keeps the counters of the active nodes, and no others.
pub lookup-prune :
    (active : GoMap Bool) (c : VectorClock) (k : String)
    → lookup k (prune active c) ≡ (if is_active active k then lookup k c else none)
unfolding prune
lookup-prune active c k = ground (arith, lookup-prune_loop active c c k)

pub prune-IsMap : (active : GoMap Bool) (c : VectorClock) → IsMap c → IsMap (prune active c)
unfolding prune
prune-IsMap active c h = for_range_inv IsMap (prune_node active) round c c h
  where
    round : (k : String) (v : ℕ) (s : VectorClock) → IsMap s → IsMap (prune_node active k v s)
    round k v s q = unfold prune_node in ground (arith, delete-IsMap k s q)

lookup-add_nodes {ℓ} :
    {V : Type ℓ} (m : GoMap V) (r : GoMap Bool) (j : String)
    → lookup j (for_range add_node m r) ≡ (if is_some (lookup j m) then some true else lookup j r)
unfolding lookup for_range add_node
lookup-add_nodes [] r j = refl
lookup-add_nodes ((k, v) ∷ m) r j =
    ground (arith, eq_iff k j, lookup-add_nodes m (insert k true r) j, lookup-insert k j true r)

-- The active nodes are those with a counter, so pruning by a clock's own nodes changes nothing.
get_active_nodes_iff :
    (c : VectorClock) (k : String) → is_active (get_active_nodes c) k ≡ is_some (lookup k c)
unfolding get_active_nodes lookup
get_active_nodes_iff c k = ground (arith, lookup-add_nodes c [] k)
