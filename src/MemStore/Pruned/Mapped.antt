-- ===== src/MemStore/Pruned/Mapped.antt =====
-- The loops of `PruneVectorClocks` (CRDT/MemoryStore.go), each of which writes every key of a map
-- once, as maps over the values.
use gossip_pubsub.Base.{◌≡◌, refl, Bool}
use gossip_pubsub.GoMap.{GoMap, for_range, IsMap}
use gossip_pubsub.GoMap.Values.{map_values, for_range-map_values}
use gossip_pubsub.Clock
use gossip_pubsub.Clock.{VectorClock}
use gossip_pubsub.MemStore.{MemStore, prune_element, prune_crdt, prune_object, prune_vector_clocks}

pub elements-map_values :
    (active : GoMap Bool) (m : GoMap VectorClock)
    → IsMap m
    → for_range (prune_element active) m m ≡ map_values (Clock.prune active) m
unfolding prune_element
elements-map_values active m h =
    for_range-map_values (Clock.prune active) (prune_element active) (λ k c r. refl) m h

pub prune_vector_clocks-map_values :
    (active : GoMap Bool) (s : MemStore)
    → IsMap s.objects
    → (prune_vector_clocks active s).objects ≡ map_values (prune_crdt active) s.objects
unfolding prune_vector_clocks prune_object
prune_vector_clocks-map_values active s h =
    for_range-map_values (prune_crdt active) (prune_object active) (λ k c r. refl) s.objects h
