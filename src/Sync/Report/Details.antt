-- ===== src/Sync/Report/Details.antt =====
-- What `GetStats` of CRDTSync/implementation.go says of each object.
use gossip_pubsub.Base.{length, ℕ, String, ◌≡◌, refl, ap, ◌∙◌, Option, none, some, [], arith}
use gossip_pubsub.GoMap.{lookup, IsMap}
use gossip_pubsub.GoMap.Laws.{lookup-insert}
use gossip_pubsub.GoMap.Range.{Writes, made, lookup-for_range_make}
use gossip_pubsub.LwwSet
use gossip_pubsub.Counter
use gossip_pubsub.Crdt.{Crdt, lww_set, counter}
use gossip_pubsub.MemStore
use gossip_pubsub.MemStore.{export_crdt}
use gossip_pubsub.MemStore.Export.{exported, lookup-get_all_crdts}
use gossip_pubsub.Engine.{Engine, get_all_crdts, get_set, get_counter}
use gossip_pubsub.Sync.{Node}
use gossip_pubsub.Sync.Delivered.{get_all_crdts-IsMap}
use gossip_pubsub.Sync.Report.{
  Detail, lwwset_detail, counter_detail, elements_at, value_at, detail_of, add_detail, get_stats,
}

-- The detail of an object: the number of its visible elements, or its value.
abbrev pub detail : Option Crdt → Option Detail
detail none = none
detail (some (lww_set s)) = some (lwwset_detail (length (LwwSet.get_elements s)))
detail (some (counter c)) = some (counter_detail (Counter.value c))

add_detail-Writes : (e : Engine) → Writes (add_detail e) (detail_of e)
unfolding add_detail
add_detail-Writes e k j c r = lookup-insert k j (detail_of e k c) r

elements_at-lookup :
    (e : Engine) (j : String) (s : LwwSet.LwwSet)
    → lookup j e.mem.objects ≡ some (lww_set s)
    → elements_at j e ≡ LwwSet.get_elements s
unfolding elements_at get_set MemStore.get_set_elements
elements_at-lookup e j s p = ground arith

value_at-lookup :
    (e : Engine) (j : String) (c : Counter.Counter)
    → lookup j e.mem.objects ≡ some (counter c)
    → value_at j e ≡ Counter.value c
unfolding value_at get_counter MemStore.get_counter_value
value_at-lookup e j c p = ground arith

detail-exported :
    (e : Engine) (j : String) (o : Option Crdt)
    → lookup j e.mem.objects ≡ o
    → made (add_detail e) (detail_of e) j (exported j o) none ≡ detail o
unfolding detail_of export_crdt
detail-exported e j none p = refl
detail-exported e j (some (lww_set s)) p =
    ap (λ l. some (lwwset_detail (length l))) (elements_at-lookup e j s p)
detail-exported e j (some (counter c)) p =
    ap (λ v. some (counter_detail v)) (value_at-lookup e j c p)

-- The details hold one entry for each object of the engine, and no other: the number of visible
-- elements of a set, or the value of a counter.
lookup-crdt_details :
    (peers sync_interval : ℕ) (n : Node) (j : String)
    → IsMap n.engine.mem.objects
    → lookup j (get_stats peers sync_interval n).crdt_details
      ≡ detail (lookup j n.engine.mem.objects)
unfolding get_stats lookup get_all_crdts
lookup-crdt_details peers sync_interval n j h =
    lookup-for_range_make (add_detail n.engine) (detail_of n.engine) (add_detail-Writes n.engine)
      (get_all_crdts n.engine) [] j (get_all_crdts-IsMap n.engine)
    ∙ ap (λ o. made (add_detail n.engine) (detail_of n.engine) j o none)
        (lookup-get_all_crdts n.engine.mem j h)
    ∙ detail-exported n.engine j (lookup j n.engine.mem.objects) refl
