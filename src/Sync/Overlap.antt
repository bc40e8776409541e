-- ===== src/Sync/Overlap.antt =====
-- CRDTSync/implementation.go: what the publisher's goroutine does to the engine while
-- `applyCRDTSync` is between its copies of the objects and its writes.

use gossip_pubsub.Base.{String, ◌≡◌, refl, sym, ap, ◌∙◌, some}
use gossip_pubsub.GoMap.{GoMap, lookup, IsMap}
use gossip_pubsub.Crdt.{Crdt}
use gossip_pubsub.Engine.{Engine, get_all_crdts, get_counter}
use gossip_pubsub.Sync.{Environment, decode_crdt, merge_remote, apply_copies, apply_crdt_sync}
use gossip_pubsub.Sync.Applied.{taken, lookup-apply_all}
use gossip_pubsub.Sync.Exchange.{counter_in, get_counter-lookup}

module _ {W E : Type 0} (env : Environment W E) where
  lookup-apply_copies :
      (ours : GoMap Crdt) (sync_data : GoMap String) (j raw : String) (remote crdt : Crdt)
      (engine : Engine)
      → IsMap sync_data
      → lookup j sync_data ≡ some raw
      → decode_crdt env raw ≡ some remote
      → merge_remote env (lookup j ours) remote ≡ some crdt
      → lookup j (apply_copies env ours sync_data engine).mem.objects ≡ some crdt
  unfolding apply_copies
  lookup-apply_copies ours sync_data j raw remote crdt engine map p q m =
      lookup-apply_all env ours sync_data j engine map ∙ rw (p, taken, q, m) refl

  -- Where another goroutine makes `later` of the engine after `applyCRDTSync` copied the objects and
  -- before it writes: under each key for which the message holds an object that decodes and merges
  -- with the copy, the engine ends with the object that it would have without that, and reads the
  -- count that it would have. So an increment of that key in between is lost.
  pub apply_copies-apply_crdt_sync :
      (engine later : Engine) (sync_data : GoMap String) (j raw : String) (remote crdt : Crdt)
      → IsMap sync_data
      → lookup j sync_data ≡ some raw
      → decode_crdt env raw ≡ some remote
      → merge_remote env (lookup j (get_all_crdts engine)) remote ≡ some crdt
      → (lookup j (apply_copies env (get_all_crdts engine) sync_data later).mem.objects
          ≡ lookup j (apply_crdt_sync env sync_data engine).mem.objects)
        × (get_counter j (apply_copies env (get_all_crdts engine) sync_data later)
            ≡ get_counter j (apply_crdt_sync env sync_data engine))
  unfolding apply_crdt_sync
  apply_copies-apply_crdt_sync engine later sync_data j raw remote crdt map p q m =
      let ours = get_all_crdts engine in
      let same =
        lookup-apply_copies ours sync_data j raw remote crdt later map p q m
        ∙ sym (lookup-apply_copies ours sync_data j raw remote crdt engine map p q m) in
      (
        same,
        get_counter-lookup (apply_copies env ours sync_data later) j
            ∙ ap counter_in same
            ∙ sym (get_counter-lookup (apply_copies env ours sync_data engine) j),
      )
