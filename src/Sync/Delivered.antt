-- ===== src/Sync/Delivered.antt =====
-- From the engine of one node of CRDTSync/implementation.go to that of another: what the message of
-- `syncCRDTState` holds, and what it makes of the receiver.
use gossip_pubsub.Base.{
  Result-cases, String, ◌≡◌, refl, ap, ◌∙◌, Option, none, some, [], ◌∷◌, ◌==◌, eq_iff,
  if◌then◌else◌, ok, err, inl, inr, arith,
}
use gossip_pubsub.GoMap.{GoMap, lookup, for_range, IsMap}
use gossip_pubsub.GoMap.Laws.{lookup-insert, insert-IsMap}
use gossip_pubsub.GoMap.Range.{for_range_inv}
use gossip_pubsub.Crdt.{Crdt}
use gossip_pubsub.MemStore.{export_object}
use gossip_pubsub.MemStore
use gossip_pubsub.Engine.{Engine, get_all_crdts}
use gossip_pubsub.Sync.{
  Environment, Node, encode_crdt, encode_object, sync_message, decode_crdt, apply_message,
}
use gossip_pubsub.Sync.Applied.{received, applied, lookup-apply_crdt_sync}

pub get_all_crdts-IsMap : (e : Engine) → IsMap (get_all_crdts e)
unfolding get_all_crdts MemStore.get_all_crdts export_object
get_all_crdts-IsMap e =
    for_range_inv IsMap export_object (λ k c r h. insert-IsMap k _ r h) e.mem.objects [] tt

module _ {W E : Type 0} (env : Environment W E) where
  -- What the message holds for an object; one that does not marshal leaves what was there.
  abbrev pub encoded : Option Crdt → Option String → Option String
  encoded none old = old
  encoded (some c) old = elim (encode_crdt env c) [ err e ↦ old | ok raw ↦ some raw ]

  lookup-encode_object :
      (k j : String) (c : Crdt) (r : GoMap String)
      → lookup j (encode_object env k c r)
        ≡ (if k == j then encoded (some c) (lookup k r) else lookup j r)
  unfolding encode_object
  lookup-encode_object k j c r = elim (Result-cases (encode_crdt env c)) [
    | inl (e, p) ↦ rw (p, encode_object, encoded) (ground (arith, eq_iff k j))
    | inr (raw, p) ↦ rw (p, encode_object, encoded) (lookup-insert k j raw r)
  ]

  pub lookup-encode_all :
      (m : GoMap Crdt) (j : String) (r : GoMap String)
      → IsMap m
      → lookup j (for_range (encode_object env) m r) ≡ encoded (lookup j m) (lookup j r)
  unfolding for_range lookup
  lookup-encode_all [] j r h = refl
  lookup-encode_all ((k, c) ∷ m) j r h = ground (
    arith,
    eq_iff k j,
    lookup-encode_object k j c r,
    lookup-encode_all m j (encode_object env k c r) h.1,
  )

  pub encode_all-IsMap : (m : GoMap Crdt) → IsMap (for_range (encode_object env) m [])
  unfolding encode_object
  encode_all-IsMap m = for_range_inv IsMap (encode_object env) keep m [] tt
    where
      keep : (k : String) (c : Crdt) (r : GoMap String) → IsMap r → IsMap (encode_object env k c r)
      keep k c r h = elim (Result-cases (encode_crdt env c)) [
        | inl (e, p) ↦ rw (p, encode_object) h
        | inr (raw, p) ↦ rw (p, encode_object) (insert-IsMap k raw r h)
      ]

  -- For an object that the sender exports and marshals, and what the receiver's decoder reads back, the
  -- message of `syncCRDTState` makes the receiver store it, where it has none, or the merge of its
  -- own object with it, unless that merge fails.
  pub sync_message_delivers :
      (n : Node) (w : W) (b : Engine) (j raw : String) (c d : Crdt)
      → lookup j (get_all_crdts n.engine) ≡ some c
      → encode_crdt env c ≡ ok raw
      → decode_crdt env raw ≡ some d
      → lookup j (apply_message env (sync_message env n w) b).mem.objects
        ≡ received (lookup j (get_all_crdts b)) (lookup j b.mem.objects) d
  unfolding apply_message sync_message lookup
  sync_message_delivers n w b j raw c d held p q =
      let sent = for_range (encode_object env) (get_all_crdts n.engine) [] in
      let carried : lookup j sent ≡ some raw =
        lookup-encode_all (get_all_crdts n.engine) j [] (get_all_crdts-IsMap n.engine)
        ∙ ap (λ o. encoded o none) held
        ∙ rw (p, encoded) refl in
      lookup-apply_crdt_sync env sent j b (encode_all-IsMap (get_all_crdts n.engine))
      ∙ ap (λ o. applied env o (lookup j (get_all_crdts b)) (lookup j b.mem.objects)) carried
      ∙ rw (q, applied) refl
