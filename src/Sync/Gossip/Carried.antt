-- ===== src/Sync/Gossip/Carried.antt =====
-- What `syncCRDTState` and `applyCRDTSync` of CRDTSync/implementation.go carry from node to node,
-- measured by the counts of a history.
use gossip_pubsub.Base.{
  ◌≤◌, String, ◌≡◌, refl, sym, ap, ◌∙◌, Option, none, some, List, [], ◌==◌, ok, inl, inr,
  Bool-cases, Option-cases, Result-cases, arith,
}
use gossip_pubsub.GoMap.{GoMap, lookup, IsMap}
use gossip_pubsub.GoMap.Laws.{insert-IsMap}
use gossip_pubsub.GoMap.Range.{for_range_inv}
use gossip_pubsub.Crdt.{Crdt}
use gossip_pubsub.MemStore.Export.{exported, lookup-get_all_crdts}
use gossip_pubsub.Engine.{Engine, get_all_crdts, apply_merged_crdt}
use gossip_pubsub.Engine.Counted.{count_in, HasCounts}
use gossip_pubsub.Sync.{
  Environment, Message, Node, encode_crdt, decode_crdt, merge_remote, apply_object, apply_crdt_sync,
  apply_message, sync_message,
}
use gossip_pubsub.Sync.Applied.{applied, lookup-apply_crdt_sync}
use gossip_pubsub.Sync.Delivered.{encoded, lookup-encode_all, encode_all-IsMap, get_all_crdts-IsMap}
use gossip_pubsub.Sync.Gossip.{Increment}
use gossip_pubsub.Sync.Gossip.Kept.{Kept, exported-Kept, received-Kept, received-grows}

-- Every object of an engine is bounded by the history.
pub record Sound (h : List Increment) (e : Engine) : Type 0 where
  pub map : IsMap e.mem.objects
  pub kept : (j : String) → Kept h j (lookup j e.mem.objects)

-- No count is taken away.
abbrev pub Grows : Engine → Engine → Type 0
Grows e e' =
    (p j : String) → count_in p (lookup j e.mem.objects) ≤ count_in p (lookup j e'.mem.objects)

pub export-lookup :
    (e : Engine) (j : String)
    → IsMap e.mem.objects
    → lookup j (get_all_crdts e) ≡ exported j (lookup j e.mem.objects)
unfolding get_all_crdts
export-lookup e j h = lookup-get_all_crdts e.mem j h

module _ {W E : Type 0} (env : Environment W E) where
  -- encoding/json gives back the counts of a counter that it wrote.
  pub record KeepsCounts : Type 0 where
    pub reads :
        (c d : Crdt) (raw : String)
        → HasCounts (some c)
        → encode_crdt env c ≡ ok raw
        → decode_crdt env raw ≡ some d
        → HasCounts (some d) × ((p : String) → count_in p (some d) ≡ count_in p (some c))

  -- Every object of a message that decodes is bounded by the history.
  pub record Carries (h : List Increment) (sync_data : GoMap String) : Type 0 where
    pub map : IsMap sync_data
    pub kept :
        (j raw : String) (d : Crdt)
        → lookup j sync_data ≡ some raw
        → decode_crdt env raw ≡ some d
        → Kept h j (some d)

  abbrev pub MessageCarries : List Increment → Option (GoMap String) → Type 0
  MessageCarries h none = Unit
  MessageCarries h (some sync_data) = Carries h sync_data

  module _ (law : KeepsCounts) where
    encoded-Kept :
        (h : List Increment) (j raw : String) (d : Crdt) (o : Option Crdt)
        → Kept h j o
        → encoded env o none ≡ some raw
        → decode_crdt env raw ≡ some d
        → Kept h j (some d)
    encoded-Kept h j raw d none k p q = cc
    encoded-Kept h j raw d (some c) k p q = elim (Result-cases (encode_crdt env c)) [
      | inl (e, r) ↦ absurd (ground arith)
      | inr (text, r) ↦
          let same : text ≡ raw = ground arith in
          let (has, count) = law.reads c d raw k.has (r ∙ ap ok same) q in
          record { has = has; bound = λ p. omega (arith, count p, k.bound p) }
    ]

    -- The message of a sound node is bounded.
    pub sync_message-Carries :
        (h : List Increment) (n : Node) (w : W)
        → Sound h n.engine
        → MessageCarries h (sync_message env n w).sync_data
    unfolding sync_message lookup
    sync_message-Carries h n w s = record {
      map = encode_all-IsMap env (get_all_crdts n.engine);
      kept = λ j raw d p q.
          encoded-Kept h j raw d (exported j (lookup j n.engine.mem.objects))
            (exported-Kept h j (lookup j n.engine.mem.objects) (s.kept j))
            (ap (λ o. encoded env o none) (sym (export-lookup n.engine j s.map))
              ∙ sym (
                  lookup-encode_all env (get_all_crdts n.engine) j []
                    (get_all_crdts-IsMap n.engine))
              ∙ p)
            q;
    }

  module _ (h : List Increment) (m : GoMap String) (e : Engine) (carries : Carries h m)
      (s : Sound h e) where
    apply_crdt_sync-IsMap : IsMap (apply_crdt_sync env m e).mem.objects
    unfolding apply_crdt_sync apply_object apply_merged_crdt
    apply_crdt_sync-IsMap =
        for_range_inv (λ (g : Engine). IsMap g.mem.objects) (apply_object env (get_all_crdts e))
          round m e s.map
      where
        round :
            (k raw : String) (g : Engine)
            → IsMap g.mem.objects
            → IsMap (apply_object env (get_all_crdts e) k raw g).mem.objects
        round k raw g map = elim (Option-cases (decode_crdt env raw)) [
          | inl p ↦ rw (p, apply_object) map
          | inr (remote, p) ↦
              elim (Option-cases (merge_remote env (lookup k (get_all_crdts e)) remote)) [
                | inl q ↦ rw (p, q, apply_object) map
                | inr (crdt, q) ↦ rw (p, q, apply_object) (insert-IsMap k crdt g.mem.objects map)
              ]
        ]

    pub at_key :
        (j : String)
        → lookup j (apply_crdt_sync env m e).mem.objects
          ≡ applied env (lookup j m) (exported j (lookup j e.mem.objects)) (lookup j e.mem.objects)
    at_key j =
        lookup-apply_crdt_sync env m j e carries.map
        ∙ ap (λ o. applied env (lookup j m) o (lookup j e.mem.objects)) (export-lookup e j s.map)

    applied-Kept :
        (j : String) (o : Option String)
        → lookup j m ≡ o
        → Kept h j (applied env o (exported j (lookup j e.mem.objects)) (lookup j e.mem.objects))
          × ((p : String)
              → count_in p (lookup j e.mem.objects)
                ≤ count_in p
                    (applied env o (exported j (lookup j e.mem.objects)) (lookup j e.mem.objects)))
    applied-Kept j none q = (s.kept j, λ p. omega arith)
    applied-Kept j (some raw) q =
        let old = lookup j e.mem.objects in
        elim (Option-cases (decode_crdt env raw)) [
          | inl r ↦ rw (r, applied) (s.kept j, λ p. omega arith)
          | inr (remote, r) ↦
              let d = carries.kept j raw remote q r in
              rw (r, applied)
                (
                  received-Kept h j (exported j old) old remote (exported-Kept h j old (s.kept j))
                      (s.kept j) d,
                  λ p. received-grows j p old remote (s.kept j).has d.has,
                )
        ]

    apply_crdt_sync-Sound : Sound h (apply_crdt_sync env m e) × Grows e (apply_crdt_sync env m e)
    apply_crdt_sync-Sound = (
      record {
        map = apply_crdt_sync-IsMap;
        kept = λ j. rw (at_key j) (applied-Kept j (lookup j m) refl).0;
      },
      λ p j. rw (at_key j) ((applied-Kept j (lookup j m) refl).1 p),
    )

  -- A bounded message keeps a sound engine sound, and takes no count away.
  pub apply_message-Sound :
      (h : List Increment) (msg : Message) (e : Engine)
      → MessageCarries h msg.sync_data
      → Sound h e
      → Sound h (apply_message env msg e) × Grows e (apply_message env msg e)
  unfolding apply_message
  apply_message-Sound h msg e c s = go msg.sync_data refl c
    where
      go :
          (o : Option (GoMap String))
          → msg.sync_data ≡ o
          → MessageCarries h o
          → Sound h (apply_message env msg e) × Grows e (apply_message env msg e)
      go none q d = rw (q, apply_message) (s, λ p j. omega arith)
      go (some m) q d = elim (Bool-cases (msg.kind == "sync")) [
        | inl sync ↦ rw (q, sync, apply_message) (apply_crdt_sync-Sound h m e d s)
        | inr other ↦ rw (q, other, apply_message) (s, λ p j. omega arith)
      ]
