-- ===== src/Sync/Applied.antt =====
-- What a synchronisation message of CRDTSync/implementation.go does to the objects of the engine.
use gossip_pubsub.Base.{
  Result-cases, refl, ok, err, String, ◌≡◌, subst, ap, ◌∙◌, false, Option, none, some, [], ◌∷◌,
  ◌==◌, eq_iff, if◌then◌else◌, Option-cases, Bool-cases, inl, inr, arith,
}
use gossip_pubsub.GoMap.{GoMap, lookup, for_range, IsMap}
use gossip_pubsub.GoMap.Laws.{lookup-insert}
use gossip_pubsub.Crdt
use gossip_pubsub.Crdt.{Crdt}
use gossip_pubsub.Engine.{Engine, get_all_crdts, apply_merged_crdt}
use gossip_pubsub.Sync.{Environment, decode_crdt, merge_remote, apply_object, apply_crdt_sync}

-- What a node makes of a received object, where it exports `own` and holds `old` under its key.
abbrev pub received : Option Crdt → Option Crdt → Crdt → Option Crdt
received none old remote = some remote
received (some own) old remote = elim (Crdt.merge own remote) [ err e ↦ old | ok m ↦ some m ]

module _ {W E : Type 0} (env : Environment W E) where
  -- What the loop writes, in terms of its own helper.
  abbrev pub taken : Option String → Option Crdt → Option Crdt → Option Crdt
  taken none our old = old
  taken (some raw) our old = elim (decode_crdt env raw) [
    | none ↦ old
    | some remote ↦ elim (merge_remote env our remote) [ none ↦ old | some crdt ↦ some crdt ]
  ]

  lookup-apply_object :
      (ours : GoMap Crdt) (key raw j : String) (e : Engine)
      → lookup j (apply_object env ours key raw e).mem.objects ≡ (
          if key == j
          then taken (some raw) (lookup key ours) (lookup j e.mem.objects)
          else lookup j e.mem.objects)
  unfolding apply_object apply_merged_crdt
  lookup-apply_object ours key raw j e = elim (Option-cases (decode_crdt env raw)) [
    | inl p ↦ rw (p, apply_object, taken) (ground arith)
    | inr (remote, p) ↦ elim (Option-cases (merge_remote env (lookup key ours) remote)) [
      | inl q ↦ rw (p, q, apply_object, taken) (ground arith)
      | inr (crdt, q) ↦ rw (p, q, apply_object, taken) (lookup-insert key j crdt e.mem.objects)
    ]
  ]

  module _ (ours : GoMap Crdt) (k raw : String) (m : GoMap String) (j : String) (e : Engine)
      (ih : lookup j
          (for_range (apply_object env ours) m (apply_object env ours k raw e)).mem.objects
        ≡ taken
            (lookup j m)
            (lookup j ours)
            (lookup j (apply_object env ours k raw e).mem.objects)) where
    apply_here :
        lookup k m ≡ none
        → k ≡ j
        → lookup j (for_range (apply_object env ours) m (apply_object env ours k raw e)).mem.objects
          ≡ taken (some raw) (lookup j ours) (lookup j e.mem.objects)
    apply_here fresh same =
        let absent : lookup j m ≡ none = subst (λ i. lookup i m ≡ none) same fresh in
        let at = lookup-apply_object ours k raw j e in
        let written : lookup j (apply_object env ours k raw e).mem.objects
            ≡ taken (some raw) (lookup k ours) (lookup j e.mem.objects) =
          subst
            (λ b. lookup j (apply_object env ours k raw e).mem.objects ≡ (
              if b
              then taken (some raw) (lookup k ours) (lookup j e.mem.objects)
              else lookup j e.mem.objects))
            ((eq_iff k j).1 same) at in
        ih
        ∙ ap (λ o. taken o (lookup j ours) (lookup j (apply_object env ours k raw e).mem.objects))
            absent
        ∙ written
        ∙ ap (λ i. taken (some raw) (lookup i ours) (lookup j e.mem.objects)) same

    apply_elsewhere :
        (k == j) ≡ false
        → lookup j (for_range (apply_object env ours) m (apply_object env ours k raw e)).mem.objects
          ≡ taken (lookup j m) (lookup j ours) (lookup j e.mem.objects)
    apply_elsewhere other =
        let kept : lookup j (apply_object env ours k raw e).mem.objects ≡ lookup j e.mem.objects =
          subst
            (λ b. lookup j (apply_object env ours k raw e).mem.objects ≡ (
              if b
              then taken (some raw) (lookup k ours) (lookup j e.mem.objects)
              else lookup j e.mem.objects))
            other (lookup-apply_object ours k raw j e) in
        ih ∙ ap (taken (lookup j m) (lookup j ours)) kept

  pub lookup-apply_all :
      (ours : GoMap Crdt) (m : GoMap String) (j : String) (e : Engine)
      → IsMap m
      → lookup j (for_range (apply_object env ours) m e).mem.objects
        ≡ taken (lookup j m) (lookup j ours) (lookup j e.mem.objects)
  unfolding for_range lookup
  lookup-apply_all ours [] j e h = refl
  lookup-apply_all ours ((k, raw) ∷ m) j e h =
      let ih = lookup-apply_all ours m j (apply_object env ours k raw e) h.1 in
      elim (Bool-cases (k == j)) [
        | inl same ↦ rw (same, taken) (apply_here ours k raw m j e ih h.0 ((eq_iff k j).0 same))
        | inr other ↦ rw (other, taken) (apply_elsewhere ours k raw m j e ih other)
      ]

  -- What stands under a key after a message gave `raw` for it: an object that does not decode is
  -- passed over.
  abbrev pub applied : Option String → Option Crdt → Option Crdt → Option Crdt
  applied none own old = old
  applied (some raw) own old = elim (decode_crdt env raw) [
    | none ↦ old
    | some remote ↦ received own old remote
  ]

  merge_remote-received :
      (own old : Option Crdt) (remote : Crdt)
      → elim (merge_remote env own remote) [ none ↦ old | some crdt ↦ some crdt ]
        ≡ received own old remote
  unfolding merge_remote
  merge_remote-received none old remote = refl
  merge_remote-received (some own) old remote = elim (Result-cases (Crdt.merge own remote)) [
    | inl (e, p) ↦ rw (p, merge_remote, received) refl
    | inr (m, p) ↦ rw (p, merge_remote, received) refl
  ]

  taken-applied :
      (raw : Option String) (own old : Option Crdt) → taken raw own old ≡ applied raw own old
  taken-applied none own old = refl
  taken-applied (some raw) own old = elim (Option-cases (decode_crdt env raw)) [
    | inl p ↦ rw (p, taken, applied) refl
    | inr (remote, p) ↦ rw (p, taken, applied) (merge_remote-received own old remote)
  ]

  -- A synchronisation message decides each key by itself: a key that it does not name, or whose
  -- object does not decode or does not merge, keeps its object; an object that decodes is stored
  -- where the engine has none, and else the merge of the engine's object with it is stored.
  pub lookup-apply_crdt_sync :
      (m : GoMap String) (j : String) (e : Engine)
      → IsMap m
      → lookup j (apply_crdt_sync env m e).mem.objects
        ≡ applied (lookup j m) (lookup j (get_all_crdts e)) (lookup j e.mem.objects)
  unfolding apply_crdt_sync
  lookup-apply_crdt_sync m j e h =
      lookup-apply_all (get_all_crdts e) m j e h
      ∙ taken-applied (lookup j m) (lookup j (get_all_crdts e)) (lookup j e.mem.objects)
