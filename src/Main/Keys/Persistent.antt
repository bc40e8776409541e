-- ===== src/Main/Keys/Persistent.antt =====
-- The host of main.go keeps its key from one start to the next.
use gossip_pubsub.Base.{
  String, ◌≡◌, ◌==◌, ap, subst, ◌∙◌, none, ok, err, Result-cases, Option-cases, Bool-cases, inl,
  inr, arith,
}
use gossip_pubsub.Peer.{System, SystemLaws, create_peer_id, load_private_key}
use gossip_pubsub.Peer.Kept.{Holds, create_peer_id-Holds}
use gossip_pubsub.Main.Keys.{save_generated, load_or_generate_key, peer_key, host_key}

module _ {W K E : Type 0} (sys : System W K E) (laws : SystemLaws sys) where
  save_generated_again :
      (file : String) (k k' : K) (w w' : W)
      → save_generated sys file k w ≡ (ok k', w')
      → load_or_generate_key sys file w' ≡ (ok k', w')
  unfolding save_generated load_or_generate_key
  save_generated_again file k k' w w' h = elim (Result-cases (sys.marshal_private_key k)) [
    | inl (e, p) ↦ ground arith
    | inr (bytes, p) ↦ elim (Option-cases (sys.write_file file bytes w).0) [
      | inr (e, q) ↦ ground arith
      | inl q ↦
          let same : k ≡ k' = ground arith in
          let written : sys.write_file file bytes w ≡ (none, w') = ground arith in
          let read = laws.read-write file bytes w w' written in
          subst (λ j. load_or_generate_key sys file w' ≡ (ok j, w')) same
            (rw (read, load_or_generate_key)
              (ap (λ r. (r, w')) (laws.unmarshal-marshal_key k bytes p)))
    ]
  ]

  -- The key that `loadOrGenerateKey` returns, loaded or generated, is returned again from then on,
  -- with no change to the files.
  load_or_generate_key_again :
      (file : String) (k : K) (w w' : W)
      → load_or_generate_key sys file w ≡ (ok k, w')
      → load_or_generate_key sys file w' ≡ (ok k, w')
  unfolding load_or_generate_key
  load_or_generate_key_again file k w w' h = elim (Result-cases (sys.read_file file w)) [
    | inr (bytes, p) ↦
        let same : w ≡ w' = ground arith in
        subst (λ v. load_or_generate_key sys file v ≡ (ok k, w')) same h
    | inl (e, p) ↦ elim (Result-cases (sys.generate_key w).0) [
      | inl (g, q) ↦ ground arith
      | inr (priv, q) ↦ save_generated_again file priv k (sys.generate_key w).1 w' (ground arith)
    ]
  ]

  peer_key_again : (k : K) (w w' : W) → peer_key sys w ≡ (ok k, w') → peer_key sys w' ≡ (ok k, w')
  unfolding peer_key
  peer_key_again k w w' h = elim (Result-cases (load_private_key sys w)) [
    | inr (priv, p) ↦
        let same : w ≡ w' = ground arith in subst (λ v. peer_key sys v ≡ (ok k, w')) same h
    | inl (e, p) ↦ elim (Result-cases (create_peer_id sys w).0) [
      | inl (c, q) ↦ ground arith
      | inr (id, q) ↦ elim (Result-cases (load_private_key sys (create_peer_id sys w).1)) [
        | inl (l, r) ↦ ground arith
        | inr (priv, r) ↦
            let end : (create_peer_id sys w).1 ≡ w' = ground arith in
            let same : priv ≡ k = ground arith in
            let loaded : load_private_key sys w' ≡ ok k =
              subst (λ v. load_private_key sys v ≡ ok k) end (r ∙ ap ok same) in
            rw (loaded, peer_key)
      ]
    ]
  ]

  -- Where files, keys and configurations read back, the host starts with the same key again: what
  -- `createHost` takes as its key, from the key file or from Peer/Peer.json, loaded or created, it
  -- takes at every later start, with no change to the files.
  pub host_key_again :
      (file : String) (k : K) (w w' : W)
      → host_key sys file w ≡ (ok k, w')
      → host_key sys file w' ≡ (ok k, w')
  unfolding host_key
  host_key_again file k w w' h = elim (Bool-cases (file == "")) [
    | inl p ↦ rw (p, host_key) (peer_key_again k w w' (rw (p, host_key) at h))
    | inr p ↦ elim (Result-cases (load_or_generate_key sys file w).0) [
      | inl (e, q) ↦ ground arith
      | inr (k', q) ↦
          let again = load_or_generate_key_again file k w w' (ground arith) in ground arith
    ]
  ]

  -- Without a key file, a Peer/Peer.json that does not load is replaced, whatever it holds: if the
  -- start succeeds, the host's key is a new one that the file then holds with its id.
  peer_key_replaced :
      (k : K) (e : E) (w w' : W)
      → load_private_key sys w ≡ err e
      → peer_key sys w ≡ (ok k, w')
      → (id : String) × (create_peer_id sys w ≡ (ok id, w'))
        × Holds sys laws id w'
        × (load_private_key sys w' ≡ ok k)
  unfolding peer_key
  peer_key_replaced k e w w' p h = elim (Result-cases (create_peer_id sys w).0) [
    | inl (c, q) ↦ ground arith
    | inr (id, q) ↦ elim (Result-cases (load_private_key sys (create_peer_id sys w).1)) [
      | inl (l, r) ↦ ground arith
      | inr (priv, r) ↦
          let created : create_peer_id sys w ≡ (ok id, w') = ground arith in
          (id, created, create_peer_id-Holds sys laws id w w' created, ground arith)
    ]
  ]
