-- ===== src/Peer/Kept.antt =====
-- What `CreatePeerID` of Peer/Peer.go writes is what the loaders read.
use gossip_pubsub.Base.{
  String, ◌≡◌, refl, subst, none, ok, Result-cases, Option-cases, inl, inr, arith,
}
use gossip_pubsub.Peer.{
  Bytes, PeerConfig, System, SystemLaws, peer_file, save_config, save_key, create_peer_id,
  load_peer_id, load_private_key,
}

module _ {W K E : Type 0} (sys : System W K E) (laws : SystemLaws sys) where
  -- The file holds the key and the id that belongs to it.
  pub record Holds (id : String) (w : W) : Type 0 where
    pub key : K
    pub loaded : load_private_key sys w ≡ ok key
    pub id_of : sys.peer_id_of key ≡ ok id
    pub peer_id : load_peer_id sys w ≡ (ok id, w)

  save_config-Holds :
      (k : K) (id : String) (key_bytes bytes : Bytes) (w w' : W)
      → sys.peer_id_of k ≡ ok id
      → sys.marshal_private_key k ≡ ok key_bytes
      → sys.marshal_config (record { peer_id = id; priv_key = key_bytes }) ≡ ok bytes
      → sys.write_file peer_file bytes w ≡ (none, w')
      → Holds id w'
  unfolding load_private_key load_peer_id
  save_config-Holds k id key_bytes bytes w w' a b c d =
      let config : PeerConfig = record { peer_id = id; priv_key = key_bytes } in
      let read = laws.read-write peer_file bytes w w' d in
      let parsed = laws.unmarshal-marshal_config config bytes c in
      record {
        key = k;
        loaded = rw (read, parsed, load_private_key) (laws.unmarshal-marshal_key k key_bytes b);
        id_of = a;
        peer_id = rw (read, parsed, load_peer_id) refl;
      }

  save_key-Holds : (k : K) (id : String) (w w' : W) → save_key sys k w ≡ (ok id, w') → Holds id w'
  unfolding save_key save_config
  save_key-Holds k id w w' h = elim (Result-cases (sys.peer_id_of k)) [
    | inl (e, p) ↦ ground arith
    | inr (id', p) ↦ elim (Result-cases (sys.marshal_private_key k)) [
      | inl (e, q) ↦ ground arith
      | inr (key_bytes, q) ↦
          let config : PeerConfig = record { peer_id = id'; priv_key = key_bytes } in
          elim (Result-cases (sys.marshal_config config)) [
            | inl (e, r) ↦ ground arith
            | inr (bytes, r) ↦ elim (Option-cases (sys.write_file peer_file bytes w).0) [
              | inr (e, t) ↦ ground arith
              | inl t ↦
                  let same : id' ≡ id = ground arith in
                  let written : sys.write_file peer_file bytes w ≡ (none, w') = ground arith in
                  subst (λ i. Holds i w') same
                    (save_config-Holds k id' key_bytes bytes w w' p q r written)
            ]
          ]
    ]
  ]

  -- Where files, keys and configurations read back, an identity that `CreatePeerID` returns is kept:
  -- afterwards `LoadPeerID` returns it and changes nothing, and `LoadPrivateKey` returns a key to
  -- which it belongs.
  pub create_peer_id-Holds :
      (id : String) (w w' : W) → create_peer_id sys w ≡ (ok id, w') → Holds id w'
  unfolding create_peer_id
  create_peer_id-Holds id w w' h = elim (Result-cases (sys.generate_key w).0) [
    | inl (e, p) ↦ ground arith
    | inr (k, p) ↦ save_key-Holds k id (sys.generate_key w).1 w' (ground arith)
  ]

  -- `LoadPeerID` is idempotent: what it returns once, it returns from then on, with no more change.
  load_peer_id_again :
      (id : String) (w w' : W)
      → load_peer_id sys w ≡ (ok id, w')
      → load_peer_id sys w' ≡ (ok id, w')
  unfolding load_peer_id
  load_peer_id_again id w w' h = elim (Result-cases (sys.read_file peer_file w)) [
    | inl (e, p) ↦ elim (Result-cases (create_peer_id sys w).0) [
      | inl (c, q) ↦ ground arith
      | inr (id', q) ↦ (create_peer_id-Holds id w w' (ground arith)).peer_id
    ]
    | inr (bytes, p) ↦ elim (Result-cases (sys.unmarshal_config bytes)) [
      | inl (e, q) ↦ ground arith
      | inr (config, q) ↦
          let same : w ≡ w' = ground arith in subst (λ v. load_peer_id sys v ≡ (ok id, w')) same h
    ]
  ]
