-- ===== src/Main/Keys.antt =====
-- main.go: the key of the host: `loadOrGenerateKey` and `createHost`.
mod Examples
pub mod Persistent
use gossip_pubsub.Base.{ℕ, String, ◌≡◌, Option, none, some, Result, ok, err, ◌==◌, if◌then◌else◌}
use gossip_pubsub.Peer.{Bytes, System, create_peer_id, load_private_key}

pub data HostError (E : Type 0) : Type 0 where
  -- failed to load/generate key, to create peer ID, to load newly created private key
  key_failed peer_id_failed reload_failed host_failed : E → HostError E

module _ {W K E : Type 0} (sys : System W K E) where
  -- Save key
  unfoldable pub save_generated : String → K → W → Result E K × W
  save_generated key_file priv w = elim (sys.marshal_private_key priv) [
    | err e ↦ (err e, w)
    | ok bytes ↦
        let (failure, w') = sys.write_file key_file bytes w in
        elim failure [ some e ↦ (err e, w') | none ↦ (ok priv, w') ]
  ]

  unfoldable pub load_or_generate_key : String → W → Result E K × W
  unfolding save_generated
  load_or_generate_key key_file w = elim (sys.read_file key_file w) [
    | ok bytes ↦ (sys.unmarshal_private_key bytes, w)
    | err e ↦
        let (generated, w') = sys.generate_key w in
        elim generated [ err g ↦ (err g, w') | ok priv ↦ save_generated key_file priv w' ]
  ]

  -- The key with no key file: that of Peer/Peer.json, which is created if it does not load.
  unfoldable pub peer_key : W → Result (HostError E) K × W
  peer_key w = elim (load_private_key sys w) [
    | ok priv ↦ (ok priv, w)
    | err e ↦
        let (created, w') = create_peer_id sys w in
        elim created [
          | err c ↦ (err (peer_id_failed c), w')
          | ok peer_id ↦ elim (load_private_key sys w') [
            | err l ↦ (err (reload_failed l), w')
            | ok priv ↦ (ok priv, w')
          ]
        ]
  ]

  -- Load or generate key using Peer package
  unfoldable pub host_key : String → W → Result (HostError E) K × W
  unfolding load_or_generate_key peer_key
  host_key key_file w =
      let (loaded, w') = load_or_generate_key key_file w in
      let from_file : Result (HostError E) K × W = elim loaded [
        | err e ↦ (err (key_failed e), w')
        | ok priv ↦ (ok priv, w')
      ] in
      let from_peer = peer_key w in if key_file == "" then from_peer else from_file

  -- libp2p.New with the identity and the port is a parameter.
  unfoldable pub create_host :
      {H : Type 0} → (ℕ → K → W → Result E H × W) → ℕ → String → W → Result (HostError E) H × W
  unfolding host_key
  create_host new_host port key_file w =
      let (key, w') = host_key key_file w in
      elim key [
        | err e ↦ (err e, w')
        | ok priv ↦
            let (host, w'') = new_host port priv w' in
            elim host [ err e ↦ (err (host_failed e), w'') | ok h ↦ (ok h, w'') ]
      ]

  -- `createCRDTHost` of main_crdt.go
  unfoldable pub create_crdt_host :
      {H : Type 0} → (ℕ → K → W → Result E H × W) → ℕ → W → Result (HostError E) H × W
  unfolding create_host
  create_crdt_host new_host port w = create_host new_host port "" w
