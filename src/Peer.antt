-- ===== src/Peer.antt =====
-- Peer/Peer.go: the peer identity that is kept in Peer/Peer.json.
pub mod Examples
pub mod Kept
use gossip_pubsub.Base.{ℕ, String, ◌≡◌, Option, none, some, List, Result, ok, err}

abbrev pub Bytes : Type 0
Bytes = List ℕ

pub record PeerConfig : Type 0 where
  pub peer_id : String
  pub priv_key : Bytes

-- The code outside the repository: files, encoding/json and libp2p's keys. `W` is the state of the
-- world, `K` the private keys, `E` the errors.
pub record System (W K E : Type 0) : Type 0 where
  -- os.ReadFile and os.WriteFile
  pub read_file : String → W → Result E Bytes
  pub write_file : String → Bytes → W → Option E × W
  -- crypto.GenerateKeyPairWithReader
  pub generate_key : W → Result E K × W
  -- peer.IDFromPublicKey(priv.GetPublic()), as a text
  pub peer_id_of : K → Result E String
  pub marshal_private_key : K → Result E Bytes
  pub unmarshal_private_key : Bytes → Result E K
  -- json.Marshal and json.Unmarshal of a PeerConfig
  pub marshal_config : PeerConfig → Result E Bytes
  pub unmarshal_config : Bytes → Result E PeerConfig

-- What the code relies on: a file that was written reads back, also later keys and configurations
-- that were marshalled.
pub record SystemLaws {W K E : Type 0} (sys : System W K E) : Type 0 where
  pub read-write :
      (path : String) (bytes : Bytes) (w w' : W)
      → sys.write_file path bytes w ≡ (none, w')
      → sys.read_file path w' ≡ ok bytes
  pub unmarshal-marshal_key :
      (k : K) (bytes : Bytes)
      → sys.marshal_private_key k ≡ ok bytes
      → sys.unmarshal_private_key bytes ≡ ok k
  pub unmarshal-marshal_config :
      (config : PeerConfig) (bytes : Bytes)
      → sys.marshal_config config ≡ ok bytes
      → sys.unmarshal_config bytes ≡ ok config

pub data PeerError (E : Type 0) : Type 0 where
  create_failed unmarshal_failed : E → PeerError E

abbrev pub peer_file : String
peer_file = "Peer/Peer.json"

module _ {W K E : Type 0} (sys : System W K E) where
  -- The end of `CreatePeerID`: os.WriteFile
  unfoldable pub save_config : String → Bytes → W → Result E String × W
  save_config peer_id bytes w =
      let (failure, w') = sys.write_file peer_file bytes w in
      elim failure [ some e ↦ (err e, w') | none ↦ (ok peer_id, w') ]

  -- From the key on: its id, the configuration and the file.
  unfoldable pub save_key : K → W → Result E String × W
  unfolding save_config
  save_key priv w = elim (sys.peer_id_of priv) [
    | err e ↦ (err e, w)
    | ok peer_id ↦ elim (sys.marshal_private_key priv) [
      | err e ↦ (err e, w)
      | ok priv_bytes ↦
          elim (sys.marshal_config (record { peer_id = peer_id; priv_key = priv_bytes })) [
            | err e ↦ (err e, w)
            | ok bytes ↦ save_config peer_id bytes w
          ]
    ]
  ]

  unfoldable pub create_peer_id : W → Result E String × W
  unfolding save_key
  create_peer_id w =
      let (generated, w') = sys.generate_key w in
      elim generated [ err e ↦ (err e, w') | ok priv ↦ save_key priv w' ]

  unfoldable pub load_peer_id : W → Result (PeerError E) String × W
  unfolding create_peer_id
  load_peer_id w = elim (sys.read_file peer_file w) [
    | err e ↦
        let (created, w') = create_peer_id w in
        elim created [ err c ↦ (err (create_failed c), w') | ok peer_id ↦ (ok peer_id, w') ]
    | ok bytes ↦ elim (sys.unmarshal_config bytes) [
      | err e ↦ (err (unmarshal_failed e), w)
      | ok config ↦ (ok config.peer_id, w)
    ]
  ]

  unfoldable pub load_private_key : W → Result E K
  load_private_key w = elim (sys.read_file peer_file w) [
    | err e ↦ err e
    | ok bytes ↦ elim (sys.unmarshal_config bytes) [
      | err e ↦ err e
      | ok config ↦ sys.unmarshal_private_key config.priv_key
    ]
  ]
