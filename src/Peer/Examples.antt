-- ===== src/Peer/Examples.antt =====
-- A system of files in memory that meets the laws, and the theorems about Peer/Peer.go there.
use gossip_pubsub.Base.{
  ℕ, String, ◌≡◌, ◌==◌, eq_iff, eq_refl, refl, sym, ap, ◌∙◌, Option, none, some, [], ◌∷◌, Result,
  ok, err, if◌then◌else◌, arith,
}
use gossip_pubsub.GoMap.{GoMap, lookup, insert}
use gossip_pubsub.GoMap.Laws.{lookup-insert}
use gossip_pubsub.Peer.{
  Bytes, PeerConfig, System, SystemLaws, save_config, save_key, create_peer_id, load_peer_id,
}
use gossip_pubsub.Peer.Kept.{Holds, create_peer_id-Holds}

abbrev pub Files : Type 0
Files = GoMap Bytes

abbrev read_entry : Option Bytes → Result String Bytes
read_entry none = err "no such file"
read_entry (some bytes) = ok bytes

abbrev first_byte : Bytes → Result String ℕ
first_byte [] = err "empty"
first_byte (k ∷ s) = ok k

-- Keys are numbers, and every key has the id "peer".
abbrev pub in_memory : System Files ℕ String
in_memory = record {
  read_file = λ path w. read_entry (lookup path w);
  write_file = λ path bytes w. (none, insert path bytes w);
  generate_key = λ w. (ok 7, w);
  peer_id_of = λ k. ok "peer";
  marshal_private_key = λ k. ok (k ∷ []);
  unmarshal_private_key = first_byte;
  marshal_config = λ c. if c.peer_id == "peer" then ok c.priv_key else err "unknown peer";
  unmarshal_config = λ bytes. ok (record { peer_id = "peer"; priv_key = bytes });
}

pub reads_back :
    (path : String) (bytes : Bytes) (w w' : Files)
    → in_memory.write_file path bytes w ≡ (none, w')
    → in_memory.read_file path w' ≡ ok bytes
reads_back path bytes w w' h =
    let same : insert path bytes w ≡ w' = ap (λ (r : Option String × Files). r.1) h in
    ap read_entry (
      ap (lookup path) (sym same)
      ∙ lookup-insert path path bytes w
      ∙ ap (λ b. if b then some bytes else lookup path w) (eq_refl path))

pub config_back :
    (c : PeerConfig) (bytes : Bytes)
    → in_memory.marshal_config c ≡ ok bytes
    → in_memory.unmarshal_config bytes ≡ ok c
config_back c bytes h = ground (arith, eq_iff c.peer_id "peer")

pub key_back :
    (k : ℕ) (bytes : Bytes)
    → in_memory.marshal_private_key k ≡ ok bytes
    → in_memory.unmarshal_private_key bytes ≡ ok k
key_back k bytes h = let same : k ∷ [] ≡ bytes = ground arith in ap first_byte (sym same)

abbrev pub in_memory_laws : SystemLaws in_memory
in_memory_laws = record {
  read-write = reads_back;
  unmarshal-marshal_key = key_back;
  unmarshal-marshal_config = config_back;
}

create_runs : create_peer_id in_memory [] ≡ (ok "peer", ("Peer/Peer.json", 7 ∷ []) ∷ [])
unfolding create_peer_id save_key save_config insert
create_runs = refl

create_peer_id-Holds_example :
    Holds in_memory in_memory_laws "peer" (("Peer/Peer.json", 7 ∷ []) ∷ [])
create_peer_id-Holds_example = create_peer_id-Holds in_memory in_memory_laws "peer" [] _ create_runs

load_runs : load_peer_id in_memory [] ≡ (ok "peer", ("Peer/Peer.json", 7 ∷ []) ∷ [])
unfolding load_peer_id create_peer_id save_key save_config insert lookup
load_runs = refl
