-- ===== src/Main/Keys/Examples.antt =====
-- The theorems about the host's key of main.go on files in memory.
use gossip_pubsub.Base.{ℕ, ◌≡◌, refl, [], ◌∷◌, ok, err}
use gossip_pubsub.GoMap.{lookup, insert}
use gossip_pubsub.Peer.{create_peer_id, save_key, save_config, load_private_key}
use gossip_pubsub.Peer.Examples.{Files, in_memory, in_memory_laws}
use gossip_pubsub.Main.Keys.{
  save_generated, load_or_generate_key, peer_key, host_key, create_host, create_crdt_host,
}
use gossip_pubsub.Main.Keys.Persistent.{host_key_again}

abbrev stored : Files
stored = ("node.key", 7 ∷ []) ∷ []

file_runs : host_key in_memory "node.key" [] ≡ (ok 7, stored)
unfolding host_key load_or_generate_key save_generated insert lookup
file_runs = refl

create_host_runs :
    create_host in_memory {H = ℕ × ℕ} (λ port k w. (ok (port, k), w)) 4010 "node.key" []
    ≡ (ok (4010, 7), stored)
unfolding create_host host_key load_or_generate_key save_generated insert lookup
create_host_runs = refl

host_key_again_example : host_key in_memory "node.key" stored ≡ (ok 7, stored)
host_key_again_example = host_key_again in_memory in_memory_laws "node.key" 7 [] stored file_runs

-- A damaged file, and what a start without a key file makes of it.
abbrev damaged : Files
damaged = ("Peer/Peer.json", []) ∷ []

abbrev repaired : Files
repaired = ("Peer/Peer.json", 7 ∷ []) ∷ []

damaged_fails : load_private_key in_memory damaged ≡ err "empty"
unfolding load_private_key lookup
damaged_fails = refl

damaged_runs : peer_key in_memory damaged ≡ (ok 7, repaired)
unfolding peer_key load_private_key create_peer_id save_key save_config insert lookup
damaged_runs = refl

-- Two CRDT hosts of one directory have one key, whatever their ports.
crdt_host_runs :
    (create_crdt_host in_memory {H = ℕ × ℕ} (λ port k w. (ok (port, k), w)) 4010 repaired
      ≡ (ok (4010, 7), repaired))
    × (create_crdt_host in_memory {H = ℕ × ℕ} (λ port k w. (ok (port, k), w)) 4011 repaired
        ≡ (ok (4011, 7), repaired))
unfolding create_crdt_host create_host host_key peer_key load_private_key lookup
crdt_host_runs = (refl, refl)
