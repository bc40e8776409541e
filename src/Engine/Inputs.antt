-- ===== src/Engine/Inputs.antt =====
-- The input checks of CRDT/helper.go accept exactly the inputs within their limits.
use Prim.Native.String.{len as str_len}
use gossip_pubsub.Base.{ℕ, ◌≤◌, String, ◌≡◌, ◌↔◌, false, none, arith}
use gossip_pubsub.Engine.{is_blank, validate_input, validate_counter_input}

abbrev pub IsName : String → ℕ → Type 0
IsName s limit = (is_blank s ≡ false) × (str_len s ≤ limit)

-- The set operations accept exactly a node id and a key of at most 256 bytes and an element of at
-- most 1024 bytes, none of them blank.
pub validate_input_iff :
    (node_id key element : String)
    → (validate_input node_id key element ≡ none)
      ↔ (IsName node_id 256 × IsName key 256 × IsName element 1024)
unfolding validate_input
validate_input_iff node_id key element = ground arith

-- The counter operation accepts exactly a node id and a key of at most 256 bytes, neither blank,
-- and a delta from 1 to 1,000,000.
validate_counter_input_iff :
    (node_id key : String) (delta : ℕ)
    → (validate_counter_input node_id key delta ≡ none)
      ↔ (IsName node_id 256 × IsName key 256 × (1 ≤ delta) × (delta ≤ 1000000))
unfolding validate_counter_input
validate_counter_input_iff node_id key delta = ground arith
