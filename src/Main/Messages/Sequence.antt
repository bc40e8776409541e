-- ===== src/Main/Messages/Sequence.antt =====
-- The sequence number that main.go reads from the bytes of a message.
use gossip_pubsub.Base.{ℕ, ◌/◌, ◌%◌, ◌^◌, ◌<◌, ◌≡◌, List, [], ◌∷◌, arith}
use gossip_pubsub.Base.Words.{u64_mod}
use gossip_pubsub.Main.Messages.{decode_seqno}

-- The 8 bytes of a uint64, the highest first, as the pubsub library writes a sequence number.
abbrev pub big_endian : ℕ → List ℕ
big_endian n =
    n / 2 ^ 56
    ∷ (n / 2 ^ 48) % 256
    ∷ (n / 2 ^ 40) % 256
    ∷ (n / 2 ^ 32) % 256
    ∷ (n / 2 ^ 24) % 256
    ∷ (n / 2 ^ 16) % 256
    ∷ (n / 2 ^ 8) % 256
    ∷ n % 256
    ∷ []

-- The 8 bytes of a uint64, the highest first, decode to it.
pub decode_seqno-big_endian : (n : ℕ) → n < u64_mod → decode_seqno 8 (big_endian n) 0 ≡ n
unfolding decode_seqno
decode_seqno-big_endian n h = omega arith
