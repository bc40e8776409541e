-- ===== src/Main/Addresses/Examples.antt =====
-- Runs of the address functions of main.go, and the theorems there.
use Prim.Native.Char.{code}
use gossip_pubsub.Base.{String, ◌≡◌, refl, Option, some, List, [], ◌∷◌, Result, ok, err, arith}
use gossip_pubsub.Main.Addresses.{
  Bytes, starts_with, split_loop, split, trim_start, keep_before, trim_end, trim, keep_trimmed,
  split_and_trim, parse_all, parse_multiaddrs, connect_all, connect_to_bootstraps,
}
use gossip_pubsub.Main.Addresses.Splitting.{join, AllLackText}
use gossip_pubsub.Main.Addresses.Trimming.{Kept, split_and_trim-Kept}

abbrev bytes : String → Bytes
bytes String.[] = []
bytes (String.◌∷◌ c s) = code c ∷ bytes s

abbrev two : Bytes
two = bytes " /ip4/a ,, /ip6/b"

split_runs : split two (bytes ",") ≡ some (bytes " /ip4/a " ∷ [] ∷ bytes " /ip6/b" ∷ [])
unfolding split split_loop starts_with
split_runs = refl

long_separator_runs :
    split (bytes "a--b---c") (bytes "--") ≡ some (bytes "a" ∷ bytes "b" ∷ bytes "-c" ∷ [])
unfolding split split_loop starts_with
long_separator_runs = refl

-- An address is anything longer than one byte.
abbrev longer : Bytes → Result String Bytes
longer [] = err "empty"
longer (c ∷ []) = err "short"
longer (c ∷ d ∷ s) = ok (c ∷ d ∷ s)

parse_runs : parse_multiaddrs longer two ≡ some (bytes "/ip4/a" ∷ bytes "/ip6/b" ∷ [])
unfolding parse_multiaddrs parse_all split_and_trim split split_loop starts_with keep_trimmed trim
    trim_start trim_end keep_before
parse_runs = refl

-- The world is the list of the peers that a connection was tried to.
tried : Bytes → List Bytes → Option String × List Bytes
tried p w = (some "refused", p ∷ w)

peer_of : Bytes → Result String Bytes
peer_of addr = ok addr

connect_runs :
    connect_to_bootstraps peer_of tried longer two [] ≡ some (bytes "/ip6/b" ∷ bytes "/ip4/a" ∷ [])
unfolding connect_to_bootstraps connect_all peer_of tried parse_multiaddrs parse_all split_and_trim
    split split_loop starts_with keep_trimmed trim trim_start trim_end keep_before
connect_runs = refl

split_and_trim-Kept_example :
    (parts : List Bytes) × (kept : List Bytes) × (split_and_trim two (44 ∷ []) ≡ some kept)
    × (join (44 ∷ []) parts ≡ two)
    × AllLackText (44 ∷ []) parts
    × Kept parts kept
split_and_trim-Kept_example = split_and_trim-Kept two (44 ∷ []) (omega arith)
