-- ===== src/Main/Addresses.antt =====
-- main.go: the list of bootstrap addresses: `split`, `trim`, `splitAndTrim`, `parseMultiaddrs`.
-- A text is the list of its bytes.
mod Examples
pub mod Splitting
pub mod Trimming
use gossip_pubsub.Base.{
  ℕ, zero, suc, ◌+◌, Bool, true, false, ◌&&◌, ◌||◌, Option, none, some, List, [], ◌∷◌, ◌++◌, eqb,
  if◌then◌else◌, length, Result, ok, err,
}

abbrev pub Bytes : Type 0
Bytes = List ℕ

-- i+len(sep) <= len(s) && s[i:i+len(sep)] == sep, for the text s[i:]
unfoldable pub starts_with : Bytes → Bytes → Bool
starts_with [] rest = true
starts_with (c ∷ sep) [] = false
starts_with (c ∷ sep) (d ∷ rest) = eqb c d && starts_with sep rest

abbrev pub drop : ℕ → Bytes → Bytes
drop zero s = s
drop (suc n) [] = []
drop (suc n) (c ∷ s) = drop n s

-- The loop of `split` at position i: `pending` is s[start:i] and the next argument s[i:]. `none`
-- means that the rounds ran out.
unfoldable pub split_loop : ℕ → Bytes → Bytes → Bytes → List Bytes → Option (List Bytes)
unfolding starts_with
split_loop zero sep pending rest result = none
split_loop (suc rounds) sep pending [] result = some (result ++ pending ∷ [])
split_loop (suc rounds) sep pending (c ∷ rest) result =
    let found = split_loop rounds sep [] (drop (length sep) (c ∷ rest)) (result ++ pending ∷ []) in
    let onward = split_loop rounds sep (pending ++ c ∷ []) rest result in
    if starts_with sep (c ∷ rest) then found else onward

-- One round for each byte, and the one that ends the loop.
unfoldable pub split : Bytes → Bytes → Option (List Bytes)
unfolding split_loop
split s sep = split_loop (length s + 1) sep [] s []

-- s[i] == ' ' || s[i] == '\t' || s[i] == '\n'
abbrev pub is_blank : ℕ → Bool
is_blank c = eqb c 32 || eqb c 9 || eqb c 10

-- for start < end && … { start++ }
unfoldable pub trim_start : Bytes → Bytes
trim_start [] = []
trim_start (c ∷ s) = let later = trim_start s in if is_blank c then later else c ∷ s

-- One byte before what is kept of the rest.
unfoldable pub keep_before : ℕ → Bytes → Bytes
keep_before c [] = if is_blank c then [] else c ∷ []
keep_before c (d ∷ kept) = c ∷ d ∷ kept

-- for end > start && … { end-- }
unfoldable pub trim_end : Bytes → Bytes
unfolding keep_before
trim_end [] = []
trim_end (c ∷ s) = keep_before c (trim_end s)

unfoldable pub trim : Bytes → Bytes
unfolding trim_start trim_end
trim s = trim_end (trim_start s)

-- trimmed := trim(part); if trimmed != "" { … }
unfoldable pub keep_trimmed : List Bytes → List Bytes
unfolding trim
keep_trimmed [] = []
keep_trimmed (part ∷ parts) = elim (trim part) [
  | [] ↦ keep_trimmed parts
  | c ∷ s ↦ (c ∷ s) ∷ keep_trimmed parts
]

unfoldable pub split_and_trim : Bytes → Bytes → Option (List Bytes)
unfolding split keep_trimmed
split_and_trim s sep = elim (split s sep) [ none ↦ none | some parts ↦ some (keep_trimmed parts) ]

-- multiaddr.NewMultiaddr is a parameter; what it refuses is logged and passed over.
module _ {A E : Type 0} (new_multiaddr : Bytes → Result E A) where
  unfoldable pub parse_all : List Bytes → List A
  parse_all [] = []
  parse_all (part ∷ parts) = elim (new_multiaddr part) [
    | err e ↦ parse_all parts
    | ok addr ↦ addr ∷ parse_all parts
  ]

  unfoldable pub parse_multiaddrs : Bytes → Option (List A)
  unfolding split_and_trim parse_all
  parse_multiaddrs addrs_str = elim (split_and_trim addrs_str (44 ∷ [])) [
    | none ↦ none
    | some parts ↦ some (parse_all parts)
  ]

-- peer.AddrInfoFromP2pAddr and h.Connect are parameters; what they refuse is logged and passed over.
module _ {W A P E : Type 0} (addr_info : A → Result E P) (connect : P → W → Option E × W) where
  unfoldable pub connect_all : List A → W → W
  connect_all [] w = w
  connect_all (addr ∷ addrs) w = elim (addr_info addr) [
    | err e ↦ connect_all addrs w
    | ok peer_info ↦ connect_all addrs (connect peer_info w).1
  ]

  unfoldable pub connect_to_bootstraps : (Bytes → Result E A) → Bytes → W → Option W
  unfolding parse_multiaddrs connect_all
  connect_to_bootstraps new_multiaddr bootstraps w =
      elim (parse_multiaddrs new_multiaddr bootstraps) [
        | none ↦ none
        | some addrs ↦ some (connect_all addrs w)
      ]
