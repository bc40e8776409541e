-- ===== src/Main/Addresses/Splitting.antt =====
-- `split` of main.go: it ends for each separator but the empty one, loses nothing, and is the
-- inverse of joining.
use mathlib.Core.List.{append_assoc, append-nil}
use gossip_pubsub.Base.{
  ℕ, zero, suc, ◌+◌, ◌≤◌, ◌<◌, ◌≡◌, ◌≢◌, refl, sym, ap, ◌∙◌, true, false, Option, none, some, List,
  [], ◌∷◌, ◌++◌, eqb, if◌then◌else◌, length, Bool-cases, inl, inr, arith,
}
use gossip_pubsub.Main.Addresses.{Bytes, starts_with, drop, split_loop, split}

-- strings.Join
pub join : Bytes → List Bytes → Bytes
join sep [] = []
join sep (p ∷ []) = p
join sep (p ∷ q ∷ parts) = p ++ (sep ++ join sep (q ∷ parts))

length-drop : (n : ℕ) (s : Bytes) → length (drop n s) ≤ length s
length-drop zero s = omega arith
length-drop (suc n) [] = omega arith
length-drop (suc n) (c ∷ s) = omega (arith, length-drop n s)

append-drop : (sep s : Bytes) → starts_with sep s ≡ true → sep ++ drop (length sep) s ≡ s
unfolding starts_with
append-drop [] s h = refl
append-drop (c ∷ sep) [] h = cc
append-drop (c ∷ sep) (d ∷ s) h = ground (arith, append-drop sep s)

starts_with-append : (sep v : Bytes) → starts_with sep (sep ++ v) ≡ true
unfolding starts_with
starts_with-append [] v = refl
starts_with-append (c ∷ sep) v = ground (arith, starts_with-append sep v)

-- The text does not start with the separator.
abbrev pub StartsWithout : Bytes → Bytes → Type 0
StartsWithout sep s = (v : Bytes) → sep ++ v ≢ s

starts_with-StartsWithout : (sep s : Bytes) → starts_with sep s ≡ false → StartsWithout sep s
starts_with-StartsWithout sep s h v e = cc (h, e, starts_with-append sep v)

-- The separator begins at no place of `s`, where `rest` follows `s`.
abbrev pub AbsentAt : Bytes → Bytes → Bytes → Type 0
AbsentAt sep [] rest = Unit
AbsentAt sep (c ∷ s) rest = StartsWithout sep (c ∷ (s ++ rest)) × AbsentAt sep s rest

-- The separator, which is not empty, does not occur in any part.
abbrev pub AllLackText : Bytes → List Bytes → Type 0
AllLackText sep [] = Unit
AllLackText sep (p ∷ parts) = AbsentAt sep p [] × AllLackText sep parts

AbsentAt-snoc :
    (sep s : Bytes) (c : ℕ) (rest : Bytes)
    → AbsentAt sep s (c ∷ rest)
    → StartsWithout sep (c ∷ rest)
    → AbsentAt sep (s ++ c ∷ []) rest
AbsentAt-snoc sep [] c rest h e = (e, tt)
AbsentAt-snoc sep (d ∷ s) c rest h e = (
  λ v q. h.0 v (q ∙ ap (λ t. d ∷ t) (append_assoc s (c ∷ []) rest)),
  AbsentAt-snoc sep s c rest h.1 e,
)

-- What does not occur with more to follow does not occur with nothing to follow.
AbsentAt-alone : (sep s rest : Bytes) → AbsentAt sep s rest → AbsentAt sep s []
AbsentAt-alone sep [] rest h = tt
AbsentAt-alone sep (c ∷ s) rest h = (
  λ v q. h.0 (v ++ rest) (
      sym (append_assoc sep v rest)
      ∙ ap (λ t. t ++ rest) q
      ∙ ap (λ t. c ∷ (t ++ rest)) (append-nil s)),
  AbsentAt-alone sep s rest h.1,
)

-- What a run of the loop comes to: the parts of the text from `start` on.
record Splits (sep text : Bytes) (result : List Bytes) (r : Option (List Bytes)) : Type 0 where
  first : Bytes
  others : List Bytes
  returned : r ≡ some (result ++ first ∷ others)
  joined : join sep (first ∷ others) ≡ text
  lacking : AllLackText sep (first ∷ others)

module _ (d : ℕ) (sep pending rest : Bytes) (result : List Bytes) where
  Splits-found :
      (c : ℕ) (r : Option (List Bytes))
      → starts_with (d ∷ sep) (c ∷ rest) ≡ true
      → AbsentAt (d ∷ sep) pending (c ∷ rest)
      → Splits (d ∷ sep) (drop (length sep) rest) (result ++ pending ∷ []) r
      → Splits (d ∷ sep) (pending ++ c ∷ rest) result r
  unfolding join
  Splits-found c r found absent s = record {
    first = pending;
    others = s.first ∷ s.others;
    returned = s.returned ∙ ap some (append_assoc result (pending ∷ []) (s.first ∷ s.others));
    joined =
        ap (λ t. pending ++ ((d ∷ sep) ++ t)) s.joined
        ∙ ap (λ t. pending ++ t) (append-drop (d ∷ sep) (c ∷ rest) found);
    lacking = (AbsentAt-alone (d ∷ sep) pending (c ∷ rest) absent, s.lacking);
  }

  Splits-onward :
      (c : ℕ) (r : Option (List Bytes))
      → Splits (d ∷ sep) ((pending ++ c ∷ []) ++ rest) result r
      → Splits (d ∷ sep) (pending ++ c ∷ rest) result r
  Splits-onward c r s = record {
    first = s.first;
    others = s.others;
    returned = s.returned;
    joined = s.joined ∙ append_assoc pending (c ∷ []) rest;
    lacking = s.lacking;
  }

split_loop-Splits :
    (rounds d : ℕ) (sep pending rest : Bytes) (result : List Bytes)
    → length rest < rounds
    → AbsentAt (d ∷ sep) pending rest
    → Splits (d ∷ sep) (pending ++ rest) result (split_loop rounds (d ∷ sep) pending rest result)
unfolding split_loop join
split_loop-Splits zero d sep pending rest result h absent = absurd (omega arith)
split_loop-Splits (suc rounds) d sep pending [] result h absent = record {
  first = pending;
  others = [];
  returned = refl;
  joined = sym (append-nil pending);
  lacking = (absent, tt);
}
split_loop-Splits (suc rounds) d sep pending (c ∷ rest) result h absent =
    elim (Bool-cases (starts_with (d ∷ sep) (c ∷ rest))) [
      | inl found ↦
          rw (found, split_loop)
            (Splits-found d sep pending rest result c _ found absent (
              split_loop-Splits rounds d sep [] (drop (length sep) rest) (result ++ pending ∷ [])
                (omega (arith, length-drop (length sep) rest)) tt))
      | inr other ↦
          rw (other, split_loop)
            (Splits-onward d sep pending rest result c _ (
              split_loop-Splits rounds d sep (pending ++ c ∷ []) rest result (omega arith) (
                AbsentAt-snoc (d ∷ sep) pending c rest absent
                  (starts_with-StartsWithout (d ∷ sep) (c ∷ rest) other))))
    ]

-- For each separator that is not empty, `split` ends within one round for each byte and one more,
-- and joining the parts by the separator gives the text back: no byte is lost or added. The
-- separator occurs in no part.
pub join-split :
    (s sep : Bytes)
    → 0 < length sep
    → (first : Bytes) × (others : List Bytes) × (split s sep ≡ some (first ∷ others))
      × (join sep (first ∷ others) ≡ s)
      × AllLackText sep (first ∷ others)
unfolding split
join-split s [] h = absurd (omega arith)
join-split s (d ∷ sep) h =
    let r = split_loop-Splits (length s + 1) d sep [] s [] (omega arith) tt in
    (r.first, r.others, r.returned, r.joined, r.lacking)

-- With an empty separator the loop ends for no number of rounds on a text that is not empty.
split_loop-endless :
    (rounds c : ℕ) (pending rest : Bytes) (result : List Bytes)
    → split_loop rounds [] pending (c ∷ rest) result ≡ none
unfolding split_loop starts_with
split_loop-endless zero c pending rest result = refl
split_loop-endless (suc rounds) c pending rest result =
    split_loop-endless rounds c [] rest (result ++ pending ∷ [])

-- The text has no byte c.
abbrev pub Lacks : ℕ → Bytes → Type 0
Lacks c [] = Unit
Lacks c (d ∷ s) = (c ≢ d) × Lacks c s

abbrev pub AllLack : ℕ → List Bytes → Type 0
AllLack c [] = Unit
AllLack c (p ∷ parts) = Lacks c p × AllLack c parts

-- `split` at one byte, by recursion on the text.
pieces : ℕ → Bytes → Bytes → List Bytes
pieces c pending [] = pending ∷ []
pieces c pending (d ∷ rest) =
    let found = pending ∷ pieces c [] rest in
    let onward = pieces c (pending ++ d ∷ []) rest in if eqb c d then found else onward

split_loop-pieces :
    (rounds c : ℕ) (pending rest : Bytes) (result : List Bytes)
    → length rest < rounds
    → split_loop rounds (c ∷ []) pending rest result ≡ some (result ++ pieces c pending rest)
unfolding split_loop starts_with pieces
split_loop-pieces zero c pending rest result h = absurd (omega arith)
split_loop-pieces (suc rounds) c pending [] result h = refl
split_loop-pieces (suc rounds) c pending (d ∷ rest) result h = elim (Bool-cases (eqb c d)) [
  | inl found ↦
      rw (found, split_loop, pieces)
        (split_loop-pieces rounds c [] rest (result ++ pending ∷ []) (omega arith)
          ∙ ap some (append_assoc result (pending ∷ []) (pieces c [] rest)))
  | inr other ↦
      rw (other, split_loop, pieces)
        (split_loop-pieces rounds c (pending ++ d ∷ []) rest result (omega arith))
]

pieces-part :
    (c : ℕ) (pending part rest : Bytes)
    → Lacks c part
    → pieces c pending (part ++ c ∷ rest) ≡ (pending ++ part) ∷ pieces c [] rest
unfolding pieces
pieces-part c pending [] rest h = ground (arith, append-nil pending)
pieces-part c pending (d ∷ part) rest h =
    ground
      (arith, pieces-part c (pending ++ d ∷ []) part rest h.1, append_assoc pending (d ∷ []) part)

pieces-last :
    (c : ℕ) (pending part : Bytes) → Lacks c part → pieces c pending part ≡ (pending ++ part) ∷ []
unfolding pieces
pieces-last c pending [] h = ap (λ p. p ∷ []) (sym (append-nil pending))
pieces-last c pending (d ∷ part) h =
    ground (arith, pieces-last c (pending ++ d ∷ []) part h.1, append_assoc pending (d ∷ []) part)

pieces-join :
    (c : ℕ) (p : Bytes) (parts : List Bytes)
    → AllLack c (p ∷ parts)
    → pieces c [] (join (c ∷ []) (p ∷ parts)) ≡ p ∷ parts
unfolding join
pieces-join c p [] h = pieces-last c [] p h.0
pieces-join c p (q ∷ parts) h =
    pieces-part c [] p (join (c ∷ []) (q ∷ parts)) h.0 ∙ ap (λ l. p ∷ l) (pieces-join c q parts h.1)

-- `split` at one byte takes a joined text apart again: for parts without that byte, one at least,
-- it returns exactly the parts, empty ones included.
pub split-join :
    (c : ℕ) (p : Bytes) (parts : List Bytes)
    → AllLack c (p ∷ parts)
    → split (join (c ∷ []) (p ∷ parts)) (c ∷ []) ≡ some (p ∷ parts)
unfolding split
split-join c p parts h =
    let s = join (c ∷ []) (p ∷ parts) in
    split_loop-pieces (length s + 1) c [] s [] (omega arith) ∙ ap some (pieces-join c p parts h)
