-- ===== src/Main/Addresses/Trimming.antt =====
-- `trim` and `splitAndTrim` of main.go: what they cut off, and what they leave.
use gossip_pubsub.Base.{
  ℕ, ◌<◌, ◌≡◌, refl, ap, ◌∙◌, Bool, true, false, some, List, [], ◌∷◌, ◌++◌, length, Bool-cases, inl,
  inr, arith,
}
use gossip_pubsub.Main.Addresses.{
  Bytes, is_blank, trim_start, keep_before, trim_end, trim, keep_trimmed, split_and_trim,
}
use gossip_pubsub.Main.Addresses.Splitting.{join, AllLackText, join-split}

abbrev pub AllBlank : Bytes → Type 0
AllBlank [] = Unit
AllBlank (c ∷ s) = (is_blank c ≡ true) × AllBlank s

abbrev pub starts_blank : Bytes → Bool
starts_blank [] = false
starts_blank (c ∷ s) = is_blank c

abbrev pub ends_blank : Bytes → Bool
ends_blank [] = false
ends_blank (c ∷ []) = is_blank c
ends_blank (c ∷ d ∷ s) = ends_blank (d ∷ s)

-- `kept` is what is left of `s` when all blanks at its two ends are cut off.
pub record Trims (s kept : Bytes) : Type 0 where
  pub front : Bytes
  pub back : Bytes
  pub split : s ≡ front ++ (kept ++ back)
  pub front_blank : AllBlank front
  pub back_blank : AllBlank back
  pub starts : starts_blank kept ≡ false
  pub ends : ends_blank kept ≡ false

record CutStart (s kept : Bytes) : Type 0 where
  front : Bytes
  split : s ≡ front ++ kept
  blank : AllBlank front
  starts : starts_blank kept ≡ false

record CutEnd (s kept : Bytes) : Type 0 where
  back : Bytes
  split : s ≡ kept ++ back
  blank : AllBlank back
  starts : starts_blank s ≡ false → starts_blank kept ≡ false
  ends : ends_blank kept ≡ false

trim_start-CutStart : (s : Bytes) → CutStart s (trim_start s)
unfolding trim_start
trim_start-CutStart [] = record { front = []; split = refl; blank = tt; starts = refl }
trim_start-CutStart (c ∷ s) = elim (Bool-cases (is_blank c)) [
  | inl cut ↦
      let later = trim_start-CutStart s in
      rw (cut, trim_start)
        (record {
          front = c ∷ later.front;
          split = ap (λ t. c ∷ t) later.split;
          blank = (cut, later.blank);
          starts = later.starts;
        })
  | inr kept ↦
      rw (kept, trim_start) (record { front = []; split = refl; blank = tt; starts = kept })
]

keep_before-CutEnd : (c : ℕ) (s kept : Bytes) → CutEnd s kept → CutEnd (c ∷ s) (keep_before c kept)
unfolding keep_before
keep_before-CutEnd c s (d ∷ kept) cut = record {
  back = cut.back;
  split = ap (λ t. c ∷ t) cut.split;
  blank = cut.blank;
  starts = λ h. h;
  ends = cut.ends;
}
keep_before-CutEnd c s [] cut = elim (Bool-cases (is_blank c)) [
  | inl blank ↦
      rw (blank, keep_before)
        (record {
          back = c ∷ cut.back;
          split = ap (λ t. c ∷ t) cut.split;
          blank = (blank, cut.blank);
          starts = λ h. refl;
          ends = refl;
        })
  | inr kept ↦
      rw (kept, keep_before)
        (record {
          back = cut.back;
          split = ap (λ t. c ∷ t) cut.split;
          blank = cut.blank;
          starts = λ h. kept;
          ends = kept;
        })
]

trim_end-CutEnd : (s : Bytes) → CutEnd s (trim_end s)
unfolding trim_end
trim_end-CutEnd [] = record { back = []; split = refl; blank = tt; starts = λ h. refl; ends = refl }
trim_end-CutEnd (c ∷ s) = keep_before-CutEnd c s (trim_end s) (trim_end-CutEnd s)

-- `trim` cuts off exactly the blanks at both ends: what it cuts is blank, and what it leaves, if
-- anything, neither starts nor ends with a blank.
trim-Trims : (s : Bytes) → Trims s (trim s)
unfolding trim
trim-Trims s =
    let a = trim_start-CutStart s in
    let b = trim_end-CutEnd (trim_start s) in
    record {
      front = a.front;
      back = b.back;
      split = a.split ∙ ap (λ t. a.front ++ t) b.split;
      front_blank = a.blank;
      back_blank = b.blank;
      starts = b.starts a.starts;
      ends = b.ends;
    }

-- Nothing to trim, and something left.
abbrev pub IsAddress : Bytes → Type 0
IsAddress s = (0 < length s) × (starts_blank s ≡ false) × (ends_blank s ≡ false)

abbrev pub AllAddresses : List Bytes → Type 0
AllAddresses [] = Unit
AllAddresses (p ∷ parts) = IsAddress p × AllAddresses parts

-- The parts that something but blanks stands in, trimmed.
pub data Kept : List Bytes → List Bytes → Type 0 where
  none_left : Kept [] []
  passed :
      {p : Bytes} {parts kept : List Bytes} → Trims p [] → Kept parts kept → Kept (p ∷ parts) kept
  took :
      {p q : Bytes} {parts kept : List Bytes}
      → Trims p q
      → IsAddress q
      → Kept parts kept
      → Kept (p ∷ parts) (q ∷ kept)

keep_trimmed-Kept : (parts : List Bytes) → Kept parts (keep_trimmed parts)
unfolding keep_trimmed
keep_trimmed-Kept [] = none_left
keep_trimmed-Kept (part ∷ parts) = go (trim part) (trim-Trims part) refl (keep_trimmed-Kept parts)
  where
    go :
        (q : Bytes)
        → Trims part q
        → trim part ≡ q
        → Kept parts (keep_trimmed parts)
        → Kept (part ∷ parts) (keep_trimmed (part ∷ parts))
    go [] t e rest = rw (e, keep_trimmed) (passed t rest)
    go (c ∷ q) t e rest = rw (e, keep_trimmed) (took t (omega arith, t.starts, t.ends) rest)

-- For each separator that is not empty, `splitAndTrim` ends, and its answer comes from parts in none
-- of which the separator occurs and whose join by the separator is the text: a part of blanks only
-- is passed over, and of each other part the blanks at both ends are cut off, in order.
pub split_and_trim-Kept :
    (s sep : Bytes)
    → 0 < length sep
    → (parts : List Bytes) × (kept : List Bytes) × (split_and_trim s sep ≡ some kept)
      × (join sep parts ≡ s)
      × AllLackText sep parts
      × Kept parts kept
unfolding split_and_trim
split_and_trim-Kept s sep h =
    let (first, others, returned, joined, lacking) = join-split s sep h in
    (
      first ∷ others,
      keep_trimmed (first ∷ others),
      rw (returned, split_and_trim),
      joined,
      lacking,
      keep_trimmed-Kept (first ∷ others),
    )
