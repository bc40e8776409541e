-- ===== src/Base/Sorting.antt =====
-- Go's `sort.Strings`, as insertion sort: the ascending rearrangement of a list of texts is one
-- list, whatever the algorithm.
use gossip_pubsub.Base.{
  String, ◌≡◌, inl, inr, Bool, true, false, List, [], ◌∷◌, if◌then◌else◌, Bool-cases, arith, refl,
  sym, ◌∙◌, ◌||◌, ◌==◌, eq_iff,
}
use gossip_pubsub.Base.Strings.{str_lt, str_lt_total, str_lt_trans}

insert_sorted : String → List String → List String
insert_sorted s [] = s ∷ []
insert_sorted s (t ∷ l) = let rest = insert_sorted s l in if str_lt s t then s ∷ t ∷ l else t ∷ rest

unfoldable pub sort_strings : List String → List String
unfolding insert_sorted
sort_strings [] = []
sort_strings (s ∷ l) = insert_sorted s (sort_strings l)

-- x is among the texts.
abbrev pub elem : String → List String → Bool
elem x [] = false
elem x (y ∷ l) = (y == x) || elem x l

-- Every text of the list comes after x.
abbrev pub AllAfter : String → List String → Type 0
AllAfter x [] = Unit
AllAfter x (y ∷ l) = (str_lt x y ≡ true) × AllAfter x l

-- Strictly ascending, so with no text twice.
abbrev pub IsAscending : List String → Type 0
IsAscending [] = Unit
IsAscending (x ∷ l) = AllAfter x l × IsAscending l

-- No text twice.
abbrev pub IsDistinct : List String → Type 0
IsDistinct [] = Unit
IsDistinct (x ∷ l) = (elem x l ≡ false) × IsDistinct l

AllAfter-trans : (x y : String) (l : List String) → str_lt x y ≡ true → AllAfter y l → AllAfter x l
AllAfter-trans x y [] h k = tt
AllAfter-trans x y (z ∷ l) h k = (str_lt_trans x y z h k.0, AllAfter-trans x y l h k.1)

elem-insert_sorted :
    (x s : String) (l : List String) → elem x (insert_sorted s l) ≡ ((s == x) || elem x l)
unfolding insert_sorted
elem-insert_sorted x s [] = refl
elem-insert_sorted x s (t ∷ l) = ground (arith, elem-insert_sorted x s l)

AllAfter-insert_sorted :
    (x s : String) (l : List String)
    → str_lt x s ≡ true
    → AllAfter x l
    → AllAfter x (insert_sorted s l)
unfolding insert_sorted
AllAfter-insert_sorted x s [] h k = (h, tt)
AllAfter-insert_sorted x s (t ∷ l) h k = ground (arith, AllAfter-insert_sorted x s l h k.1)

insert_sorted-IsAscending :
    (s : String) (l : List String)
    → elem s l ≡ false
    → IsAscending l
    → IsAscending (insert_sorted s l)
unfolding insert_sorted
insert_sorted-IsAscending s [] n h = (tt, tt)
insert_sorted-IsAscending s (t ∷ l) n h = elim (Bool-cases (str_lt s t)) [
  | inl lt ↦ rw lt ((lt, AllAfter-trans s t l lt h.0), h)
  | inr ge ↦
      let other : (t == s) ≡ false = ground arith in
      let gt : str_lt t s ≡ true = str_lt_total s t (λ e. cc ((eq_iff t s).1 (sym e))) ge in
      rw ge (AllAfter-insert_sorted t s l gt h.0, insert_sorted-IsAscending s l (ground arith) h.1)
]

pub elem-sort_strings : (x : String) (l : List String) → elem x (sort_strings l) ≡ elem x l
unfolding sort_strings
elem-sort_strings x [] = refl
elem-sort_strings x (s ∷ l) =
    ground (arith, elem-insert_sorted x s (sort_strings l), elem-sort_strings x l)

pub sort_strings-IsAscending : (l : List String) → IsDistinct l → IsAscending (sort_strings l)
unfolding sort_strings
sort_strings-IsAscending [] h = tt
sort_strings-IsAscending (s ∷ l) h =
    insert_sorted-IsAscending s (sort_strings l) (elem-sort_strings s l ∙ h.0)
      (sort_strings-IsAscending l h.1)
