-- ===== src/Base/Strings.antt =====
-- Go's `<` on strings. Texts are compared by code points, which is the order of their UTF-8 bytes.
use Prim.Native.Nat.{ℕ, Ordering, compare as compare_ℕ}
use Prim.Native.Char.{code}
use Prim.Native.String.{String, [], ◌∷◌, compare, then}
use Prim.Native.String.compare
use mathlib.Core.Path.{◌≡◌, refl}
use mathlib.Core.Logic.{◌≢◌}
use mathlib.Core.Bool.{Bool, true, false}
use native.Mathlib.Omega.{arith}
use text.Mathlib.Text.{is_lt}
use text.Mathlib.TextEquality.{path_by_compare}
use text.Mathlib.TextPositions.{compare_refl}

-- s < t
unfoldable pub str_lt : String → String → Bool
str_lt s t = is_lt (compare s t)

flip : Ordering → Ordering
flip Ordering.lt = Ordering.gt
flip Ordering.eq = Ordering.eq
flip Ordering.gt = Ordering.lt

flip-then : (a b : Ordering) → flip (then a b) ≡ then (flip a) (flip b)
unfolding flip
flip-then Ordering.lt b = refl
flip-then Ordering.eq b = refl
flip-then Ordering.gt b = refl

compare_ℕ_swap : (m n : ℕ) → compare_ℕ n m ≡ flip (compare_ℕ m n)
unfolding flip
compare_ℕ_swap m n = ground arith

flip_pair :
    (m n : ℕ) (a b : Ordering) → b ≡ flip a → then (compare_ℕ n m) b ≡ flip (then (compare_ℕ m n) a)
unfolding flip
flip_pair m n a b h = ground arith

compare_swap : (s t : String) → compare t s ≡ flip (compare s t)
unfolding flip
compare_swap [] [] = rw compare_refl
compare_swap [] (d ∷ t) = rw (compare.nil-cons, compare.cons-nil)
compare_swap (c ∷ s) [] = rw (compare.nil-cons, compare.cons-nil)
compare_swap (c ∷ s) (d ∷ t) =
    rw (compare.cons-cons c d s t, compare.cons-cons d c t s)
      (flip_pair (code c) (code d) (compare s t) (compare t s) (compare_swap s t))

-- `<` is a strict total order.
pub str_lt_irrefl : (s : String) → str_lt s s ≡ false
unfolding str_lt
str_lt_irrefl s = rw compare_refl

pub str_lt_asymm : (s t : String) → str_lt s t ≡ true → str_lt t s ≡ false
unfolding str_lt flip
str_lt_asymm s t h = ground (arith, compare_swap s t)

-- Two texts neither of which is smaller are one text.
pub str_lt_total : (s t : String) → s ≢ t → str_lt s t ≡ false → str_lt t s ≡ true
unfolding str_lt flip
str_lt_total s t ne h = ground (arith, compare_swap s t, path_by_compare s t)

then_trans :
    (l m n : ℕ) (a b c : Ordering)
    → (is_lt a ≡ true → is_lt b ≡ true → is_lt c ≡ true)
    → is_lt (then (compare_ℕ l m) a) ≡ true
    → is_lt (then (compare_ℕ m n) b) ≡ true
    → is_lt (then (compare_ℕ l n) c) ≡ true
then_trans l m n a b c h p q = ground arith

str_lt_nil : (s : String) → str_lt s [] ≡ false
unfolding str_lt
str_lt_nil [] = refl
str_lt_nil (c ∷ s) = rw compare.cons-nil

pub str_lt_trans : (s t u : String) → str_lt s t ≡ true → str_lt t u ≡ true → str_lt s u ≡ true
unfolding str_lt
str_lt_trans [] t [] p q = cc (str_lt_nil t)
str_lt_trans [] t (e ∷ u) p q = rw compare.nil-cons
str_lt_trans (c ∷ s) [] u p q = cc (str_lt_nil (c ∷ s))
str_lt_trans (c ∷ s) (d ∷ t) [] p q = cc (str_lt_nil (d ∷ t))
str_lt_trans (c ∷ s) (d ∷ t) (e ∷ u) p q = rw (compare.cons-cons c e s u) (
    then_trans (code c) (code d) (code e) (compare s t) (compare t u) (compare s u)
      (str_lt_trans s t u) (rw (compare.cons-cons c d s t) at p)
      (rw (compare.cons-cons d e t u) at q))
