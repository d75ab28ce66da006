-- ===== src/Prelude/Text.antt =====
-- The order of texts: Go's `<` on strings. It compares bytes, and UTF-8 keeps the order of code
-- points, which the native `compare` goes by.
use Prim.Native.Nat.{Ordering, ℕ}
use Prim.Native.Nat.{compare as compare_ℕ}
use Prim.Native.Char.{code}
use Prim.Native.String.{String, compare, [], ◌∷◌, then}
use Prim.Native.String.compare
use mathlib.Core.Path.{◌≡◌, refl}
use mathlib.Core.Bool.{Bool, true, false}
use mathlib.Core.Logic.{inl, inr}
use native.Mathlib.Omega.{arith}
use text.Mathlib.Text.{is_lt}
use text.Mathlib.TextEquality.{path_by_compare}
use text.Mathlib.TextPositions.{compare_refl}
use signal_ledger_project.Prelude.Tests.{Bool-cases}

unfoldable pub str_lt : String → String → Bool
str_lt s t = is_lt (compare s t)

pub str_lt_irrefl : (s : String) → str_lt s s ≡ false
unfolding str_lt
str_lt_irrefl s = rw compare_refl

-- What `compare` says of two texts, read the other way round.
flip : Ordering → Ordering
flip Ordering.lt = Ordering.gt
flip Ordering.eq = Ordering.eq
flip Ordering.gt = Ordering.lt

then-flip : (o r : Ordering) → then (flip o) (flip r) ≡ flip (then o r)
unfolding flip
then-flip o r = ground arith

compare_ℕ-flip : (m n : ℕ) → compare_ℕ n m ≡ flip (compare_ℕ m n)
unfolding flip
compare_ℕ-flip m n = ground arith

compare-flip : (s t : String) → compare t s ≡ flip (compare s t)
compare-flip [] [] = rw compare.nil-nil (unfold flip in refl)
compare-flip [] (d ∷ t) = rw (compare.nil-cons d t, compare.cons-nil d t) (unfold flip in refl)
compare-flip (c ∷ s) [] = rw (compare.nil-cons c s, compare.cons-nil c s) (unfold flip in refl)
compare-flip (c ∷ s) (d ∷ t) =
    rw
      (
        compare.cons-cons d c t s,
        compare.cons-cons c d s t,
        compare_ℕ-flip (code c) (code d),
        compare-flip s t,
      )
      (then-flip _ _)

pub str_lt_asymm : (s t : String) → str_lt s t ≡ true → str_lt t s ≡ false
unfolding str_lt flip
str_lt_asymm s t h = ground (arith, compare-flip s t)

-- Two texts of which neither is less are equal.
pub str_lt_total : (s t : String) → str_lt s t ≡ false → str_lt t s ≡ false → s ≡ t
unfolding str_lt flip
str_lt_total s t h k = ground (arith, compare-flip s t, path_by_compare s t)

then_lt_trans :
    (m n k : ℕ) (p q r : Ordering)
    → (p ≡ Ordering.lt → q ≡ Ordering.lt → r ≡ Ordering.lt)
    → then (compare_ℕ m n) p ≡ Ordering.lt
    → then (compare_ℕ n k) q ≡ Ordering.lt
    → then (compare_ℕ m k) r ≡ Ordering.lt
then_lt_trans m n k p q r f h l = ground arith

compare_lt_trans :
    (s t u : String)
    → compare s t ≡ Ordering.lt
    → compare t u ≡ Ordering.lt
    → compare s u ≡ Ordering.lt
compare_lt_trans s [] [] h k = cc
compare_lt_trans [] [] (e ∷ u) h k = k
compare_lt_trans (c ∷ s) [] (e ∷ u) h k = cc (compare.cons-nil c s)
compare_lt_trans s (d ∷ t) [] h k = cc (compare.cons-nil d t)
compare_lt_trans [] (d ∷ t) (e ∷ u) h k = rw (compare.nil-cons e u)
compare_lt_trans (c ∷ s) (d ∷ t) (e ∷ u) h k = rw (compare.cons-cons c e s u) (
    then_lt_trans (code c) (code d) (code e) _ _ _ (compare_lt_trans s t u)
      (rw compare.cons-cons at h) (rw compare.cons-cons at k))

pub str_lt_trans : (s t u : String) → str_lt s t ≡ true → str_lt t u ≡ true → str_lt s u ≡ true
unfolding str_lt
str_lt_trans s t u h k = ground (arith, compare_lt_trans s t u)

pub str_lt_trans_not :
    (s t u : String) → str_lt t s ≡ false → str_lt u t ≡ false → str_lt u s ≡ false
str_lt_trans_not s t u h k = elim (Bool-cases (str_lt u s)) [
  | inr e ↦ e
  | inl e ↦ elim (Bool-cases (str_lt t u)) [
    | inl f ↦ cc (str_lt_trans t u s f e)
    | inr f ↦ cc (str_lt_total t u f k)
  ]
]
