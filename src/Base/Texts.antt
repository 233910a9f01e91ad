-- ===== src/Base/Texts.antt =====
-- The order of two texts, which the other way round is the opposite one.
use Prim.Native.Nat.compare as compare_ℕ
use Prim.Native.Nat.{ℕ, zero, suc, Ordering, compare as compare_ℕ}
use Prim.Native.Char.{code}
use Prim.Native.String.compare
use Prim.Native.String.{String, [], ◌∷◌, compare, then}
use mathlib.Core.Path.{◌≡◌, refl, ◌∙◌, ap}
use mathlib.Core.Bool.{Bool, true, false}
use text.Mathlib.TextPositions.{compare_refl}

abbrev swap : Ordering → Ordering
swap Ordering.lt = Ordering.gt
swap Ordering.eq = Ordering.eq
swap Ordering.gt = Ordering.lt

then-swap : (o r : Ordering) → then (swap o) (swap r) ≡ swap (then o r)
then-swap Ordering.lt r = refl
then-swap Ordering.eq r = refl
then-swap Ordering.gt r = refl

numbers_swap : (m n : ℕ) → compare_ℕ n m ≡ swap (compare_ℕ m n)
numbers_swap zero zero = refl
numbers_swap zero (suc n) = rw (compare_ℕ.suc-zero n, compare_ℕ.zero-suc n) refl
numbers_swap (suc m) zero = rw (compare_ℕ.suc-zero m, compare_ℕ.zero-suc m) refl
numbers_swap (suc m) (suc n) = rw (compare_ℕ.suc-suc m n, compare_ℕ.suc-suc n m) (numbers_swap m n)

texts_swap : (s t : String) → compare t s ≡ swap (compare s t)
texts_swap [] [] = rw (compare_refl []) refl
texts_swap [] (d ∷ t) = rw (compare.nil-cons d t, compare.cons-nil d t) refl
texts_swap (c ∷ s) [] = rw (compare.nil-cons c s, compare.cons-nil c s) refl
texts_swap (c ∷ s) (d ∷ t) =
    rw
      (
        compare.cons-cons c d s t,
        compare.cons-cons d c t s,
        numbers_swap (code c) (code d),
        texts_swap s t,
      )
      (then-swap (compare_ℕ (code c) (code d)) (compare s t))

abbrev is_lt : Ordering → Bool
is_lt o = elim o [ Ordering.lt ↦ true | _ ↦ false ]

swap-lt : (o : Ordering) → is_lt o ≡ true → is_lt (swap o) ≡ false
swap-lt Ordering.lt h = refl
swap-lt Ordering.eq h = refl
swap-lt Ordering.gt h = cc

-- A text that comes before another does not come after it.
pub text_lt_asym : (s t : String) → is_lt (compare s t) ≡ true → is_lt (compare t s) ≡ false
text_lt_asym s t h = ap is_lt (texts_swap s t) ∙ swap-lt (compare s t) h
