-- ===== src/Actions/Store/Texts/Order.antt =====
-- The order of sorted texts.
use Prim.Native.Nat.compare as compare_ℕ
use Prim.Native.Nat.{ℕ, zero, suc, Ordering, compare as compare_ℕ}
use Prim.Native.Char.{code}
use Prim.Native.String.compare
use Prim.Native.String.{String, [], ◌∷◌, compare, then}
use mathlib.Core.Path.{◌≡◌, refl, sym, ap, ◌∙◌}
use goncho.Prelude.{Bool, true, false}
use goncho.Prelude.Sort.{text_ltb}

abbrev swapped : Ordering → Ordering
swapped Ordering.lt = Ordering.gt
swapped Ordering.eq = Ordering.eq
swapped Ordering.gt = Ordering.lt

swapped-then : (o r : Ordering) → then (swapped o) (swapped r) ≡ swapped (then o r)
swapped-then Ordering.lt r = refl
swapped-then Ordering.eq r = refl
swapped-then Ordering.gt r = refl

numbers_swapped : (m n : ℕ) → compare_ℕ n m ≡ swapped (compare_ℕ m n)
numbers_swapped zero zero = compare_ℕ.zero-zero ∙ ap swapped (sym compare_ℕ.zero-zero)
numbers_swapped zero (suc n) = compare_ℕ.suc-zero n ∙ ap swapped (sym (compare_ℕ.zero-suc n))
numbers_swapped (suc m) zero = compare_ℕ.zero-suc m ∙ ap swapped (sym (compare_ℕ.suc-zero m))
numbers_swapped (suc m) (suc n) =
    compare_ℕ.suc-suc n m ∙ numbers_swapped m n ∙ ap swapped (sym (compare_ℕ.suc-suc m n))

texts_swapped : (s t : String) → compare t s ≡ swapped (compare s t)
texts_swapped [] [] = compare.nil-nil ∙ ap swapped (sym compare.nil-nil)
texts_swapped [] (d ∷ t) = compare.cons-nil d t ∙ ap swapped (sym (compare.nil-cons d t))
texts_swapped (c ∷ s) [] = compare.nil-cons c s ∙ ap swapped (sym (compare.cons-nil c s))
texts_swapped (c ∷ s) (d ∷ t) =
    compare.cons-cons d c t s
    ∙ ap (λ o. then o (compare t s)) (numbers_swapped (code c) (code d))
    ∙ ap (then (swapped (compare_ℕ (code c) (code d)))) (texts_swapped s t)
    ∙ swapped-then (compare_ℕ (code c) (code d)) (compare s t)
    ∙ ap swapped (sym (compare.cons-cons c d s t))

is_before : Ordering → Bool
is_before Ordering.lt = true
is_before Ordering.eq = false
is_before Ordering.gt = false

is_before-swapped : (o : Ordering) → is_before o ≡ true → is_before (swapped o) ≡ false
unfolding is_before
is_before-swapped Ordering.lt h = refl
is_before-swapped Ordering.eq h = refl
is_before-swapped Ordering.gt h = cc

text_ltb-is_before : (o : Ordering) → (elim o [ Ordering.lt ↦ true | _ ↦ false ]) ≡ is_before o
unfolding is_before
text_ltb-is_before Ordering.lt = refl
text_ltb-is_before Ordering.eq = refl
text_ltb-is_before Ordering.gt = refl

pub text_ltb_asym : (s t : String) → text_ltb s t ≡ true → text_ltb t s ≡ false
text_ltb_asym s t h =
    text_ltb-is_before (compare t s)
    ∙ ap is_before (texts_swapped s t)
    ∙ is_before-swapped (compare s t) (sym (text_ltb-is_before (compare s t)) ∙ h)
