-- ===== src/Prelude/Quantifiers.antt =====
-- Boolean tests of some or of all elements of a list.
use mathlib.Core.Path.{◌≡◌, refl}
use mathlib.Core.Logic.{inl, inr}
use mathlib.Core.Bool.{Bool, true, false, not, ◌&&◌, ◌||◌}
use mathlib.Core.List.{List, [], ◌∷◌, ◌++◌, map}
use native.Mathlib.Omega.{arith}
use goncho.Prelude.Tests.{Bool-cases}
use goncho.Prelude.Lists.{any, all, keep, All}

module _ {A : Type 0} where
  pub all_ext : (p q : A → Bool) (xs : List A) → ((x : A) → p x ≡ q x) → all p xs ≡ all q xs
  all_ext p q [] h = refl
  all_ext p q (x ∷ xs) h = rw (h x, all_ext p q xs h) refl

  pub any_ext : (p q : A → Bool) (xs : List A) → ((x : A) → p x ≡ q x) → any p xs ≡ any q xs
  any_ext p q [] h = refl
  any_ext p q (x ∷ xs) h = rw (h x, any_ext p q xs h) refl

  pub any_nothing : (p : A → Bool) (xs : List A) → ((x : A) → p x ≡ false) → any p xs ≡ false
  any_nothing p [] h = refl
  any_nothing p (x ∷ xs) h = rw (h x) (any_nothing p xs h)

  pub all-append : (p : A → Bool) (xs ys : List A) → all p (xs ++ ys) ≡ (all p xs && all p ys)
  all-append p [] ys = refl
  all-append p (x ∷ xs) ys = ground (arith, all-append p xs ys)

  pub any-append : (p : A → Bool) (xs ys : List A) → any p (xs ++ ys) ≡ (any p xs || any p ys)
  any-append p [] ys = refl
  any-append p (x ∷ xs) ys = ground (arith, any-append p xs ys)

  pub any-keep : (p q : A → Bool) (xs : List A) → any p (keep q xs) ≡ any (λ x. p x && q x) xs
  any-keep p q [] = refl
  any-keep p q (x ∷ xs) = ground (arith, any-keep p q xs)

  pub any-map-keep :
      {B : Type 0} (p : B → Bool) (f : A → B) (q : A → Bool) (xs : List A)
      → any p (map f (keep q xs)) ≡ any (λ x. q x && p (f x)) xs
  any-map-keep p f q [] = refl
  any-map-keep p f q (x ∷ xs) = ground (arith, any-map-keep p f q xs)

  pub all-map-keep :
      {B : Type 0} (p : B → Bool) (f : A → B) (q : A → Bool) (xs : List A)
      → all p (map f (keep q xs)) ≡ all (λ x. not (q x) || p (f x)) xs
  all-map-keep p f q [] = refl
  all-map-keep p f q (x ∷ xs) = ground (arith, all-map-keep p f q xs)

  pub all-fails : (p : A → Bool) (xs : List A) → all p xs ≡ false → any (λ x. not (p x)) xs ≡ true
  all-fails p [] h = cc
  all-fails p (x ∷ xs) h = ground (arith, all-fails p xs)

  -- Something of a list passes the test. Some of the list passes whatever it passes, and it passes
  -- and has whatever all of the list passes and has.
  pub any-witness :
      (p : A → Bool) (xs : List A)
      → any p xs ≡ true
      → (x : A) × (p x ≡ true)
        × ((q : A → Bool) → q x ≡ true → any q xs ≡ true)
        × ((q : A → Bool) → all q xs ≡ true → q x ≡ true)
        × ((P : A → Type 0) → All P xs → P x)
  any-witness p [] h = cc
  any-witness p (x ∷ xs) h = elim (Bool-cases (p x)) [
    | inl here ↦ (x, here, (λ q e. ground (arith, e)), (λ q e. ground (arith, e)), (λ P a. a.0))
    | inr skip ↦
        let w = any-witness p xs (ground (arith, h, skip)) in
        (
          w.0,
          w.1,
          (λ q e. ground (arith, w.2 q e)),
          (λ q e. ground (arith, w.3 q)),
          (λ P a. w.4 P a.1),
        )
  ]
