-- ===== src/Prelude/Sort.antt =====
-- Sorting: `sort.Slice`, `sort.Strings` and `ORDER BY`, as an insertion sort. Where elements that a test
-- leaves in either order can meet, the result is one of those that the source allows.
use Prim.Native.Nat.{suc, Ordering}
use Prim.Native.String.{String, compare}
use mathlib.Core.Path.{◌≡◌, refl, ap, ◌∙◌}
use mathlib.Core.Logic.{inl, inr}
use mathlib.Core.Bool.{Bool, true, false, ◌&&◌, ◌||◌}
use mathlib.Core.List.{List, [], ◌∷◌, map, Perm}
use mathlib.Core.List.Perm
use native.Mathlib.Omega.{arith}
use goncho.Prelude.Tests.{if◌then◌else◌, Bool-cases}
use goncho.Prelude.Lists.{any, all, length}

-- The order of strings, byte by byte.
abbrev pub text_ltb : String → String → Bool
text_ltb a b = elim (compare a b) [ Ordering.lt ↦ true | _ ↦ false ]

module _ {A : Type 0} (comes_first : A → A → Bool) where
  unfoldable pub insert_by : A → List A → List A
  insert_by a [] = a ∷ []
  insert_by a (b ∷ bs) =
      let rest = insert_by a bs in if comes_first a b then a ∷ b ∷ bs else b ∷ rest

  unfoldable pub sort_by : List A → List A
  unfolding insert_by
  sort_by [] = []
  sort_by (a ∷ xs) = insert_by a (sort_by xs)

  any-insert_by : (p : A → Bool) (a : A) (xs : List A) → any p (insert_by a xs) ≡ (p a || any p xs)
  unfolding insert_by
  any-insert_by p a [] = refl
  any-insert_by p a (b ∷ bs) = ground (arith, any-insert_by p a bs)

  pub any-sort_by : (p : A → Bool) (xs : List A) → any p (sort_by xs) ≡ any p xs
  unfolding sort_by
  any-sort_by p [] = refl
  any-sort_by p (a ∷ xs) =
      any-insert_by p a (sort_by xs) ∙ ap (λ rest. p a || rest) (any-sort_by p xs)

  pub all-insert_by :
      (p : A → Bool) (a : A) (xs : List A) → all p (insert_by a xs) ≡ (p a && all p xs)
  unfolding insert_by
  all-insert_by p a [] = refl
  all-insert_by p a (b ∷ bs) = ground (arith, all-insert_by p a bs)

  pub all-sort_by : (p : A → Bool) (xs : List A) → all p (sort_by xs) ≡ all p xs
  unfolding sort_by
  all-sort_by p [] = refl
  all-sort_by p (a ∷ xs) =
      all-insert_by p a (sort_by xs) ∙ ap (λ rest. p a && rest) (all-sort_by p xs)

  length-insert_by : (a : A) (xs : List A) → length (insert_by a xs) ≡ suc (length xs)
  unfolding insert_by
  length-insert_by a [] = refl
  length-insert_by a (b ∷ bs) = ground (arith, length-insert_by a bs)

  pub length-sort_by : (xs : List A) → length (sort_by xs) ≡ length xs
  unfolding sort_by
  length-sort_by [] = refl
  length-sort_by (a ∷ xs) = length-insert_by a (sort_by xs) ∙ ap suc (length-sort_by xs)

  module _ (f : A → A) (keeps : (a b : A) → comes_first (f a) (f b) ≡ comes_first a b) where
    map-insert_by : (a : A) (xs : List A) → map f (insert_by a xs) ≡ insert_by (f a) (map f xs)
    unfolding insert_by
    map-insert_by a [] = refl
    map-insert_by a (b ∷ bs) = elim (Bool-cases (comes_first a b)) [
      | inl first ↦ rw (keeps a b, first) refl
      | inr later ↦ rw (keeps a b, later) (ap (λ rest. f b ∷ rest) (map-insert_by a bs))
    ]

    -- A function that does not change the order can be applied before.
    pub map-sort_by : (xs : List A) → map f (sort_by xs) ≡ sort_by (map f xs)
    unfolding sort_by
    map-sort_by [] = refl
    map-sort_by (a ∷ xs) = map-insert_by a (sort_by xs) ∙ ap (insert_by (f a)) (map-sort_by xs)

-- Sorting by what a function makes of the elements, and sorting what it makes of them.
module _ {A B : Type 0} (f : A → B) (comes_first : B → B → Bool) where
  abbrev pub sort_on : List A → List A
  sort_on xs = sort_by (λ a b. comes_first (f a) (f b)) xs

  map-insert_on :
      (a : A) (xs : List A)
      → map f (insert_by (λ a b. comes_first (f a) (f b)) a xs)
        ≡ insert_by comes_first (f a) (map f xs)
  unfolding insert_by
  map-insert_on a [] = refl
  map-insert_on a (b ∷ bs) = elim (Bool-cases (comes_first (f a) (f b))) [
    | inl first ↦ rw first refl
    | inr later ↦ rw later (ap (λ rest. f b ∷ rest) (map-insert_on a bs))
  ]

  pub map-sort_on : (xs : List A) → map f (sort_on xs) ≡ sort_by comes_first (map f xs)
  unfolding sort_by
  map-sort_on [] = refl
  map-sort_on (a ∷ xs) =
      map-insert_on a (sort_on xs) ∙ ap (insert_by comes_first (f a)) (map-sort_on xs)

module _ {A : Type 0} (comes_first : A → A → Bool) where
  insert_by-Perm : (a : A) (xs : List A) → Perm (insert_by comes_first a xs) (a ∷ xs)
  unfolding insert_by
  insert_by-Perm a [] = Perm.refl (a ∷ [])
  insert_by-Perm a (b ∷ bs) = elim (Bool-cases (comes_first a b)) [
    | inl first ↦ rw first (Perm.refl (a ∷ b ∷ bs))
    | inr later ↦ rw later (Perm.trans (Perm.cons b (insert_by-Perm a bs)) (Perm.swap a b bs))
  ]

  -- A sorted list holds what the list holds, as many times.
  pub sort_by-Perm : (xs : List A) → Perm (sort_by comes_first xs) xs
  unfolding sort_by
  sort_by-Perm [] = Perm.refl []
  sort_by-Perm (a ∷ xs) =
      Perm.trans (insert_by-Perm a (sort_by comes_first xs)) (Perm.cons a (sort_by-Perm xs))
