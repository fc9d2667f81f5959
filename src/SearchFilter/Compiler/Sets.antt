-- ===== src/SearchFilter/Compiler/Sets.antt =====
-- The sets of values that a compiled filter holds: `intersectFilterValues`, with "*" and the empty list for no limit.
use goncho.Prelude.Quantifiers.{any-append}
use goncho.Prelude.{
  ◌≡◌, String, Bool, true, false, not, ◌&&◌, ◌||◌, List, [], ◌∷◌, ◌++◌, if_cases, ◌==◌, contains,
  any, refl, arith, eq_iff, Bool-cases, inl, inr, contains-snoc,
}
use goncho.SearchFilter.Compiler.{is_empty, common_from, intersect_filter_values}
use goncho.SearchFilter.Values.{clean, normalize_from, normalize_equality_values}

-- What a list of values admits.
abbrev pub admits_values : List String → String → Bool
admits_values values a = is_empty values || (contains values "*" || contains values a)

contains-common_from :
    (a b out : List String) (x : String)
    → contains (common_from a b out) x ≡ (contains out x || (contains a x && contains b x))
unfolding common_from contains
contains-common_from [] b out x = ground arith
contains-common_from (left ∷ a) b out x =
    elim (Bool-cases (contains b left && not (contains out left))) [
      | inl fresh ↦ rw fresh (
          ground (
            arith,
            contains-common_from a b (out ++ left ∷ []) x,
            contains-snoc out left x,
            eq_iff left x,
          ))
      | inr stale ↦ rw stale (ground (arith, contains-common_from a b out x, eq_iff left x))
    ]

contains-is_empty : (xs : List String) (x : String) → contains xs x ≡ true → is_empty xs ≡ false
unfolding contains
contains-is_empty [] x h = cc
contains-is_empty (y ∷ ys) x h = refl

abbrev pub admits_pair : List String × Bool → String → Bool
admits_pair (values, deny) a = not deny && admits_values values a

-- The last case of `intersectFilterValues`.
common_lem :
    (a b : List String) (x : String)
    → is_empty a ≡ false
    → is_empty b ≡ false
    → contains a "*" ≡ false
    → contains b "*" ≡ false
    → admits_pair (common_from a b [], is_empty (common_from a b [])) x
      ≡ (contains a x && contains b x)
unfolding contains
common_lem a b x ea eb wa wb = ground (
  arith,
  contains-common_from a b [] x,
  contains-common_from a b [] "*",
  contains-is_empty (common_from a b []) x,
)

pub intersect_filter_values_lem :
    (a b : List String) (x : String)
    → admits_pair (intersect_filter_values a b) x ≡ (admits_values a x && admits_values b x)
unfolding intersect_filter_values
intersect_filter_values_lem a b x =
    let P : List String × Bool → Type 0 =
      λ p. admits_pair p x ≡ (admits_values a x && admits_values b x) in
    if_cases P (is_empty a) _ _ (λ ea. ground arith)
      (λ ea.
        if_cases P (is_empty b) _ _ (λ eb. ground arith)
          (λ eb.
            if_cases P (contains a "*") _ _ (λ wa. ground arith)
              (λ wa.
                if_cases P (contains b "*") _ _ (λ wb. ground arith)
                  (λ wb. ground (arith, common_lem a b x)))))

any-contains :
    (p : String → Bool) (xs : List String) (x : String)
    → contains xs x ≡ true
    → p x ≡ true
    → any p xs ≡ true
unfolding contains
any-contains p [] x h q = cc
any-contains p (y ∷ ys) x h q = elim (Bool-cases (y == x)) [
  | inl same ↦ rw ((eq_iff y x).0 same, q) refl
  | inr apart ↦ ground (arith, any-contains p ys x)
]

module _ (to_lower : String → String) (p : String → Bool) (lower : Bool) where
  abbrev pub passes : String → Bool
  passes raw = not (clean to_lower lower raw == "") && p (clean to_lower lower raw)

  any-normalize_from :
      (raws out : List String)
      → any p (normalize_from to_lower lower raws out) ≡ (any p out || any passes raws)
  unfolding normalize_from
  any-normalize_from [] out = ground arith
  any-normalize_from (raw ∷ raws) out =
      let value = clean to_lower lower raw in
      elim (Bool-cases (value == "" || contains out value)) [
        | inl skip ↦ rw skip (ground (arith, any-normalize_from raws out, any-contains p out value))
        | inr fresh ↦ rw fresh (
            ground
              (arith, any-normalize_from raws (out ++ value ∷ []), any-append p out (value ∷ [])))
      ]

  -- A test on the normalized values is a test on the nonblank values.
  pub any-normalize_equality_values :
      (raws : List String) → any p (normalize_equality_values to_lower raws lower) ≡ any passes raws
  unfolding normalize_equality_values
  any-normalize_equality_values raws = any-normalize_from raws []
