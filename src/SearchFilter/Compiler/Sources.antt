-- ===== src/SearchFilter/Compiler/Sources.antt =====
-- `MergeSources`: the sources that a request names, together with those of its filter.
use goncho.Prelude.Quantifiers.{any_ext}
use goncho.Prelude.{
  ◌≡◌, String, Bool, true, not, ◌&&◌, ◌||◌, List, [], ◌∷◌, ◌==◌, any, refl, sym, ◌∙◌, arith,
  Bool-cases, inl, inr,
}
use mathlib.Core.Path.{ap₂}
use goncho.SearchFilter.Values.{clean, normalize_equality_values}
use goncho.SearchFilter.Compiler.{is_empty, enforced, merge_sources}
use goncho.SearchFilter.Compiler.Sets.{
  admits_values, admits_pair, intersect_filter_values_lem, any-normalize_equality_values,
}
use goncho.SearchFilter.Compiler.Meaning.{names, admits_values-any, names-normalized}

-- What a list of sources allows: everything, if all are blank, or else what one of them names.
abbrev allows : (String → String) → List String → String → Bool
allows to_lower sources a =
    not (any (λ raw. not (clean to_lower true raw == "")) sources) || names to_lower true sources a

any-true : (xs : List String) → any (λ x. true) xs ≡ not (is_empty xs)
any-true [] = refl
any-true (x ∷ xs) = refl

module _ (to_lower : String → String) where
  -- The normalized sources are empty when all given ones are blank.
  is_empty-normalized :
      (sources : List String)
      → not (is_empty (normalize_equality_values to_lower sources true))
        ≡ any (λ raw. not (clean to_lower true raw == "")) sources
  is_empty-normalized sources =
      sym (any-true (normalize_equality_values to_lower sources true))
      ∙ any-normalize_equality_values to_lower (λ x. true) true sources
      ∙ any_ext _ _ sources (λ raw. ground arith)

  admits-normalized :
      (sources : List String) (a : String)
      → admits_values (normalize_equality_values to_lower sources true) a
        ≡ allows to_lower sources a
  admits-normalized sources a =
      elim (Bool-cases (is_empty (normalize_equality_values to_lower sources true))) [
        | inl blank ↦ ground (arith, is_empty-normalized sources)
        | inr some_left ↦ ground (
          arith,
          is_empty-normalized sources,
          admits_values-any (normalize_equality_values to_lower sources true) a some_left,
          names-normalized to_lower true sources a,
        )
      ]

module _ (to_lower : String → String) where
  admits-enforced :
      (p : List String × Bool) (a : String) → admits_pair (enforced to_lower p) a ≡ admits_pair p a
  admits-enforced (merged, deny) a = ground arith

-- The merged sources admit a source exactly when both lists allow it: a list with no nonblank value, or with
-- "*", allows all, and any other what it names, whatever its case.
admits-merge_sources :
    (to_lower : String → String) (params_sources filter_sources : List String) (a : String)
    → admits_pair (merge_sources to_lower params_sources filter_sources) a
      ≡ (allows to_lower params_sources a && allows to_lower filter_sources a)
unfolding merge_sources
admits-merge_sources to_lower params_sources filter_sources a =
    admits-enforced to_lower _ a
    ∙ intersect_filter_values_lem (normalize_equality_values to_lower params_sources true)
        (normalize_equality_values to_lower filter_sources true) a
    ∙ ap₂ ◌&&◌ (admits-normalized to_lower params_sources a)
        (admits-normalized to_lower filter_sources a)
