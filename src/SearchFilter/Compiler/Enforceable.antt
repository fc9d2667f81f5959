-- ===== src/SearchFilter/Compiler/Enforceable.antt =====
-- Which expressions compile.
use goncho.Prelude.{
  ◌≡◌, String, Bool, true, false, ◌&&◌, ◌||◌, List, ◌==◌, refl, sym, arith, Bool-cases, inl, inr,
}
use goncho.Prelude.Result.{Result, ok, err, ◌>>=◌}
use goncho.SearchFilter.Contracts.{
  all_kind, and_kind, or_kind, not_kind, comparison, other, Operator, Expression, Expressions, node,
  nil, cons, Compiled, UnsupportedFilterError,
}
use goncho.SearchFilter.Compiler.{
  is_equality_operator, compile_equality_filter_values, compile_comparison_filter,
  merge_compiled_search_filters, merge_child, no_limits, compile, compile_children,
}

abbrev pub is_ok : {E A : Type 0} → Result E A → Bool
is_ok (ok a) = true
is_ok (err e) = false

-- A field that the search index has.
abbrev is_indexed : String → Bool
is_indexed field = field == "session_id" || (field == "source" || field == "peer_id")

-- No OR and no NOT, and every comparison is an equality, or a choice from a list, on a field of the
-- index. (Below an OR or a NOT it does not matter what stands.)
unfoldable mutual
  pub is_enforceable : Expression → Bool
  is_enforceable (node all_kind children field operator values) = true
  is_enforceable (node and_kind children field operator values) = are_enforceable children
  is_enforceable (node or_kind children field operator values) = false
  is_enforceable (node not_kind children field operator values) = false
  is_enforceable (node comparison children field operator values) =
      is_indexed field && is_equality_operator operator
  is_enforceable (node (other kind) children field operator values) = kind == ""

  are_enforceable : Expressions → Bool
  are_enforceable nil = true
  are_enforceable (cons child children) = is_enforceable child && are_enforceable children

module _ (to_lower : String → String) where
  comparison_ok :
      (field : String) (operator : Operator) (values : List String) (peer : String)
      → is_ok (compile_comparison_filter to_lower field operator values peer)
        ≡ (is_indexed field && is_equality_operator operator)
  unfolding compile_comparison_filter compile_equality_filter_values
  comparison_ok field operator values peer = elim (Bool-cases (is_equality_operator operator)) [
    | inl equality ↦ rw equality (ground arith)
    | inr no_equality ↦ rw no_equality (ground arith)
  ]

  merge_ok :
      (out : Compiled) (child : Result UnsupportedFilterError Compiled) (test rest : Bool)
      (next : Compiled → Result UnsupportedFilterError Compiled)
      → is_ok child ≡ test
      → ((merged : Compiled) → is_ok (next merged) ≡ rest)
      → is_ok (merge_child to_lower out child >>= next) ≡ (test && rest)
  merge_ok out (err e) test rest next first then_rest = rw (sym first) refl
  merge_ok out (ok compiled) test rest next first then_rest =
      rw (sym first) (then_rest (merge_compiled_search_filters out compiled))

  mutual
    unfolding compile is_enforceable

    compile_ok :
        (e : Expression) (peer : String) → is_ok (compile to_lower e peer) ≡ is_enforceable e
    compile_ok (node all_kind children field operator values) peer = refl
    compile_ok (node and_kind children field operator values) peer =
        children_ok children peer no_limits
    compile_ok (node or_kind children field operator values) peer = refl
    compile_ok (node not_kind children field operator values) peer = refl
    compile_ok (node comparison children field operator values) peer =
        comparison_ok field operator values peer
    compile_ok (node (other kind) children field operator values) peer = ground arith

    children_ok :
        (es : Expressions) (peer : String) (out : Compiled)
        → is_ok (compile_children to_lower es peer out) ≡ are_enforceable es
    children_ok nil peer out = refl
    children_ok (cons child children) peer out =
        merge_ok out (compile to_lower child peer) _ _ _ (compile_ok child peer)
          (λ merged. children_ok children peer merged)

-- An expression compiles exactly when it is enforceable; for any other the compiler returns an error.
pub compile-is_enforceable :
    (to_lower : String → String) (e : Expression) (peer : String)
    → is_ok (compile to_lower e peer) ≡ is_enforceable e
compile-is_enforceable to_lower e peer = compile_ok to_lower e peer
