-- ===== src/SearchFilter/Compiler.antt =====
-- internal/searchfilter/compiler/compile.go: what the search index enforces of an expression.
use goncho.Prelude.{
  ◌≡◌, String, Bool, true, false, not, ◌&&◌, ◌||◌, List, [], ◌∷◌, ◌++◌, Option, none, some,
  if◌then◌else◌, ◌==◌, contains, any,
}
use goncho.Prelude.Text.{trim_space}
use goncho.Prelude.Result.{Result, ok, err, ◌>>=◌}
use text.Mathlib.Text.{starts_with}
use Prim.Native.String.{◌++◌ as str_append}
use goncho.SearchFilter.Contracts.{
  Kind, all_kind, and_kind, or_kind, not_kind, comparison, other, Operator, eq, in_list, Expression,
  Expressions, node, nil, cons, Compiled, UnsupportedFilterError, operator_name,
  new_unsupported_filter,
}
use goncho.SearchFilter.Values.{normalize_equality_values}
pub mod Sets
pub mod Meaning
pub mod Admits
pub mod Enforceable
pub mod Sources

abbrev pub no_limits : Compiled
no_limits = record { session_ids = []; sources = []; deny_all = false }

abbrev pub denied : Compiled
denied = record { session_ids = []; sources = []; deny_all = true }

abbrev pub is_empty : List String → Bool
is_empty [] = true
is_empty (_ ∷ _) = false

-- The loop of `intersectFilterValues`.
unfoldable pub common_from : List String → List String → List String → List String
common_from [] b out = out
common_from (left ∷ a) b out =
    common_from a b (if contains b left && not (contains out left) then out ++ left ∷ [] else out)

unfoldable pub intersect_filter_values : List String → List String → List String × Bool
unfolding common_from
intersect_filter_values a b =
    if is_empty a
    then (b, false)
    else if is_empty b
    then (a, false)
    else if contains a "*"
    then (b, false)
    else if contains b "*"
    then (a, false)
    else (common_from a b [], is_empty (common_from a b []))

abbrev pub combine : List String × Bool → List String × Bool → Compiled
combine (session_ids, deny_sessions) (sources, deny_sources) =
    if deny_sessions || deny_sources
    then denied
    else (record { session_ids = session_ids; sources = sources; deny_all = false })

unfoldable pub merge_compiled_search_filters : Compiled → Compiled → Compiled
merge_compiled_search_filters a b =
    if a.deny_all || b.deny_all
    then denied
    else combine (intersect_filter_values a.session_ids b.session_ids)
        (intersect_filter_values a.sources b.sources)

unfoldable pub peer_filter_matches : List String → String → Bool
peer_filter_matches values peer =
    any (λ value. trim_space value == "*" || trim_space value == trim_space peer) values

abbrev pub is_equality_operator : Operator → Bool
is_equality_operator eq = true
is_equality_operator in_list = true
is_equality_operator _ = false

unfoldable has_wildcard : List String → Bool
has_wildcard values = any (λ value. trim_space value == "*") values

-- The error of a comparison on any field but the three that are enforced.
unfoldable unsupported_field : String → Operator → UnsupportedFilterError
unfolding new_unsupported_filter operator_name
unsupported_field field operator =
    if field == "created_at" || field == "content"
    then new_unsupported_filter field (operator_name operator)
        "field is parsed but not enforceable by the current search index"
    else if starts_with field "metadata."
    then new_unsupported_filter field (operator_name operator)
        "metadata filters require a metadata index"
    else new_unsupported_filter field (operator_name operator) "unknown filter field"

module _ (to_lower : String → String) where
  abbrev pub Outcome : Type 0
  Outcome = Result UnsupportedFilterError Compiled

  -- The values of a comparison; none of them denies all.
  unfoldable pub compile_equality_filter_values :
      String → Operator → List String → Bool → Result UnsupportedFilterError (List String)
  compile_equality_filter_values field operator values lower =
      if is_equality_operator operator
      then ok (normalize_equality_values to_lower values lower)
      else err (
          new_unsupported_filter field (operator_name operator)
            (str_append field " only supports equality, in, and wildcard filters"))

  abbrev pub compile_session_id :
      Result UnsupportedFilterError (List String) → Result UnsupportedFilterError Compiled
  compile_session_id (err e) = err e
  compile_session_id (ok values) =
      ok (if is_empty values then denied else (record no_limits { session_ids = values }))

  abbrev pub compile_source :
      Result UnsupportedFilterError (List String) → Result UnsupportedFilterError Compiled
  compile_source (err e) = err e
  compile_source (ok values) =
      ok (if is_empty values then denied else (record no_limits { sources = values }))

  abbrev pub compile_peer_id :
      String → Result UnsupportedFilterError (List String) → Result UnsupportedFilterError Compiled
  compile_peer_id peer (err e) = err e
  compile_peer_id peer (ok values) = ok (
      if is_empty values
      then denied
      else if peer_filter_matches values peer
      then no_limits
      else denied)

  unfoldable pub compile_comparison_filter :
      String → Operator → List String → String → Result UnsupportedFilterError Compiled
  unfolding compile_equality_filter_values unsupported_field
  compile_comparison_filter field operator values peer =
      if field == "session_id"
      then compile_session_id (compile_equality_filter_values field operator values false)
      else if field == "source"
      then compile_source (compile_equality_filter_values field operator values true)
      else if field == "peer_id"
      then compile_peer_id peer (compile_equality_filter_values field operator values false)
      else err (unsupported_field field operator)

  abbrev pub merge_child :
      Compiled → Result UnsupportedFilterError Compiled → Result UnsupportedFilterError Compiled
  merge_child out (err e) = err e
  merge_child out (ok compiled) = ok (merge_compiled_search_filters out compiled)

  unfoldable mutual
    unfolding compile_comparison_filter new_unsupported_filter

    pub compile : Expression → String → Result UnsupportedFilterError Compiled
    compile (node all_kind children field operator values) peer = ok no_limits
    compile (node and_kind children field operator values) peer =
        compile_children children peer no_limits
    compile (node or_kind children field operator values) peer = err (
        new_unsupported_filter "" "OR"
          "OR filters are parsed but not enforceable by the current search index")
    compile (node not_kind children field operator values) peer = err (
        new_unsupported_filter "" "NOT"
          "NOT filters are parsed but not enforceable by the current search index")
    compile (node comparison children field operator values) peer =
        compile_comparison_filter field operator values peer
    compile (node (other kind) children field operator values) peer =
        if kind == ""
        then ok no_limits
        else err (new_unsupported_filter field "" "unknown filter expression")

    -- The children of an AND that are left, with the filter of those before them.
    pub compile_children : Expressions → String → Compiled → Result UnsupportedFilterError Compiled
    compile_children nil peer out = ok out
    compile_children (cons child children) peer out =
        merge_child out (compile child peer) >>= (λ merged. compile_children children peer merged)

  abbrev pub enforced : List String × Bool → List String × Bool
  enforced (merged, deny) =
      if deny then ([], true) else if contains merged "*" then ([], false) else (merged, false)

  unfoldable pub merge_sources : List String → List String → List String × Bool
  unfolding intersect_filter_values
  merge_sources params_sources filter_sources = enforced (
      intersect_filter_values (normalize_equality_values to_lower params_sources true)
        (normalize_equality_values to_lower filter_sources true))
