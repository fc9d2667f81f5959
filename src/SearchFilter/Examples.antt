-- ===== src/SearchFilter/Examples.antt =====
-- Concrete filters.
use goncho.Prelude.{◌≡◌, refl, String, true, false, [], ◌∷◌, all, contains}
use goncho.Prelude.Result.{ok}
use goncho.Prelude.Text.{trim_space, is_space}
use goncho.SearchFilter.Contracts.{
  and_kind, comparison, in_list, eq, unset, Expression, node, nil, cons, Compiled,
}
use goncho.SearchFilter.Values.{
  Value, null, scalar, list, object, no_items, item, Entries, no_entries, entry,
  normalize_equality_values, filter_values,
}
use goncho.SearchFilter.Compiler.{
  compile, compile_comparison_filter, merge_compiled_search_filters, intersect_filter_values,
}
use goncho.SearchFilter.Compiler.Meaning.{admits}
use goncho.SearchFilter.Compiler.Enforceable.{is_ok, is_enforceable, compile-is_enforceable}
use goncho.SearchFilter.Grammar.{
  parse, flatten_comparisons, filter_children, parse_field, parse_field_condition,
  operator_conditions, collapse_implicit_and, join_path, is_supported_top_level_filter_field,
  parse_filter_operator, metadata_children, parse_metadata_filter, classify_operator_map,
}
use goncho.SearchFilter.Grammar.Fields.{has_known_field, parse-flatten_comparisons}
use goncho.SearchFilter.Requests.{parse_and_compile, request_holds}
use goncho.SearchFilter.Requests.Admitted.{admits-parse_and_compile}

-- Texts print as themselves.
abbrev print : Value → String
print null = "<nil>"
print (scalar s) = s
print (list items) = "[]"
print (object raw) = "map[]"

abbrev same_case : String → String
same_case s = s

abbrev in_sessions : Expression
in_sessions = node comparison nil "session_id" in_list ("s1" ∷ "s2" ∷ [])

abbrev from_chat : Expression
from_chat = node comparison nil "source" eq ("chat" ∷ [])

abbrev both : Expression
both = node and_kind (cons in_sessions (cons from_chat nil)) "" unset []

abbrev limits : Compiled
limits = record { session_ids = "s1" ∷ "s2" ∷ []; sources = "chat" ∷ []; deny_all = false }

-- {"AND": [{"session_id": {"in": ["s1", "s2"]}}, {"source": "chat"}]}
abbrev request : Entries
request =
    entry "AND"
      (list (
        item
          (object (
            entry "session_id"
              (object
                (entry "in" (list (item (scalar "s1") (item (scalar "s2") no_items))) no_entries))
              no_entries))
          (item (object (entry "source" (scalar "chat") no_entries)) no_items)))
      no_entries

-- {"metadata": {"topic": {"name": "go"}}}
abbrev metadata_request : Entries
metadata_request =
    entry "metadata"
      (object (entry "topic" (object (entry "name" (scalar "go") no_entries)) no_entries))
      no_entries

both-compile : compile same_case both "ana" ≡ ok limits
unfolding compile normalize_equality_values compile_comparison_filter merge_compiled_search_filters
    intersect_filter_values trim_space is_space contains
both-compile = refl

request-parse : parse print request ≡ ok both
unfolding parse filter_children parse_field parse_field_condition operator_conditions
    collapse_implicit_and join_path is_supported_top_level_filter_field parse_filter_operator
    filter_values trim_space is_space
request-parse = refl

request-parse_and_compile : parse_and_compile print same_case request "ana" ≡ ok limits
unfolding parse_and_compile parse filter_children parse_field parse_field_condition
    operator_conditions collapse_implicit_and join_path is_supported_top_level_filter_field
    parse_filter_operator filter_values compile normalize_equality_values compile_comparison_filter
    merge_compiled_search_filters intersect_filter_values trim_space is_space contains
request-parse_and_compile = refl

metadata_request-parse :
    parse print metadata_request ≡ ok (node comparison nil "metadata.topic.name" eq ("go" ∷ []))
unfolding parse filter_children parse_metadata_filter classify_operator_map metadata_children
    parse_field_condition operator_conditions collapse_implicit_and join_path parse_filter_operator
    filter_values trim_space is_space
metadata_request-parse = refl

compile-is_enforceable_example : is_ok (compile same_case both "ana") ≡ is_enforceable both
compile-is_enforceable_example = compile-is_enforceable same_case both "ana"

parse-flatten_comparisons_example :
    all has_known_field
      (flatten_comparisons (node comparison nil "metadata.topic.name" eq ("go" ∷ [])))
    ≡ true
parse-flatten_comparisons_example =
    parse-flatten_comparisons print metadata_request
      (node comparison nil "metadata.topic.name" eq ("go" ∷ [])) metadata_request-parse

admits-parse_and_compile_example :
    admits limits "s1" "mail" ≡ request_holds print same_case "ana" "s1" "mail" request
admits-parse_and_compile_example =
    admits-parse_and_compile print same_case request "ana" "s1" "mail" limits
      request-parse_and_compile
