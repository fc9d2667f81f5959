-- ===== src/SearchFilter/Requests.antt =====
-- internal/searchfilter/compile.go: `ParseAndCompile`, against what a JSON filter means. A filter that
-- the compiler refuses is given the meaning `false`.
pub mod Conditions
pub mod Admitted
use goncho.Prelude.{
  ◌≡◌, String, Bool, true, false, ◌&&◌, ◌||◌, List, [], ◌∷◌, ◌++◌, Option, none, some, refl, sym,
  arith, if◌then◌else◌, if_cases, if_intro, ap, ◌∙◌, ◌==◌, inl, inr, Bool-cases,
}
use goncho.Prelude.Text.{trim_space}
use goncho.Prelude.Result.{Result, ok, err, ◌>>=◌}
use goncho.SearchFilter.Contracts.{
  Kind, all_kind, and_kind, or_kind, not_kind, comparison, other, Operator, in_list, eq, Expression,
  Expressions, node, nil, cons, Compiled, UnsupportedFilterError,
}
use goncho.SearchFilter.Values.{
  Value, null, scalar, list, object, Items, no_items, item, Entries, no_entries, entry,
  filter_values,
}
use goncho.SearchFilter.Grammar.{
  Parsed, all_expression, logical_expression, comparison_expression, parse_filter_operator,
  join_path, is_supported_top_level_filter_field, Classification, empty, valid, plain, mixed,
  classify_operator_map, with_child, collapsed, refused, compared, operator_condition,
  operator_conditions, parse_operator_conditions, parse_field_condition, nested_metadata,
  metadata_children, parse_metadata_map, parse_metadata_filter, parse_field, logical, logical_kind,
  is_logical, filter_children, parse_logical_filter, logical_children, parse_filter_map, parse,
}
use goncho.SearchFilter.Grammar.Yields.{
  Yields, err-Yields, ok-Yields, with_child-Yields, collapsed-Yields,
}
use goncho.SearchFilter.Compiler.{compile}
use goncho.SearchFilter.Compiler.Meaning.{admits, field_names, comparison_holds, holds, all_hold}
use goncho.SearchFilter.Compiler.Admits.{admits-compile}

module _ (sprint : Value → String) (to_lower : String → String) where
  unfoldable pub parse_and_compile : Entries → String → Result UnsupportedFilterError Compiled
  parse_and_compile raw peer = parse sprint raw >>= (λ e. compile to_lower e peer)

  abbrev pub text_of : Value → String
  text_of null = ""
  text_of (scalar s) = trim_space (sprint (scalar s))
  text_of (list items) = trim_space (sprint (list items))
  text_of (object fields) = trim_space (sprint (object fields))

  unfoldable pub texts_in : Items → List String
  texts_in no_items = []
  texts_in (item value rest) = text_of value ∷ texts_in rest

  abbrev pub texts_of : Value → List String
  texts_of (list items) = texts_in items
  texts_of null = []
  texts_of (scalar s) = []
  texts_of (object fields) = []

  module _ (peer session source : String) where
    -- A condition by the name of its operator. One that neither asks for equality with the text of its value
    -- nor with one in a list is refused by the compiler.
    abbrev pub condition_holds : String → Value → String → Bool
    condition_holds field value name =
        if name == "eq"
        then field_names to_lower field (text_of value ∷ []) peer session source
        else if name == "in"
        then field_names to_lower field (texts_of value) peer session source
        else false

    -- All conditions of an object such as {"in": [...]}.
    unfoldable pub conditions_hold : String → Entries → Bool
    conditions_hold field no_entries = true
    conditions_hold field (entry name value rest) =
        condition_holds field value name && conditions_hold field rest

    unfoldable pub field_holds : String → Value → Bool
    unfolding conditions_hold
    field_holds field (object ops) = conditions_hold field ops
    field_holds field null = condition_holds field null "eq"
    field_holds field (scalar s) = condition_holds field (scalar s) "eq"
    field_holds field (list items) = condition_holds field (list items) "eq"

    -- The index knows no metadata: only an empty object asks for nothing.
    abbrev pub metadata_holds : Value → Bool
    metadata_holds (object no_entries) = true
    metadata_holds _ = false

    -- All entries of the filter hold; an AND holds when each of its objects does.
    unfoldable mutual
      pub request_holds : Entries → Bool
      request_holds no_entries = true
      request_holds (entry key value rest) =
          (if key == "AND"
            then each_holds value
            else if key == "OR" || key == "NOT"
            then false
            else if key == "metadata"
            then metadata_holds value
            else field_holds key value)
          && request_holds rest

      pub each_holds : Value → Bool
      each_holds (list items) = items_hold items
      each_holds null = false
      each_holds (scalar s) = false
      each_holds (object raw) = false

      pub items_hold : Items → Bool
      items_hold no_items = true
      items_hold (item (object raw) rest) = request_holds raw && items_hold rest
      items_hold (item null rest) = false
      items_hold (item (scalar s) rest) = false
      items_hold (item (list items) rest) = false
