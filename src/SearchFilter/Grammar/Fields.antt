-- ===== src/SearchFilter/Grammar/Fields.antt =====
-- The fields of a parsed expression.
use goncho.Prelude.Quantifiers.{all-append}
use goncho.Prelude.{
  ◌≡◌, String, Bool, true, ◌&&◌, ◌||◌, List, [], ◌∷◌, ◌++◌, Option, none, some, refl, sym, arith,
  if_cases, if_intro, all, ap, ◌∙◌, ◌==◌,
}
use goncho.Prelude.Result.{Result, ok, err}
use Prim.Native.String.{◌++◌ as str_append}
use text.Mathlib.Text.{starts_with}
use text.Mathlib.TextPositions.{starts_with-append}
use goncho.Prelude.Text.{append_assoc}
use goncho.SearchFilter.Contracts.{
  Operator, eq, Expression, Expressions, node, nil, cons, UnsupportedFilterError,
}
use goncho.SearchFilter.Values.{
  Value, null, scalar, list, object, Items, no_items, item, Entries, no_entries, entry,
  filter_values,
}
use goncho.SearchFilter.Grammar.{
  Parsed, all_expression, logical_expression, comparison_expression, parse_filter_operator,
  join_path, is_supported_top_level_filter_field, Classification, empty, valid, plain, mixed,
  classify_operator_map, collapsed, compared, operator_condition, operator_conditions,
  parse_operator_conditions, parse_field_condition, nested_metadata, metadata_children,
  parse_metadata_map, parse_metadata_filter, parse_field, logical, logical_kind, is_logical,
  filter_children, parse_logical_filter, logical_children, parse_filter_map, parse,
  flatten_comparisons, flatten_all,
}
use goncho.SearchFilter.Grammar.Yields.{
  Yields, err-Yields, ok-Yields, with_child-Yields, collapsed-Yields,
}

abbrev is_known_field : String → Bool
is_known_field field = is_supported_top_level_filter_field field || starts_with field "metadata."

abbrev pub has_known_field : Expression → Bool
has_known_field (node kind children field operator values) = is_known_field field

abbrev well_named : Expression → Bool
well_named e = all has_known_field (flatten_comparisons e)

abbrev all_well_named : Expressions → Bool
all_well_named es = all has_known_field (flatten_all es)

named_nil : all_well_named nil ≡ true
unfolding flatten_all
named_nil = refl

named_cons :
    (e : Expression) (es : Expressions)
    → all_well_named (cons e es) ≡ (well_named e && all_well_named es)
unfolding flatten_all
named_cons e es = all-append has_known_field (flatten_comparisons e) (flatten_all es)

named_all : well_named all_expression ≡ true
unfolding flatten_comparisons
named_all = refl

named_logical :
    (key : String) (es : Expressions)
    → well_named (logical_expression (logical_kind key) es) ≡ all_well_named es
unfolding flatten_comparisons
named_logical key es =
    if_intro (λ kind. well_named (logical_expression kind es) ≡ all_well_named es) (key == "AND") _
      _ refl
      (if_intro (λ kind. well_named (logical_expression kind es) ≡ all_well_named es) (key == "OR")
        _ _ refl refl)

-- "metadata." stands before what is joined to "metadata" by a dot.
metadata_prefix :
    (s : String) → starts_with (str_append "metadata" (str_append "." s)) "metadata." ≡ true
metadata_prefix s =
    ap (λ t. starts_with t "metadata.") (sym (append_assoc "metadata" "." s))
    ∙ starts_with-append "metadata." s

pub starts_with-join_path :
    (path : List String) (key : String)
    → starts_with (join_path ("metadata" ∷ (path ++ key ∷ []))) "metadata." ≡ true
unfolding join_path
starts_with-join_path [] key = metadata_prefix key
starts_with-join_path (part ∷ []) key = metadata_prefix (join_path (part ∷ key ∷ []))
starts_with-join_path (part ∷ next ∷ path) key =
    metadata_prefix (join_path (part ∷ next ∷ (path ++ key ∷ [])))

metadata_path :
    (path : List String) (key : String)
    → is_known_field (join_path ("metadata" ∷ (path ++ key ∷ []))) ≡ true
metadata_path path key = ground (arith, starts_with-join_path path key)

module _ (sprint : Value → String) where
  compared_named :
      (field : String) (op : Operator) (name : String) (values : Result String (List String))
      → is_known_field field ≡ true
      → Yields (compared sprint field op name values) well_named true
  unfolding flatten_comparisons
  compared_named field op name (err reason) known = err-Yields _ well_named true
  compared_named field op name (ok values) known =
      ok-Yields (comparison_expression field op values) well_named true (rw known refl)

  operator_named :
      (field name : String) (value : Value) (op : Option Operator)
      → is_known_field field ≡ true
      → Yields (operator_condition sprint field name value op) well_named true
  operator_named field name value none known = err-Yields _ well_named true
  operator_named field name value (some op) known =
      compared_named field op name (filter_values sprint value op) known

  operators_named :
      (field : String) (ops : Entries)
      → is_known_field field ≡ true
      → Yields (operator_conditions sprint field ops) all_well_named true
  unfolding operator_conditions
  operators_named field no_entries known = ok-Yields nil all_well_named true named_nil
  operators_named field (entry name value rest) known =
      with_child-Yields well_named all_well_named named_nil named_cons _ _ true true
        (operator_named field name value (parse_filter_operator name) known)
        (operators_named field rest known)

  collapsed_named :
      (r : Result UnsupportedFilterError Expressions)
      → Yields r all_well_named true
      → Yields (collapsed r) well_named true
  collapsed_named r h =
      collapsed-Yields well_named all_well_named named_nil named_cons named_all
        (λ es. named_logical "AND" es) r true h

  condition_named :
      (field : String) (value : Value)
      → is_known_field field ≡ true
      → Yields (parse_field_condition sprint field value) well_named true
  unfolding parse_field_condition parse_operator_conditions
  condition_named field (object no_entries) known = err-Yields _ well_named true
  condition_named field (object (entry name value rest)) known =
      collapsed_named _ (operators_named field (entry name value rest) known)
  condition_named field null known =
      compared_named field eq "eq" (filter_values sprint null eq) known
  condition_named field (scalar s) known =
      compared_named field eq "eq" (filter_values sprint (scalar s) eq) known
  condition_named field (list items) known =
      compared_named field eq "eq" (filter_values sprint (list items) eq) known

  nested_named :
      (path : List String) (key : String) (nested : Entries) (class : Classification)
      (deeper : Parsed)
      → Yields deeper well_named true
      → Yields
          (nested_metadata sprint ("metadata" ∷ (path ++ key ∷ [])) nested class deeper)
          well_named
          true
  nested_named path key nested empty deeper h = err-Yields _ well_named true
  nested_named path key nested (mixed unknown) deeper h = err-Yields _ well_named true
  nested_named path key nested plain deeper h = h
  nested_named path key nested valid deeper h =
      condition_named _ (object nested) (metadata_path path key)

  metadata_named :
      (raw : Entries) (path : List String)
      → Yields (metadata_children sprint raw ("metadata" ∷ path)) all_well_named true
  unfolding metadata_children
  metadata_named no_entries path = ok-Yields nil all_well_named true named_nil
  metadata_named (entry key (object nested) rest) path =
      with_child-Yields well_named all_well_named named_nil named_cons _ _ true true
        (nested_named path key nested (classify_operator_map nested) _
          (collapsed_named _ (metadata_named nested (path ++ key ∷ []))))
        (metadata_named rest path)
  metadata_named (entry key value rest) path =
      with_child-Yields well_named all_well_named named_nil named_cons _ _ true true
        (condition_named _ value (metadata_path path key)) (metadata_named rest path)

  metadata_filter_named :
      (value : Value) → Yields (parse_metadata_filter sprint value) well_named true
  unfolding parse_metadata_filter parse_metadata_map
  metadata_filter_named (object raw) = collapsed_named _ (metadata_named raw [])
  metadata_filter_named null = err-Yields _ well_named true
  metadata_filter_named (scalar s) = err-Yields _ well_named true
  metadata_filter_named (list items) = err-Yields _ well_named true

  field_named :
      (key : String) (value : Value) → Yields (parse_field sprint [] key value) well_named true
  unfolding parse_field join_path
  field_named key value =
      if_cases (λ r. Yields r well_named true) (is_supported_top_level_filter_field key) _ _
        (λ known. condition_named key value (ground arith))
        (λ unknown. err-Yields _ well_named true)

  logical_named :
      (key : String) (r : Result UnsupportedFilterError Expressions)
      → Yields r all_well_named true
      → Yields (logical (logical_kind key) r) well_named true
  logical_named key (err e) h = err-Yields e well_named true
  logical_named key (ok es) h =
      ok-Yields (logical_expression (logical_kind key) es) well_named true
        (named_logical key es ∙ h es refl)

  mutual
    unfolding filter_children

    filter_named : (raw : Entries) → Yields (filter_children sprint raw []) all_well_named true
    filter_named no_entries = ok-Yields nil all_well_named true named_nil
    filter_named (entry key value rest) =
        with_child-Yields well_named all_well_named named_nil named_cons _ _ true true
          (if_intro (λ r. Yields r well_named true) (is_logical key) _ _
            (logical_named key _ (logical_filter_named value key))
            (if_intro (λ r. Yields r well_named true) (key == "metadata") _ _
              (metadata_filter_named value) (field_named key value)))
          (filter_named rest)

    logical_filter_named :
        (value : Value) (key : String)
        → Yields (parse_logical_filter sprint value key []) all_well_named true
    logical_filter_named (list items) key = items_named items key
    logical_filter_named null key = err-Yields _ all_well_named true
    logical_filter_named (scalar s) key = err-Yields _ all_well_named true
    logical_filter_named (object raw) key = err-Yields _ all_well_named true

    items_named :
        (items : Items) (key : String)
        → Yields (logical_children sprint items key []) all_well_named true
    items_named no_items key = ok-Yields nil all_well_named true named_nil
    items_named (item (object raw) rest) key =
        with_child-Yields well_named all_well_named named_nil named_cons _ _ true true
          (collapsed_named _ (filter_named raw)) (items_named rest key)
    items_named (item null rest) key = err-Yields _ all_well_named true
    items_named (item (scalar s) rest) key = err-Yields _ all_well_named true
    items_named (item (list items) rest) key = err-Yields _ all_well_named true

-- Every comparison of a parsed filter is on one of the five fields of the top level, or on a field
-- below `metadata`.
pub parse-flatten_comparisons :
    (sprint : Value → String) (raw : Entries) (e : Expression)
    → parse sprint raw ≡ ok e
    → all has_known_field (flatten_comparisons e) ≡ true
unfolding parse parse_filter_map
parse-flatten_comparisons sprint raw e =
    collapsed_named sprint (filter_children sprint raw []) (filter_named sprint raw) e
