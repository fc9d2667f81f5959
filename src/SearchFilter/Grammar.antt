-- ===== src/SearchFilter/Grammar.antt =====
-- internal/searchfilter/grammar/parse.go: a JSON filter is parsed into an expression. The entries of
-- an object stand in the order of their keys, in which `sortedMapKeys` makes the source read them.
use goncho.Prelude.{
  ℕ, suc, String, Bool, true, false, not, ◌&&◌, ◌||◌, List, [], ◌∷◌, ◌++◌, Option, none, some, ◌==◌,
  if◌then◌else◌, eqb, ltb,
}
use goncho.Prelude.Result.{Result, ok, err, ◌>>=◌}
use Prim.Native.String.{◌++◌ as str_append}
use goncho.SearchFilter.Contracts.{
  Kind, all_kind, and_kind, or_kind, not_kind, comparison, Operator, unset, eq, gt, gte, lt, lte,
  ne, in_list, contains_text, icontains, Expression, Expressions, node, nil, cons,
  UnsupportedFilterError, new_unsupported_filter, operator_name,
}
use goncho.SearchFilter.Values.{
  Value, null, scalar, list, object, Items, no_items, item, Entries, no_entries, entry,
  filter_values,
}
pub mod Yields
pub mod Fields

abbrev pub Parsed : Type 0
Parsed = Result UnsupportedFilterError Expression

abbrev pub all_expression : Expression
all_expression = node all_kind nil "" unset []

abbrev pub logical_expression : Kind → Expressions → Expression
logical_expression kind children = node kind children "" unset []

abbrev pub comparison_expression : String → Operator → List String → Expression
comparison_expression field operator values = node comparison nil field operator values

unfoldable pub collapse_implicit_and : Expressions → Expression
collapse_implicit_and nil = all_expression
collapse_implicit_and (cons child nil) = child
collapse_implicit_and (cons child (cons next children)) =
    logical_expression and_kind (cons child (cons next children))

-- The table `supportedFilterOperators`.
unfoldable pub parse_filter_operator : String → Option Operator
parse_filter_operator op =
    if op == "eq"
    then some eq
    else if op == "gt"
    then some gt
    else if op == "gte"
    then some gte
    else if op == "lt"
    then some lt
    else if op == "lte"
    then some lte
    else if op == "ne"
    then some ne
    else if op == "in"
    then some in_list
    else if op == "contains"
    then some contains_text
    else if op == "icontains"
    then some icontains
    else none

-- strings.Join(path, ".")
unfoldable pub join_path : List String → String
join_path [] = ""
join_path (part ∷ []) = part
join_path (part ∷ next ∷ parts) = str_append part (str_append "." (join_path (next ∷ parts)))

unfoldable pub is_supported_top_level_filter_field : String → Bool
is_supported_top_level_filter_field field =
    field == "session_id"
    || (field == "peer_id" || (field == "source" || (field == "created_at" || field == "content")))

abbrev is_some : {A : Type 0} → Option A → Bool
is_some none = false
is_some (some a) = true

abbrev count_entries : Entries → ℕ
count_entries no_entries = 0
count_entries (entry key value rest) = suc (count_entries rest)

unfoldable known_operators : Entries → ℕ
known_operators no_entries = 0
known_operators (entry key value rest) =
    let known = known_operators rest in
    if is_some (parse_filter_operator key) then suc known else known

-- The first key that is no operator; "" if there is none.
unfoldable unknown_operator : Entries → String
unknown_operator no_entries = ""
unknown_operator (entry key value rest) =
    let others = unknown_operator rest in
    if is_some (parse_filter_operator key) then others else if key == "" then others else key

pub data Classification : Type 0 where
  empty valid plain : Classification
  mixed : String → Classification

unfoldable pub classify_operator_map : Entries → Classification
unfolding known_operators unknown_operator parse_filter_operator
classify_operator_map no_entries = empty
classify_operator_map (entry key value rest) =
    let raw : Entries = entry key value rest in
    if eqb (known_operators raw) (count_entries raw)
    then valid
    else if ltb 0 (known_operators raw)
    then mixed (unknown_operator raw)
    else plain

-- What stands before the rest of the children, or the first error.
abbrev pub with_child :
    Parsed → Result UnsupportedFilterError Expressions → Result UnsupportedFilterError Expressions
with_child (err e) rest = err e
with_child (ok child) (err e) = err e
with_child (ok child) (ok children) = ok (cons child children)

abbrev pub collapsed : Result UnsupportedFilterError Expressions → Parsed
collapsed (err e) = err e
collapsed (ok children) = ok (collapse_implicit_and children)

abbrev pub refused : String → String → String → Parsed
refused field operator reason = err (new_unsupported_filter field operator reason)

abbrev pub logical : Kind → Result UnsupportedFilterError Expressions → Parsed
logical kind (err e) = err e
logical kind (ok children) = ok (logical_expression kind children)

abbrev pub logical_kind : String → Kind
logical_kind key = if key == "AND" then and_kind else if key == "OR" then or_kind else not_kind

abbrev pub is_logical : String → Bool
is_logical key = key == "AND" || (key == "OR" || key == "NOT")

module _ (sprint : Value → String) where
  abbrev pub compared : String → Operator → String → Result String (List String) → Parsed
  compared field op name (err reason) = refused field name reason
  compared field op name (ok values) = ok (comparison_expression field op values)

  abbrev pub operator_condition : String → String → Value → Option Operator → Parsed
  operator_condition field name value none = refused field name "unknown filter operator"
  operator_condition field name value (some op) =
      compared field op name (filter_values sprint value op)

  -- The loop of `parseOperatorConditions`.
  unfoldable pub operator_conditions : String → Entries → Result UnsupportedFilterError Expressions
  operator_conditions field no_entries = ok nil
  operator_conditions field (entry name value rest) =
      with_child (operator_condition field name value (parse_filter_operator name))
        (operator_conditions field rest)

  unfoldable pub parse_operator_conditions : String → Entries → Parsed
  unfolding operator_conditions parse_filter_operator
  parse_operator_conditions field no_entries = refused field "" "operator map must not be empty"
  parse_operator_conditions field (entry name value rest) =
      collapsed (operator_conditions field (entry name value rest))

  unfoldable pub parse_field_condition : String → Value → Parsed
  unfolding parse_operator_conditions
  parse_field_condition field (object raw_ops) = parse_operator_conditions field raw_ops
  parse_field_condition field null = compared field eq "eq" (filter_values sprint null eq)
  parse_field_condition field (scalar s) =
      compared field eq "eq" (filter_values sprint (scalar s) eq)
  parse_field_condition field (list items) =
      compared field eq "eq" (filter_values sprint (list items) eq)

  -- A nested object of metadata: conditions, or a level of names.
  abbrev pub nested_metadata : List String → Entries → Classification → Parsed → Parsed
  nested_metadata path nested empty deeper =
      refused (join_path path) "" "operator map must not be empty"
  nested_metadata path nested (mixed unknown) deeper =
      refused (join_path path) unknown "unknown filter operator"
  nested_metadata path nested plain deeper = deeper
  nested_metadata path nested valid deeper = parse_field_condition (join_path path) (object nested)

  -- The loop of `parseMetadataMap`.
  unfoldable pub metadata_children :
      Entries → List String → Result UnsupportedFilterError Expressions
  metadata_children no_entries path = ok nil
  metadata_children (entry key (object nested) rest) path =
      let deeper = collapsed (metadata_children nested (path ++ key ∷ [])) in
      with_child (nested_metadata (path ++ key ∷ []) nested (classify_operator_map nested) deeper)
        (metadata_children rest path)
  metadata_children (entry key value rest) path =
      with_child (parse_field_condition (join_path (path ++ key ∷ [])) value)
        (metadata_children rest path)

  unfoldable pub parse_metadata_map : Entries → List String → Parsed
  unfolding metadata_children
  parse_metadata_map raw path = collapsed (metadata_children raw path)

  unfoldable pub parse_metadata_filter : Value → Parsed
  unfolding parse_metadata_map
  parse_metadata_filter (object raw) = parse_metadata_map raw ("metadata" ∷ [])
  parse_metadata_filter _ = refused "metadata" "" "metadata filter must be an object"

  unfoldable pub parse_field : List String → String → Value → Parsed
  unfolding parse_field_condition
  parse_field [] key value =
      if is_supported_top_level_filter_field key
      then parse_field_condition (join_path (key ∷ [])) value
      else refused key "" "unknown filter field"
  parse_field (part ∷ path) key value =
      parse_field_condition (join_path ((part ∷ path) ++ key ∷ [])) value

  unfoldable mutual
    -- The loop of `parseFilterMap`.
    pub filter_children : Entries → List String → Result UnsupportedFilterError Expressions
    filter_children no_entries path = ok nil
    filter_children (entry key value rest) path =
        let combined = logical (logical_kind key) (parse_logical_filter value key path) in
        with_child
          (if is_logical key
            then combined
            else if key == "metadata"
            then parse_metadata_filter value
            else parse_field path key value)
          (filter_children rest path)

    -- The children of an AND, an OR or a NOT.
    pub parse_logical_filter :
        Value → String → List String → Result UnsupportedFilterError Expressions
    parse_logical_filter (list items) key path = logical_children items key path
    parse_logical_filter null key path =
        err (new_unsupported_filter (join_path path) key "logical filter value must be a list")
    parse_logical_filter (scalar s) key path =
        err (new_unsupported_filter (join_path path) key "logical filter value must be a list")
    parse_logical_filter (object raw) key path =
        err (new_unsupported_filter (join_path path) key "logical filter value must be a list")

    pub logical_children : Items → String → List String → Result UnsupportedFilterError Expressions
    logical_children no_items key path = ok nil
    logical_children (item (object raw) rest) key path =
        with_child (collapsed (filter_children raw path)) (logical_children rest key path)
    logical_children (item _ rest) key path =
        err (new_unsupported_filter (join_path path) key "logical filter child must be an object")

  unfoldable pub parse_filter_map : Entries → List String → Parsed
  unfolding filter_children
  parse_filter_map raw path = collapsed (filter_children raw path)

  unfoldable pub parse : Entries → Parsed
  unfolding parse_filter_map
  parse raw = parse_filter_map raw []

unfoldable mutual
  pub flatten_comparisons : Expression → List Expression
  flatten_comparisons (node comparison children field operator values) =
      node comparison children field operator values ∷ []
  flatten_comparisons (node kind children field operator values) = flatten_all children

  pub flatten_all : Expressions → List Expression
  flatten_all nil = []
  flatten_all (cons child children) = flatten_comparisons child ++ flatten_all children
