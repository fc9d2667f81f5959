-- ===== src/SearchFilter/Requests/Conditions.antt =====
-- The conditions on the fields and on the metadata of a filter, parsed: they hold of exactly the messages of which
-- those of the JSON filter hold.
use goncho.Prelude.{
  ◌≡◌, String, Bool, true, false, not, arith, ◌&&◌, List, [], ◌∷◌, ◌++◌, Option, none, some, refl,
  if_intro, ap, ◌∙◌, ◌==◌, inl, inr, Bool-cases,
}
use goncho.Prelude.Text.{trim_space}
use goncho.Prelude.Result.{Result, ok, err}
use goncho.Prelude.{sym, subst, eq_iff}
use goncho.SearchFilter.Values.{elements, scalar_text, scalars, list_values}
use goncho.SearchFilter.Contracts.{
  and_kind, Operator, eq, in_list, Expression, Expressions, nil, cons, UnsupportedFilterError,
}
use goncho.SearchFilter.Values.{
  Value, null, scalar, list, object, Items, no_items, item, Entries, no_entries, entry,
  filter_values,
}
use goncho.SearchFilter.Grammar.{
  Parsed, all_expression, logical_expression, comparison_expression, parse_filter_operator,
  join_path, is_supported_top_level_filter_field, Classification, empty, valid, plain, mixed,
  classify_operator_map, with_child, collapsed, compared, operator_condition, operator_conditions,
  parse_operator_conditions, parse_field_condition, nested_metadata, metadata_children,
  parse_metadata_map, parse_metadata_filter, parse_field,
}
use goncho.SearchFilter.Grammar.Yields.{
  Yields, err-Yields, ok-Yields, with_child-Yields, collapsed-Yields,
}
use goncho.SearchFilter.Compiler.Meaning.{
  asks_equality, field_names, comparison_holds, holds, all_hold,
}
use text.Mathlib.Text.{starts_with}
use goncho.SearchFilter.Grammar.Fields.{starts_with-join_path}
use goncho.SearchFilter.Requests.{
  text_of, texts_in, texts_of, condition_holds, conditions_hold, field_holds, metadata_holds,
}

-- The values of a condition, where it has values.
abbrev values_or_none : Result String (List String) → List String
values_or_none (ok values) = values
values_or_none (err reason) = []

-- Another text than one that starts with "metadata.".
other_text :
    (field name : String)
    → starts_with field "metadata." ≡ true
    → starts_with name "metadata." ≡ false
    → (field == name) ≡ false
other_text field name h k = elim (Bool-cases (field == name)) [
  | inl same ↦ cc (ap (λ t. starts_with t "metadata.") ((eq_iff field name).0 same))
  | inr apart ↦ apart
]

module _ (sprint : Value → String) (to_lower : String → String) (peer session source : String) where
  abbrev pub test : Expression → Bool
  test e = holds to_lower e peer session source

  abbrev pub tests : Expressions → Bool
  tests es = all_hold to_lower es peer session source

  pub tests_nil : tests nil ≡ true
  unfolding holds
  tests_nil = refl

  tests_cons : (e : Expression) (es : Expressions) → tests (cons e es) ≡ (test e && tests es)
  unfolding holds
  tests_cons e es = refl

  test_all : test all_expression ≡ true
  unfolding holds
  test_all = refl

  test_and : (es : Expressions) → test (logical_expression and_kind es) ≡ tests es
  unfolding holds
  test_and es = refl

  pub child_holds :
      (child : Parsed) (rest : Result UnsupportedFilterError Expressions) (b c : Bool)
      → Yields child test b
      → Yields rest tests c
      → Yields (with_child child rest) tests (b && c)
  child_holds = with_child-Yields test tests tests_nil tests_cons

  pub collapsed_holds :
      (r : Result UnsupportedFilterError Expressions) (b : Bool)
      → Yields r tests b
      → Yields (collapsed r) test b
  collapsed_holds = collapsed-Yields test tests tests_nil tests_cons test_all test_and

  compared_holds :
      (field : String) (op : Operator) (name : String) (values : Result String (List String))
      → Yields
          (compared sprint field op name values)
          test
          (comparison_holds to_lower field op (values_or_none values) peer session source)
  unfolding holds
  compared_holds field op name (err reason) = err-Yields _ test _
  compared_holds field op name (ok values) =
      ok-Yields (comparison_expression field op values) test _ refl

  -- An operator that asks for something else than equality holds of nothing.
  unanswered_holds :
      (field name : String) (op : Operator) (values : Result String (List String))
      → asks_equality op ≡ false
      → Yields (compared sprint field op name values) test false
  unanswered_holds field name op values other e parsed =
      compared_holds field op name values e parsed
      ∙ ap (λ b. b && field_names to_lower field (values_or_none values) peer session source) other

  scalars-texts_in : (items : Items) → scalars sprint items ≡ texts_in sprint to_lower items
  unfolding scalars scalar_text texts_in
  scalars-texts_in no_items = refl
  scalars-texts_in (item null rest) = ap (λ t. "" ∷ t) (scalars-texts_in rest)
  scalars-texts_in (item (scalar s) rest) =
      ap (λ t. trim_space (sprint (scalar s)) ∷ t) (scalars-texts_in rest)
  scalars-texts_in (item (list items) rest) =
      ap (λ t. trim_space (sprint (list items)) ∷ t) (scalars-texts_in rest)
  scalars-texts_in (item (object raw) rest) =
      ap (λ t. trim_space (sprint (object raw)) ∷ t) (scalars-texts_in rest)

  eq_holds :
      (field name : String) (value : Value)
      → Yields
          (compared sprint field eq name (filter_values sprint value eq))
          test
          (field_names to_lower field (text_of sprint to_lower value ∷ []) peer session source)
  unfolding filter_values scalar_text
  eq_holds field name null = compared_holds field eq name (filter_values sprint null eq)
  eq_holds field name (scalar s) = compared_holds field eq name (filter_values sprint (scalar s) eq)
  eq_holds field name (list items) =
      compared_holds field eq name (filter_values sprint (list items) eq)
  eq_holds field name (object raw) =
      compared_holds field eq name (filter_values sprint (object raw) eq)

  in_holds :
      (field name : String) (value : Value)
      → Yields
          (compared sprint field in_list name (filter_values sprint value in_list))
          test
          (field_names to_lower field (texts_of sprint to_lower value) peer session source)
  unfolding filter_values list_values elements
  in_holds field name null e parsed = cc
  in_holds field name (scalar s) e parsed = cc
  in_holds field name (object raw) e parsed = cc
  in_holds field name (list items) e parsed =
      compared_holds field in_list name (filter_values sprint (list items) in_list) e parsed
      ∙ ap (λ texts. field_names to_lower field texts peer session source) (scalars-texts_in items)

  -- What is no operator, or one that asks for something else than equality.
  abbrev is_refused : Option Operator → Bool
  is_refused none = true
  is_refused (some op) = not (asks_equality op)

  parse_filter_operator-is_refused :
      (name : String)
      → (name == "eq") ≡ false
      → (name == "in") ≡ false
      → is_refused (parse_filter_operator name) ≡ true
  unfolding parse_filter_operator
  parse_filter_operator-is_refused name no_eq no_in = ground (arith, no_eq, no_in)

  refused_holds :
      (field name : String) (value : Value) (found : Option Operator)
      → is_refused found ≡ true
      → Yields (operator_condition sprint field name value found) test false
  refused_holds field name value none h = err-Yields _ test false
  refused_holds field name value (some op) h =
      unanswered_holds field name op (filter_values sprint value op) (ground arith)

  operator_holds :
      (field name : String) (value : Value)
      → Yields
          (operator_condition sprint field name value (parse_filter_operator name))
          test
          (condition_holds sprint to_lower peer session source field value name)
  operator_holds field name value =
      let P : String → Type 0 = λ n.
        Yields (operator_condition sprint field n value (parse_filter_operator n)) test
          (condition_holds sprint to_lower peer session source field value n) in
      elim (Bool-cases (name == "eq")) [
        | inl is_eq ↦
            subst P (sym ((eq_iff name "eq").0 is_eq))
              (unfold parse_filter_operator in eq_holds field "eq" value)
        | inr no_eq ↦ elim (Bool-cases (name == "in")) [
          | inl is_in ↦
              subst P (sym ((eq_iff name "in").0 is_in))
                (unfold parse_filter_operator in in_holds field "in" value)
          | inr no_in ↦
              rw (no_eq, no_in)
                (refused_holds field name value (parse_filter_operator name)
                  (parse_filter_operator-is_refused name no_eq no_in))
        ]
      ]

  operators_hold :
      (field : String) (ops : Entries)
      → Yields
          (operator_conditions sprint field ops)
          tests
          (conditions_hold sprint to_lower peer session source field ops)
  unfolding operator_conditions conditions_hold
  operators_hold field no_entries = ok-Yields nil tests true tests_nil
  operators_hold field (entry name value rest) =
      child_holds _ _ _ _ (operator_holds field name value) (operators_hold field rest)

  condition-Yields :
      (field : String) (value : Value)
      → Yields
          (parse_field_condition sprint field value)
          test
          (field_holds sprint to_lower peer session source field value)
  unfolding parse_field_condition parse_operator_conditions field_holds
  condition-Yields field (object no_entries) = err-Yields _ test _
  condition-Yields field (object (entry name value rest)) =
      collapsed_holds _ _ (operators_hold field (entry name value rest))
  condition-Yields field null = eq_holds field "eq" null
  condition-Yields field (scalar s) = eq_holds field "eq" (scalar s)
  condition-Yields field (list items) = eq_holds field "eq" (list items)

  names_metadata :
      (field : String) (values : List String)
      → starts_with field "metadata." ≡ true
      → field_names to_lower field values peer session source ≡ false
  names_metadata field values h = rw (
    other_text field "session_id" h refl,
    other_text field "source" h refl,
    other_text field "peer_id" h refl,
  )

  condition_metadata :
      (field : String) (value : Value) (name : String)
      → starts_with field "metadata." ≡ true
      → condition_holds sprint to_lower peer session source field value name ≡ false
  condition_metadata field value name h =
      if_intro (λ b. b ≡ false) (name == "eq") _ _
        (names_metadata field (text_of sprint to_lower value ∷ []) h)
        (if_intro (λ b. b ≡ false) (name == "in") _ _
          (names_metadata field (texts_of sprint to_lower value) h) refl)

  -- No condition on a field below `metadata` holds, unless the object of conditions is empty.
  field_metadata :
      (field : String) (value : Value)
      → starts_with field "metadata." ≡ true
      → Yields (parse_field_condition sprint field value) test false
  unfolding parse_field_condition parse_operator_conditions field_holds conditions_hold
  field_metadata field (object no_entries) h e parsed = cc
  field_metadata field (object (entry name value rest)) h e parsed =
      condition-Yields field (object (entry name value rest)) e parsed
      ∙ ap (λ b. b && conditions_hold sprint to_lower peer session source field rest)
          (condition_metadata field value name h)
  field_metadata field null h e parsed =
      condition-Yields field null e parsed ∙ condition_metadata field null "eq" h
  field_metadata field (scalar s) h e parsed =
      condition-Yields field (scalar s) e parsed ∙ condition_metadata field (scalar s) "eq" h
  field_metadata field (list items) h e parsed =
      condition-Yields field (list items) e parsed ∙ condition_metadata field (list items) "eq" h

  nested_metadata-Yields :
      (path : List String) (key : String) (nested : Entries) (class : Classification)
      (deeper : Parsed)
      → (class ≡ plain → Yields deeper test false)
      → Yields
          (nested_metadata sprint ("metadata" ∷ (path ++ key ∷ [])) nested class deeper)
          test
          false
  nested_metadata-Yields path key nested empty deeper h = err-Yields _ test false
  nested_metadata-Yields path key nested (mixed unknown) deeper h = err-Yields _ test false
  nested_metadata-Yields path key nested plain deeper h = h refl
  nested_metadata-Yields path key nested valid deeper h =
      field_metadata _ (object nested) (starts_with-join_path path key)

  abbrev is_no_entries : Entries → Bool
  is_no_entries no_entries = true
  is_no_entries (entry key value rest) = false

  metadata-Yields :
      (raw : Entries) (path : List String)
      → Yields (metadata_children sprint raw ("metadata" ∷ path)) tests (is_no_entries raw)
  unfolding metadata_children classify_operator_map
  metadata-Yields no_entries path = ok-Yields nil tests true tests_nil
  metadata-Yields (entry key (object no_entries) rest) path =
      child_holds _ _ false _ (err-Yields _ test false) (metadata-Yields rest path)
  metadata-Yields (entry key (object (entry name value others)) rest) path =
      child_holds _ _ false _
        (nested_metadata-Yields path key (entry name value others)
          (classify_operator_map (entry name value others)) _
          (λ is_plain.
            collapsed_holds _ false (metadata-Yields (entry name value others) (path ++ key ∷ []))))
        (metadata-Yields rest path)
  metadata-Yields (entry key value rest) path =
      child_holds _ _ false _ (field_metadata _ value (starts_with-join_path path key))
        (metadata-Yields rest path)

  pub metadata_filter-Yields :
      (value : Value)
      → Yields
          (parse_metadata_filter sprint value)
          test
          (metadata_holds sprint to_lower peer session source value)
  unfolding parse_metadata_filter parse_metadata_map
  metadata_filter-Yields (object no_entries) =
      collapsed_holds _ true (metadata-Yields no_entries [])
  metadata_filter-Yields (object (entry key value rest)) =
      collapsed_holds _ false (metadata-Yields (entry key value rest) [])
  metadata_filter-Yields null = err-Yields _ test false
  metadata_filter-Yields (scalar s) = err-Yields _ test false
  metadata_filter-Yields (list items) = err-Yields _ test false

  pub parse_field-Yields :
      (key : String) (value : Value)
      → Yields
          (parse_field sprint [] key value)
          test
          (field_holds sprint to_lower peer session source key value)
  unfolding parse_field join_path
  parse_field-Yields key value =
      if_intro (λ r. Yields r test (field_holds sprint to_lower peer session source key value))
        (is_supported_top_level_filter_field key) _ _ (condition-Yields key value)
        (err-Yields _ test _)
