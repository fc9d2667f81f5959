-- ===== src/SearchFilter/Requests/Admitted.antt =====
-- A parsed filter holds of exactly the messages of which the JSON filter holds, and the compiled one lets
-- exactly these through.
use goncho.Prelude.{
  ◌≡◌, String, Bool, true, false, ◌||◌, [], refl, if◌then◌else◌, ◌∙◌, ◌==◌, inl, inr, Bool-cases,
}
use goncho.Prelude.Result.{Result, ok, err, ◌>>=◌}
use goncho.SearchFilter.Contracts.{
  Kind, and_kind, or_kind, not_kind, Expression, Expressions, nil, Compiled, UnsupportedFilterError,
}
use goncho.SearchFilter.Values.{
  Value, null, scalar, list, object, Items, no_items, item, Entries, no_entries, entry,
}
use goncho.SearchFilter.Grammar.{
  Parsed, logical_expression, parse_metadata_filter, parse_field, logical, logical_kind, is_logical,
  filter_children, parse_logical_filter, logical_children, parse_filter_map, parse,
}
use goncho.SearchFilter.Grammar.Yields.{Yields, err-Yields, ok-Yields}
use goncho.SearchFilter.Compiler.{compile}
use goncho.SearchFilter.Compiler.Meaning.{admits, holds, all_hold}
use goncho.SearchFilter.Compiler.Admits.{admits-compile}
use goncho.SearchFilter.Requests.{
  parse_and_compile, field_holds, metadata_holds, request_holds, each_holds, items_hold,
}
use goncho.SearchFilter.Requests.Conditions.{
  tests_nil, child_holds, collapsed_holds, metadata_filter-Yields, parse_field-Yields,
}

module _ (sprint : Value → String) (to_lower : String → String) (peer session source : String) where
  abbrev test : Expression → Bool
  test e = holds to_lower e peer session source

  abbrev tests : Expressions → Bool
  tests es = all_hold to_lower es peer session source

  -- A node of a kind over the parsed children.
  kind-Yields :
      (kind : Kind) (r : Result UnsupportedFilterError Expressions) (b c : Bool)
      → Yields r tests b
      → ((es : Expressions) → tests es ≡ b → test (logical_expression kind es) ≡ c)
      → Yields (logical kind r) test c
  kind-Yields kind (err e) b c h k = err-Yields e test c
  kind-Yields kind (ok es) b c h k =
      ok-Yields (logical_expression kind es) test c (k es (h es refl))

  -- What an entry of a filter is parsed to, by its key.
  entry-Yields :
      (key : String) (value : Value) (b : Bool)
      → Yields (parse_logical_filter sprint value key []) tests b
      → Yields
          (if is_logical key
            then logical (logical_kind key) (parse_logical_filter sprint value key [])
            else if key == "metadata"
            then parse_metadata_filter sprint value
            else parse_field sprint [] key value)
          test
          (if key == "AND"
            then b
            else if key == "OR" || key == "NOT"
            then false
            else if key == "metadata"
            then metadata_holds sprint to_lower peer session source value
            else field_holds sprint to_lower peer session source key value)
  unfolding holds
  entry-Yields key value b h = elim (Bool-cases (key == "AND")) [
    | inl is_and ↦ rw is_and (kind-Yields and_kind _ b b h (λ es e. e))
    | inr no_and ↦ elim (Bool-cases (key == "OR")) [
      | inl is_or ↦ rw (no_and, is_or) (kind-Yields or_kind _ b false h (λ es e. refl))
      | inr no_or ↦ elim (Bool-cases (key == "NOT")) [
        | inl is_not ↦ rw (no_and, no_or, is_not) (kind-Yields not_kind _ b false h (λ es e. refl))
        | inr no_not ↦ elim (Bool-cases (key == "metadata")) [
          | inl is_metadata ↦
              rw (no_and, no_or, no_not, is_metadata)
                (metadata_filter-Yields sprint to_lower peer session source value)
          | inr no_metadata ↦
              rw (no_and, no_or, no_not, no_metadata)
                (parse_field-Yields sprint to_lower peer session source key value)
        ]
      ]
    ]
  ]

  mutual
    unfolding filter_children request_holds

    filter-Yields :
        (raw : Entries)
        → Yields
            (filter_children sprint raw [])
            tests
            (request_holds sprint to_lower peer session source raw)
    filter-Yields no_entries =
        ok-Yields nil tests true (tests_nil sprint to_lower peer session source)
    filter-Yields (entry key value rest) =
        child_holds sprint to_lower peer session source _ _ _ _
          (entry-Yields key value (each_holds sprint to_lower peer session source value)
            (each-Yields value key))
          (filter-Yields rest)

    each-Yields :
        (value : Value) (key : String)
        → Yields
            (parse_logical_filter sprint value key [])
            tests
            (each_holds sprint to_lower peer session source value)
    each-Yields (list items) key = items-Yields items key
    each-Yields null key = err-Yields _ tests false
    each-Yields (scalar s) key = err-Yields _ tests false
    each-Yields (object raw) key = err-Yields _ tests false

    items-Yields :
        (items : Items) (key : String)
        → Yields
            (logical_children sprint items key [])
            tests
            (items_hold sprint to_lower peer session source items)
    items-Yields no_items key =
        ok-Yields nil tests true (tests_nil sprint to_lower peer session source)
    items-Yields (item (object raw) rest) key =
        child_holds sprint to_lower peer session source _ _ _ _
          (collapsed_holds sprint to_lower peer session source _ _ (filter-Yields raw))
          (items-Yields rest key)
    items-Yields (item null rest) key = err-Yields _ tests false
    items-Yields (item (scalar s) rest) key = err-Yields _ tests false
    items-Yields (item (list items) rest) key = err-Yields _ tests false

  parse-Yields :
      (raw : Entries)
      → Yields (parse sprint raw) test (request_holds sprint to_lower peer session source raw)
  unfolding parse parse_filter_map
  parse-Yields raw = collapsed_holds sprint to_lower peer session source _ _ (filter-Yields raw)

  compiled_admits :
      (parsed : Parsed) (b : Bool) (c : Compiled)
      → Yields parsed test b
      → (parsed >>= (λ e. compile to_lower e peer)) ≡ ok c
      → admits c session source ≡ b
  compiled_admits (err e) b c h k = cc
  compiled_admits (ok e) b c h k = admits-compile to_lower e peer session source c k ∙ h e refl

-- When a JSON filter parses and compiles, the compiled filter lets a message of a session and a source
-- through exactly when the JSON filter holds of it: when each of its entries and of the filters
-- under its "AND" does, where a condition holds only if its operator is "eq" (or it has none) and its
-- text, or "in" and one of the texts of its list, trimmed, not blank and for a source in lower case, is
-- "*" or the session, the source or the peer that it is on. No other operator and no other field holds of
-- anything, nor does "OR", "NOT" or a "metadata" that is not empty.
pub admits-parse_and_compile :
    (sprint : Value → String) (to_lower : String → String) (raw : Entries)
    (peer session source : String) (c : Compiled)
    → parse_and_compile sprint to_lower raw peer ≡ ok c
    → admits c session source ≡ request_holds sprint to_lower peer session source raw
unfolding parse_and_compile
admits-parse_and_compile sprint to_lower raw peer session source c h =
    compiled_admits sprint to_lower peer session source (parse sprint raw) _ c
      (parse-Yields sprint to_lower peer session source raw) h
