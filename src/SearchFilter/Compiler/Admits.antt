-- ===== src/SearchFilter/Compiler/Admits.antt =====
-- A compiled filter lets exactly those messages through of which the expression holds.
use goncho.Prelude.{
  ◌≡◌, String, Bool, true, false, ◌&&◌, ◌||◌, List, if◌then◌else◌, if_cases, ◌==◌, any, refl, sym,
  ap, ◌∙◌, arith, Bool-cases, inl, inr, subst,
}
use goncho.Prelude.Text.{trim_space}
use goncho.Prelude.Result.{Result, ok, err, ◌>>=◌}
use goncho.SearchFilter.Contracts.{
  all_kind, and_kind, or_kind, not_kind, comparison, other, Operator, unset, eq, gt, gte, lt, lte,
  ne, in_list, contains_text, icontains, Expression, Expressions, node, nil, cons, Compiled,
  UnsupportedFilterError,
}
use goncho.SearchFilter.Values.{normalize_equality_values}
use goncho.SearchFilter.Compiler.{
  is_empty, denied, no_limits, is_equality_operator, peer_filter_matches,
  compile_equality_filter_values, compile_session_id, compile_source, compile_peer_id,
  compile_comparison_filter, merge_compiled_search_filters, merge_child, compile, compile_children,
}
use goncho.SearchFilter.Compiler.Meaning.{
  admits, merge_compiled_search_filters_lem, any-is_empty, admits_values-any, names, asks_equality,
  comparison_holds, holds, all_hold, peer_filter_matches-normalized, names-normalized,
}

-- A result, where there is one, lets exactly those through that the test lets through.
abbrev pub Admits : Result UnsupportedFilterError Compiled → String → String → Bool → Type 0
Admits r session source test = (c : Compiled) → r ≡ ok c → admits c session source ≡ test

err_Admits :
    (e : UnsupportedFilterError) (session source : String) (test : Bool)
    → Admits (err e) session source test
err_Admits e session source test c h = cc

ok_Admits :
    (c : Compiled) (session source : String) (test : Bool)
    → admits c session source ≡ test
    → Admits (ok c) session source test
ok_Admits c session source test e c' h =
    subst (λ (x : Result UnsupportedFilterError Compiled). admits (value x) session source ≡ test) h
      e
  where
    value : Result UnsupportedFilterError Compiled → Compiled
    value (ok x) = x
    value (err _) = c

asks-is_equality_operator : (op : Operator) → is_equality_operator op ≡ asks_equality op
asks-is_equality_operator unset = refl
asks-is_equality_operator eq = refl
asks-is_equality_operator gt = refl
asks-is_equality_operator gte = refl
asks-is_equality_operator lt = refl
asks-is_equality_operator lte = refl
asks-is_equality_operator ne = refl
asks-is_equality_operator in_list = refl
asks-is_equality_operator contains_text = refl
asks-is_equality_operator icontains = refl

-- Where the operator asks for equality, the values decide.
asked : (op : Operator) (b : Bool) → is_equality_operator op ≡ true → b ≡ (asks_equality op && b)
asked op b e = ap (λ a. a && b) (sym e ∙ asks-is_equality_operator op)

module _ (to_lower : String → String) (session source : String) where
  -- The two fields whose values limit the search.
  session_values :
      (values : List String)
      → admits
          (if is_empty values then denied else (record no_limits { session_ids = values }))
          session
          source
        ≡ any (λ v. v == "*" || v == session) values
  session_values values = elim (Bool-cases (is_empty values)) [
    | inl none_left ↦ rw (none_left, any-is_empty _ values none_left) refl
    | inr some_left ↦ rw some_left (ground (arith, admits_values-any values session some_left))
  ]

  source_values :
      (values : List String)
      → admits
          (if is_empty values then denied else (record no_limits { sources = values }))
          session
          source
        ≡ any (λ v. v == "*" || v == source) values
  source_values values = elim (Bool-cases (is_empty values)) [
    | inl none_left ↦ rw (none_left, any-is_empty _ values none_left) refl
    | inr some_left ↦ rw some_left (ground (arith, admits_values-any values source some_left))
  ]

  peer_values :
      (values : List String) (peer : String)
      → admits
          (if is_empty values
            then denied
            else if peer_filter_matches values peer
            then no_limits
            else denied)
          session
          source
        ≡ peer_filter_matches values peer
  unfolding peer_filter_matches
  peer_values values peer = elim (Bool-cases (is_empty values)) [
    | inl none_left ↦ rw (none_left, any-is_empty _ values none_left) refl
    | inr some_left ↦ rw some_left (ground arith)
  ]

  session_Admits :
      (field : String) (operator : Operator) (values : List String)
      → Admits
          (compile_session_id to_lower
            (compile_equality_filter_values to_lower field operator values false))
          session
          source
          (asks_equality operator && names to_lower false values session)
  unfolding compile_equality_filter_values
  session_Admits field operator values =
      if_cases
        (λ r.
          Admits (compile_session_id to_lower r) session source
            (asks_equality operator && names to_lower false values session))
        (is_equality_operator operator) _ _
        (λ e. ok_Admits _ session source _ (
          session_values (normalize_equality_values to_lower values false)
          ∙ names-normalized to_lower false values session
          ∙ asked operator _ e))
        (λ e. err_Admits _ session source _)

  source_Admits :
      (field : String) (operator : Operator) (values : List String)
      → Admits
          (compile_source to_lower
            (compile_equality_filter_values to_lower field operator values true))
          session
          source
          (asks_equality operator && names to_lower true values source)
  unfolding compile_equality_filter_values
  source_Admits field operator values =
      if_cases
        (λ r.
          Admits (compile_source to_lower r) session source
            (asks_equality operator && names to_lower true values source))
        (is_equality_operator operator) _ _
        (λ e. ok_Admits _ session source _ (
          source_values (normalize_equality_values to_lower values true)
          ∙ names-normalized to_lower true values source
          ∙ asked operator _ e))
        (λ e. err_Admits _ session source _)

  peer_Admits :
      (field : String) (operator : Operator) (values : List String) (peer : String)
      → Admits
          (compile_peer_id to_lower peer
            (compile_equality_filter_values to_lower field operator values false))
          session
          source
          (asks_equality operator && names to_lower false values (trim_space peer))
  unfolding compile_equality_filter_values
  peer_Admits field operator values peer =
      if_cases
        (λ r.
          Admits (compile_peer_id to_lower peer r) session source
            (asks_equality operator && names to_lower false values (trim_space peer)))
        (is_equality_operator operator) _ _
        (λ e. ok_Admits _ session source _ (
          peer_values (normalize_equality_values to_lower values false) peer
          ∙ peer_filter_matches-normalized to_lower values peer
          ∙ asked operator _ e))
        (λ e. err_Admits _ session source _)

  comparison_Admits :
      (field : String) (operator : Operator) (values : List String) (peer : String)
      → Admits
          (compile_comparison_filter to_lower field operator values peer)
          session
          source
          (comparison_holds to_lower field operator values peer session source)
  unfolding compile_comparison_filter
  comparison_Admits field operator values peer = elim (Bool-cases (field == "session_id")) [
    | inl is_session ↦ rw is_session (session_Admits field operator values)
    | inr not_session ↦ elim (Bool-cases (field == "source")) [
      | inl is_source ↦ rw (not_session, is_source) (source_Admits field operator values)
      | inr not_source ↦ elim (Bool-cases (field == "peer_id")) [
        | inl is_peer ↦
            rw (not_session, not_source, is_peer) (peer_Admits field operator values peer)
        | inr not_peer ↦ rw (not_session, not_source, not_peer) (err_Admits _ session source _)
      ]
    ]
  ]

  -- The merge of a child into what is there, and then the children that are left.
  merged_Admits :
      (out : Compiled) (child : Result UnsupportedFilterError Compiled) (test rest : Bool)
      (next : Compiled → Result UnsupportedFilterError Compiled)
      → Admits child session source test
      → ((merged : Compiled)
          → Admits (next merged) session source (admits merged session source && rest))
      → Admits
          (merge_child to_lower out child >>= next)
          session
          source
          (admits out session source && (test && rest))
  merged_Admits out (err e) test rest next first then_rest c h = cc
  merged_Admits out (ok compiled) test rest next first then_rest c h =
      let both = merge_compiled_search_filters_lem out compiled session source in
      ground (
        arith,
        then_rest (merge_compiled_search_filters out compiled) c h,
        both,
        first compiled refl,
      )

  mutual
    unfolding compile holds

    compile-Admits :
        (e : Expression) (peer : String)
        → Admits (compile to_lower e peer) session source (holds to_lower e peer session source)
    compile-Admits (node all_kind children field operator values) peer =
        ok_Admits no_limits session source _ refl
    compile-Admits (node and_kind children field operator values) peer =
        children_Admits children peer no_limits
    compile-Admits (node or_kind children field operator values) peer =
        err_Admits _ session source _
    compile-Admits (node not_kind children field operator values) peer =
        err_Admits _ session source _
    compile-Admits (node comparison children field operator values) peer =
        comparison_Admits field operator values peer
    compile-Admits (node (other kind) children field operator values) peer =
        if_cases (λ r. Admits r session source (kind == "")) (kind == "") _ _
          (λ e. ok_Admits no_limits session source _ (sym e)) (λ e. err_Admits _ session source _)

    children_Admits :
        (es : Expressions) (peer : String) (out : Compiled)
        → Admits
            (compile_children to_lower es peer out)
            session
            source
            (admits out session source && all_hold to_lower es peer session source)
    children_Admits nil peer out = ok_Admits out session source _ (ground arith)
    children_Admits (cons child children) peer out =
        merged_Admits out (compile to_lower child peer) _ _ _ (compile-Admits child peer)
          (λ merged. children_Admits children peer merged)

-- When an expression compiles, the compiled filter lets a message of a session and a source through
-- exactly when the expression holds of it.
pub admits-compile :
    (to_lower : String → String) (e : Expression) (peer session source : String) (c : Compiled)
    → compile to_lower e peer ≡ ok c
    → admits c session source ≡ holds to_lower e peer session source
admits-compile to_lower e peer session source c = compile-Admits to_lower session source e peer c
