-- ===== src/SearchFilter/Compiler/Meaning.antt =====
-- What a compiled filter admits is what the expression means.
use goncho.Prelude.Quantifiers.{any_ext}
use goncho.Prelude.{
  ◌≡◌, String, Bool, true, false, not, ◌&&◌, ◌||◌, List, [], ◌∷◌, if◌then◌else◌, if_cases, ◌==◌,
  contains, any, refl, sym, ◌∙◌, arith,
}
use goncho.Prelude.Text.{trim_space, trim_space_idem}
use goncho.SearchFilter.Contracts.{
  all_kind, and_kind, or_kind, not_kind, comparison, other, Operator, unset, eq, gt, gte, lt, lte,
  ne, in_list, contains_text, icontains, Expression, Expressions, node, nil, cons, Compiled,
}
use goncho.SearchFilter.Values.{normalize_equality_values}
use goncho.SearchFilter.Compiler.{
  is_empty, combine, intersect_filter_values, merge_compiled_search_filters, peer_filter_matches,
}
use goncho.SearchFilter.Compiler.Sets.{
  admits_values, admits_pair, intersect_filter_values_lem, passes, any-normalize_equality_values,
}

-- Whether a compiled filter lets a message of a session and a source through.
abbrev pub admits : Compiled → String → String → Bool
admits c session source =
    not c.deny_all && (admits_values c.session_ids session && admits_values c.sources source)

admits-combine :
    (sessions sources : List String × Bool) (session source : String)
    → admits (combine sessions sources) session source
      ≡ (admits_pair sessions session && admits_pair sources source)
admits-combine (session_ids, deny_sessions) (source_list, deny_sources) session source =
    ground arith

-- The merge of two compiled filters admits what both admit.
pub merge_compiled_search_filters_lem :
    (a b : Compiled) (session source : String)
    → admits (merge_compiled_search_filters a b) session source
      ≡ (admits a session source && admits b session source)
unfolding merge_compiled_search_filters
merge_compiled_search_filters_lem a b session source =
    let P : Compiled → Type 0 =
      λ c. admits c session source ≡ (admits a session source && admits b session source) in
    if_cases P (a.deny_all || b.deny_all) _ _ (λ deny. ground arith)
      (λ allow. ground (
        arith,
        admits-combine (intersect_filter_values a.session_ids b.session_ids)
            (intersect_filter_values a.sources b.sources) session source,
        intersect_filter_values_lem a.session_ids b.session_ids session,
        intersect_filter_values_lem a.sources b.sources source,
      ))

any-or :
    (x y : String) (xs : List String)
    → any (λ v. v == x || v == y) xs ≡ (contains xs x || contains xs y)
unfolding contains
any-or x y [] = refl
any-or x y (z ∷ zs) = ground (arith, any-or x y zs)

-- A nonempty list of values admits what one of them names.
pub admits_values-any :
    (values : List String) (a : String)
    → is_empty values ≡ false
    → admits_values values a ≡ any (λ v. v == "*" || v == a) values
admits_values-any values a full = rw full (sym (any-or "*" a values))

pub any-is_empty : (p : String → Bool) (xs : List String) → is_empty xs ≡ true → any p xs ≡ false
any-is_empty p [] h = refl
any-is_empty p (x ∷ xs) h = cc

abbrev pub asks_equality : Operator → Bool
asks_equality eq = true
asks_equality in_list = true
asks_equality unset = false
asks_equality gt = false
asks_equality gte = false
asks_equality lt = false
asks_equality lte = false
asks_equality ne = false
asks_equality contains_text = false
asks_equality icontains = false

module _ (to_lower : String → String) where
  -- One of the values, with the spaces around it cut off and not blank, is "*" or the given text.
  abbrev pub names : Bool → List String → String → Bool
  names lower values a = any (passes to_lower (λ v. v == "*" || v == a) lower) values

  -- Whether the values name what a message has in the field: its session, its source or its peer.
  abbrev pub field_names : String → List String → String → String → String → Bool
  field_names field values peer session source =
      if field == "session_id"
      then names false values session
      else if field == "source"
      then names true values source
      else if field == "peer_id"
      then names false values (trim_space peer)
      else false

  -- Whether a comparison holds of a message. Only "eq" and "in" ask for equality with one of the values;
  -- what any other operator asks for, the index cannot answer.
  abbrev pub comparison_holds : String → Operator → List String → String → String → String → Bool
  comparison_holds field op values peer session source =
      asks_equality op && field_names field values peer session source

  -- Whether an expression holds of a message. What the compiler refuses is given no meaning.
  unfoldable mutual
    pub holds : Expression → String → String → String → Bool
    holds (node all_kind children field operator values) peer session source = true
    holds (node and_kind children field operator values) peer session source =
        all_hold children peer session source
    holds (node or_kind children field operator values) peer session source = false
    holds (node not_kind children field operator values) peer session source = false
    holds (node comparison children field operator values) peer session source =
        comparison_holds field operator values peer session source
    holds (node (other kind) children field operator values) peer session source = kind == ""

    pub all_hold : Expressions → String → String → String → Bool
    all_hold nil peer session source = true
    all_hold (cons child children) peer session source =
        holds child peer session source && all_hold children peer session source

  -- The test of the source on the peer, on normalized values.
  pub peer_filter_matches-normalized :
      (values : List String) (peer : String)
      → peer_filter_matches (normalize_equality_values to_lower values false) peer
        ≡ names false values (trim_space peer)
  unfolding peer_filter_matches
  peer_filter_matches-normalized values peer =
      any-normalize_equality_values to_lower
        (λ value. trim_space value == "*" || trim_space value == trim_space peer) false values
      ∙ any_ext _ _ values (λ raw. rw trim_space_idem)

  pub names-normalized :
      (lower : Bool) (values : List String) (a : String)
      → any (λ v. v == "*" || v == a) (normalize_equality_values to_lower values lower)
        ≡ names lower values a
  names-normalized lower values a =
      any-normalize_equality_values to_lower (λ v. v == "*" || v == a) lower values
