-- ===== src/SearchFilter/Values.antt =====
-- internal/searchfilter/values: the values of a filter as strings. A JSON value stands for Go's `any`: an
-- object is its entries in ascending order of their keys, the order in which the source reads them;
-- `sprint` is `fmt.Sprint`, and `to_lower` `strings.ToLower`.
use goncho.Prelude.{
  ◌≡◌, String, Bool, not, ◌&&◌, ◌||◌, List, [], ◌∷◌, ◌++◌, Option, none, some, if◌then◌else◌, ◌==◌,
  contains, any, arith, eq_iff, Bool-cases, inl, inr, IsDistinct, IsDistinct-snoc, contains-snoc,
}
use goncho.Prelude.Text.{trim_space}
use goncho.Prelude.Result.{Result, ok, err}
use goncho.SearchFilter.Contracts.{Operator, in_list}

mutual
  pub data Value : Type 0 where
    null : Value
    scalar : String → Value
    list : Items → Value
    object : Entries → Value

  pub data Items : Type 0 where
    no_items : Items
    item : Value → Items → Items

  pub data Entries : Type 0 where
    no_entries : Entries
    entry : String → Value → Entries → Entries

unfoldable pub elements : Value → Option Items
elements null = none
elements (scalar s) = none
elements (list items) = some items
elements (object _) = none

module _ (sprint : Value → String) where
  unfoldable pub scalar_text : Value → String
  scalar_text null = ""
  scalar_text (scalar s) = trim_space (sprint (scalar s))
  scalar_text (list items) = trim_space (sprint (list items))
  scalar_text (object fields) = trim_space (sprint (object fields))

  unfoldable pub scalars : Items → List String
  unfolding scalar_text
  scalars no_items = []
  scalars (item v vs) = scalar_text v ∷ scalars vs

  abbrev list_of : Option Items → Result String (List String)
  list_of none = err "in operator value must be a list"
  list_of (some items) = ok (scalars items)

  unfoldable pub list_values : Value → Result String (List String)
  unfolding elements scalars
  list_values v = list_of (elements v)

  unfoldable pub filter_values : Value → Operator → Result String (List String)
  unfolding list_values scalar_text
  filter_values v in_list = list_values v
  filter_values v _ = ok (scalar_text v ∷ [])

module _ (to_lower : String → String) where
  abbrev pub clean : Bool → String → String
  clean lower value = if lower then to_lower (trim_space value) else trim_space value

  -- The loop of `NormalizeEqualityValues`, with `out` so far.
  unfoldable pub normalize_from : Bool → List String → List String → List String
  normalize_from lower [] out = out
  normalize_from lower (raw ∷ raws) out =
      let value = clean lower raw in
      normalize_from lower raws
        (if value == "" || contains out value then out else out ++ value ∷ [])

  unfoldable pub normalize_equality_values : List String → Bool → List String
  unfolding normalize_from
  normalize_equality_values raw lower = normalize_from lower raw []

  abbrev stands_for : Bool → String → String → Bool
  stands_for lower a raw = not (clean lower raw == "") && clean lower raw == a

  normalize_from_lem :
      (lower : Bool) (raws out : List String)
      → IsDistinct out
      → IsDistinct (normalize_from lower raws out)
        × ((a : String)
            → contains (normalize_from lower raws out) a
              ≡ (contains out a || any (stands_for lower a) raws))
  unfolding normalize_from
  normalize_from_lem lower [] out d = (d, λ a. ground arith)
  normalize_from_lem lower (raw ∷ raws) out d =
      let value = clean lower raw in
      elim (Bool-cases (value == "" || contains out value)) [
        | inl skip ↦
            let ih = normalize_from_lem lower raws out d in
            rw skip (ih.0, λ a. ground (arith, ih.1 a, eq_iff value a))
        | inr fresh ↦
            let ih =
              normalize_from_lem lower raws (out ++ value ∷ [])
                (IsDistinct-snoc out value (ground arith) d) in
            rw fresh (ih.0, λ a. ground (arith, ih.1 a, contains-snoc out value a))
      ]

  -- The normalized values are distinct, and they are exactly the nonblank values of the given list, with the
  -- spaces around them cut off, and in lower case if that is asked for.
  normalize_equality_values_lem :
      (raw : List String) (lower : Bool)
      → IsDistinct (normalize_equality_values raw lower)
        × ((a : String)
            → contains (normalize_equality_values raw lower) a ≡ any (stands_for lower a) raw)
  unfolding normalize_equality_values contains
  normalize_equality_values_lem raw lower = normalize_from_lem lower raw [] tt
