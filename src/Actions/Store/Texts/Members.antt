-- ===== src/Actions/Store/Texts/Members.antt =====
-- What textutil.UniqueTrimmed leaves of a list of texts.
use goncho.Prelude.{
  ◌≡◌, refl, ap, ◌∙◌, arith, String, false, not, ◌&&◌, ◌||◌, List, [], ◌∷◌, ◌==◌, any, contains,
  contains-cons, IsDistinct, eq_iff, Bool-cases, inl, inr,
}
use goncho.Prelude.Text.{trim_space}
use goncho.Prelude.Sort.{text_ltb, insert_by, sort_by}
use goncho.Actions.Store.Texts.Sorted.{IsAscending, sort_texts-IsAscending}
use goncho.Actions.Store.Texts.{sort_texts, normalized_non_empty, unseen, unique_trimmed}

-- The texts that are asked for with spaces around them and more than once: those that are not blank, trimmed,
-- each of them once and in order.
pub record AreTrimmed (asked texts : List String) : Type 0 where
  pub members :
      (text : String)
      → contains texts text ≡ (not (text == "") && any (λ a. trim_space a == text) asked)
  pub once : IsDistinct texts
  pub in_order : IsAscending texts

contains-normalized_non_empty :
    (text : String) (asked : List String)
    → contains (normalized_non_empty asked) text
      ≡ (not (text == "") && any (λ a. trim_space a == text) asked)
unfolding normalized_non_empty contains
contains-normalized_non_empty text [] = ground arith
contains-normalized_non_empty text (a ∷ asked) = ground (
  arith,
  contains-normalized_non_empty text asked,
  eq_iff (trim_space a) "",
  eq_iff (trim_space a) text,
  eq_iff text "",
)

contains-unseen :
    (text : String) (seen texts : List String)
    → contains (unseen seen texts) text ≡ (contains texts text && not (contains seen text))
unfolding unseen contains
contains-unseen text seen [] = refl
contains-unseen text seen (a ∷ texts) = elim (Bool-cases (a == text)) [
  | inl same ↦ ground (
    arith,
    contains-unseen text seen texts,
    contains-unseen text (a ∷ seen) texts,
    contains-cons a seen text,
    eq_iff a text,
  )
  | inr other ↦ ground (
    arith,
    contains-unseen text seen texts,
    contains-unseen text (a ∷ seen) texts,
    contains-cons a seen text,
  )
]

unseen-IsDistinct : (seen texts : List String) → IsDistinct (unseen seen texts)
unfolding unseen
unseen-IsDistinct seen [] = tt
unseen-IsDistinct seen (a ∷ texts) = elim (Bool-cases (contains seen a)) [
  | inl old ↦ rw old (unseen-IsDistinct seen texts)
  | inr new ↦ rw new (
    contains-unseen a (a ∷ seen) texts ∙ ground (arith, contains-cons a seen a, eq_iff a a),
    unseen-IsDistinct (a ∷ seen) texts,
  )
]

pub contains-insert_by :
    (text a : String) (texts : List String)
    → contains (insert_by text_ltb a texts) text ≡ (a == text || contains texts text)
unfolding insert_by contains
contains-insert_by text a [] = refl
contains-insert_by text a (b ∷ texts) = ground (arith, contains-insert_by text a texts)

pub contains-sort_texts :
    (text : String) (texts : List String) → contains (sort_texts texts) text ≡ contains texts text
unfolding sort_texts sort_by contains
contains-sort_texts text [] = refl
contains-sort_texts text (a ∷ texts) =
    contains-insert_by text a (sort_texts texts)
    ∙ ap (λ b. a == text || b) (contains-sort_texts text texts)

insert_by-IsDistinct :
    (a : String) (texts : List String)
    → contains texts a ≡ false
    → IsDistinct texts
    → IsDistinct (insert_by text_ltb a texts)
unfolding insert_by contains
insert_by-IsDistinct a [] h d = (refl, tt)
insert_by-IsDistinct a (b ∷ texts) h d =
    ground
      (arith, h, insert_by-IsDistinct a texts, contains-insert_by b a texts, eq_iff b a, eq_iff a b)

sort_texts-IsDistinct : (texts : List String) → IsDistinct texts → IsDistinct (sort_texts texts)
unfolding sort_texts sort_by
sort_texts-IsDistinct [] d = tt
sort_texts-IsDistinct (a ∷ texts) d =
    insert_by-IsDistinct a (sort_texts texts) (contains-sort_texts a texts ∙ d.0)
      (sort_texts-IsDistinct texts d.1)

pub unique_trimmed-AreTrimmed : (asked : List String) → AreTrimmed asked (unique_trimmed asked)
unfolding unique_trimmed contains
unique_trimmed-AreTrimmed asked = record {
  members = λ text.
      contains-sort_texts text (unseen [] (normalized_non_empty asked))
      ∙ contains-unseen text [] (normalized_non_empty asked)
      ∙ ground (arith, contains-normalized_non_empty text asked);
  once =
      sort_texts-IsDistinct (unseen [] (normalized_non_empty asked))
        (unseen-IsDistinct [] (normalized_non_empty asked));
  in_order = sort_texts-IsAscending (unseen [] (normalized_non_empty asked));
}
