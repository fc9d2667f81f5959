-- ===== src/Actions/Store/Texts/Sorted.antt =====
-- sort.Strings leaves no text before the one in front of it.
use goncho.Prelude.{◌≡◌, String, false, List, [], ◌∷◌, Bool-cases, inl, inr}
use goncho.Prelude.Sort.{text_ltb, insert_by, sort_by}
use goncho.Actions.Store.Texts.{sort_texts}
use goncho.Actions.Store.Texts.Order.{text_ltb_asym}

-- What comes next, if anything, is not before the text.
abbrev pub IsFollowed : String → List String → Type 0
IsFollowed a [] = Unit
IsFollowed a (b ∷ texts) = text_ltb b a ≡ false

abbrev pub IsAscending : List String → Type 0
IsAscending [] = Unit
IsAscending (a ∷ texts) = IsFollowed a texts × IsAscending texts

insert_by-IsFollowed :
    (b a : String) (texts : List String)
    → text_ltb a b ≡ false
    → IsFollowed b texts
    → IsFollowed b (insert_by text_ltb a texts)
unfolding insert_by
insert_by-IsFollowed b a [] h follows = h
insert_by-IsFollowed b a (c ∷ texts) h follows = elim (Bool-cases (text_ltb a c)) [
  | inl first ↦ rw first h
  | inr later ↦ rw later follows
]

insert_by-IsAscending :
    (a : String) (texts : List String)
    → IsAscending texts
    → IsAscending (insert_by text_ltb a texts)
unfolding insert_by
insert_by-IsAscending a [] h = (tt, tt)
insert_by-IsAscending a (b ∷ texts) h = elim (Bool-cases (text_ltb a b)) [
  | inl first ↦ rw first (text_ltb_asym a b first, h)
  | inr later ↦
      rw later (insert_by-IsFollowed b a texts later h.0, insert_by-IsAscending a texts h.1)
]

pub sort_texts-IsAscending : (texts : List String) → IsAscending (sort_texts texts)
unfolding sort_texts sort_by
sort_texts-IsAscending [] = tt
sort_texts-IsAscending (a ∷ texts) =
    insert_by-IsAscending a (sort_texts texts) (sort_texts-IsAscending texts)
