-- ===== src/Actions/Store/Texts.antt =====
-- service/internal/textutil/stringnorm: the values that textutil.UniqueTrimmed leaves.
pub mod Order
pub mod Sorted
pub mod Members
use goncho.Prelude.{String, List, [], ◌∷◌, ◌==◌, if◌then◌else◌, contains}
use goncho.Prelude.Text.{trim_space}
use goncho.Prelude.Sort.{text_ltb, sort_by}

-- sort.Strings
unfoldable pub sort_texts : List String → List String
unfolding sort_by
sort_texts values = sort_by text_ltb values

unfoldable pub normalized_non_empty : List String → List String
normalized_non_empty [] = []
normalized_non_empty (a ∷ values) =
    let rest = normalized_non_empty values in
    if trim_space a == "" then rest else trim_space a ∷ rest

-- The loop of `Unique`, with the values that it has seen.
unfoldable pub unseen : List String → List String → List String
unseen seen [] = []
unseen seen (a ∷ values) =
    let later = unseen seen values in
    let fresh = unseen (a ∷ seen) values in if contains seen a then later else a ∷ fresh

-- textutil.UniqueTrimmed, sorted
unfoldable pub unique_trimmed : List String → List String
unfolding normalized_non_empty unseen sort_texts
unique_trimmed values = sort_texts (unseen [] (normalized_non_empty values))
