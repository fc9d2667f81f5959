-- ===== src/ScopedKeys/Tokens.antt =====
-- Splitting a token at its dots, and putting it together again.
use Prim.Native.Char.{Char}
use Prim.Native.String.append
use Prim.Native.String.{String, ◌++◌ as str_append}
use text.Mathlib.TextEquality.{Char-path}
use goncho.Prelude.{
  ◌≡◌, refl, sym, ap, ◌∙◌, Bool, false, ◌||◌, List, [], ◌∷◌, arith, Bool-cases, inl, inr,
}
use goncho.ScopedKeys.{dotted, is_dot, push_first, split}

abbrev pub has_dot : String → Bool
has_dot String.[] = false
has_dot (String.◌∷◌ c s) = is_dot c || has_dot s

dot-append : (s : String) → str_append "." s ≡ String.◌∷◌ "." s
dot-append s = append.cons "." String.[] s ∙ ap (String.◌∷◌ ".") (append.nil s)

-- A part with no dot before a dot.
pub split-dotted :
    (part rest : String) → has_dot part ≡ false → split (dotted part rest) ≡ part ∷ split rest
unfolding split
split-dotted String.[] rest h = ap split (append.nil (str_append "." rest) ∙ dot-append rest)
split-dotted (String.◌∷◌ c s) rest h =
    let plain : is_dot c ≡ false = ground arith in
    ap split (append.cons c s (str_append "." rest))
    ∙ rw plain (ap (push_first c) (split-dotted s rest (ground arith)))

pub split-dotless : (part : String) → has_dot part ≡ false → split part ≡ part ∷ []
unfolding split
split-dotless String.[] h = refl
split-dotless (String.◌∷◌ c s) h =
    let plain : is_dot c ≡ false = ground arith in
    rw plain (ap (push_first c) (split-dotless s (ground arith)))

abbrev pub join : List String → String
join [] = ""
join (part ∷ []) = part
join (part ∷ next ∷ parts) = dotted part (join (next ∷ parts))

join-push_first :
    (c : Char) (part : String) (parts : List String)
    → join (push_first c (part ∷ parts)) ≡ String.◌∷◌ c (join (part ∷ parts))
join-push_first c part [] = refl
join-push_first c part (next ∷ parts) = append.cons c part (str_append "." (join (next ∷ parts)))

join-nil :
    (part : String) (parts : List String)
    → join ("" ∷ part ∷ parts) ≡ String.◌∷◌ "." (join (part ∷ parts))
join-nil part parts =
    append.nil (str_append "." (join (part ∷ parts))) ∙ dot-append (join (part ∷ parts))

split_some : (s : String) → (part : String) × (parts : List String) × (split s ≡ part ∷ parts)
unfolding split
split_some String.[] = ("", [], refl)
split_some (String.◌∷◌ c s) = elim (Bool-cases (is_dot c)) [
  | inl dot ↦ ("", split s, rw dot)
  | inr plain ↦
      let (part, parts, e) = split_some s in
      (String.◌∷◌ c part, parts, rw plain (ap (push_first c) e))
]

-- The parts joined by dots are the token again.
pub join-split : (token : String) → join (split token) ≡ token
unfolding split
join-split String.[] = refl
join-split (String.◌∷◌ c s) =
    let (part, parts, e) = split_some s in
    let whole : join (part ∷ parts) ≡ s = sym (ap join e) ∙ join-split s in
    elim (Bool-cases (is_dot c)) [
      | inl dot ↦
          let same : "." ≡ c = Char-path "." c (ground arith) in
          rw dot (
            ap (λ ps. join ("" ∷ ps)) e
            ∙ join-nil part parts
            ∙ ap (String.◌∷◌ ".") whole
            ∙ ap (λ d. String.◌∷◌ d s) same)
      | inr plain ↦ rw plain (
          ap (λ ps. join (push_first c ps)) e
          ∙ join-push_first c part parts
          ∙ ap (String.◌∷◌ c) whole)
    ]
