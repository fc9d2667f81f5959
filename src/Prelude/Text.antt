-- ===== src/Prelude/Text.antt =====
-- Go's `strings.TrimSpace` on UTF-8 text: the code points that `unicode.IsSpace` accepts are cut off
-- at both ends.
use Prim.Native.Nat.{ℕ}
use Prim.Native.Char.{Char, code}
use Prim.Native.String.append
use Prim.Native.String.{String, ◌++◌ as str_append}
use mathlib.Core.Path.{◌≡◌, refl, sym, ap, ◌∙◌}
use mathlib.Core.Bool.{Bool, ◌&&◌, ◌||◌}
use native.Mathlib.Omega.{arith}
use mathlib.Core.Logic.{inl, inr}
use goncho.Prelude.Tests.{Bool-cases, leb, eqb, if◌then◌else◌}

-- unicode.IsSpace
unfoldable pub is_space : ℕ → Bool
is_space c =
    (leb 9 c && leb c 13)
    || eqb c 32
    || eqb c 0x85
    || eqb c 0xa0
    || eqb c 0x1680
    || (leb 0x2000 c && leb c 0x200a)
    || eqb c 0x2028
    || eqb c 0x2029
    || eqb c 0x202f
    || eqb c 0x205f
    || eqb c 0x3000

unfoldable pub trim_left : String → String
trim_left String.[] = String.[]
trim_left (String.◌∷◌ c s) =
    let rest = trim_left s in if is_space (code c) then rest else String.◌∷◌ c s

-- A character before what is left of the rest: a space is dropped when nothing is left after it.
unfoldable pub push_left : Char → String → String
push_left c String.[] = if is_space (code c) then String.[] else String.◌∷◌ c String.[]
push_left c (String.◌∷◌ d s) = String.◌∷◌ c (String.◌∷◌ d s)

unfoldable pub trim_right : String → String
unfolding push_left
trim_right String.[] = String.[]
trim_right (String.◌∷◌ c s) = push_left c (trim_right s)

unfoldable pub trim_space : String → String
unfolding trim_left trim_right
trim_space s = trim_left (trim_right s)

trim_right-push_left :
    (c : Char) (s : String) → trim_right s ≡ s → trim_right (push_left c s) ≡ push_left c s
unfolding trim_right
trim_right-push_left c String.[] h = elim (Bool-cases (is_space (code c))) [
  | inl e ↦ rw e
  | inr e ↦ rw e (rw e)
]
trim_right-push_left c (String.◌∷◌ d s) h = ap (push_left c) h

trim_right_idem : (s : String) → trim_right (trim_right s) ≡ trim_right s
unfolding trim_right
trim_right_idem String.[] = refl
trim_right_idem (String.◌∷◌ c s) = trim_right-push_left c (trim_right s) (trim_right_idem s)

trim_left_idem : (s : String) → trim_left (trim_left s) ≡ trim_left s
unfolding trim_left
trim_left_idem String.[] = refl
trim_left_idem (String.◌∷◌ c s) = ground (arith, trim_left_idem s)

abbrev after_first : String → String
after_first String.[] = String.[]
after_first (String.◌∷◌ c s) = s

after_first-push_left : (c : Char) (t : String) → after_first (push_left c t) ≡ t
unfolding push_left
after_first-push_left c String.[] = elim (Bool-cases (is_space (code c))) [
  | inl e ↦ rw e
  | inr e ↦ rw e
]
after_first-push_left c (String.◌∷◌ d t) = refl

push_left_full : (c : Char) (t s : String) → push_left c t ≡ String.◌∷◌ c s → t ≡ s
push_left_full c t s h = sym (after_first-push_left c t) ∙ ap after_first h

trim_right-trim_left : (s : String) → trim_right s ≡ s → trim_right (trim_left s) ≡ trim_left s
unfolding trim_left trim_right
trim_right-trim_left String.[] h = refl
trim_right-trim_left (String.◌∷◌ c s) h =
    ground (arith, trim_right-trim_left s (push_left_full c (trim_right s) s h))

-- A trimmed text has nothing left to trim.
pub trim_space_idem : (s : String) → trim_space (trim_space s) ≡ trim_space s
unfolding trim_space
trim_space_idem s =
    ap trim_left (trim_right-trim_left (trim_right s) (trim_right_idem s))
    ∙ trim_left_idem (trim_right s)

trim_space_test : trim_space "  a b  " ≡ "a b"
unfolding trim_space is_space
trim_space_test = refl

pub append_assoc : (a b c : String) → str_append (str_append a b) c ≡ str_append a (str_append b c)
append_assoc String.[] b c =
    ap (λ t. str_append t c) (append.nil b) ∙ sym (append.nil (str_append b c))
append_assoc (String.◌∷◌ d s) b c =
    ap (λ t. str_append t c) (append.cons d s b)
    ∙ append.cons d (str_append s b) c
    ∙ ap (String.◌∷◌ d) (append_assoc s b c)
    ∙ sym (append.cons d s (str_append b c))
