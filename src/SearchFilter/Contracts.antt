-- ===== src/SearchFilter/Contracts.antt =====
-- internal/searchfilter/contracts: expressions, compiled filters and the error.
use goncho.Prelude.{String, Bool, List, if◌then◌else◌, eqb}
use Prim.Native.Char.{Char, code}

-- `other ""` is the zero value of the Go type, and `unset` that of the operators.
pub data Kind : Type 0 where
  all_kind and_kind or_kind not_kind comparison : Kind
  other : String → Kind

pub data Operator : Type 0 where
  unset eq gt gte lt lte ne in_list contains_text icontains : Operator

mutual
  -- kind, children, field, operator, values
  pub data Expression : Type 0 where
    node : Kind → Expressions → String → Operator → List String → Expression

  pub data Expressions : Type 0 where
    nil : Expressions
    cons : Expression → Expressions → Expressions

pub record Compiled : Type 0 where
  pub session_ids : List String
  pub sources : List String
  pub deny_all : Bool

pub record UnsupportedFilterError : Type 0 where
  pub code : String
  pub field : String
  pub operator : String
  pub reason : String

unfoldable pub operator_name : Operator → String
operator_name unset = ""
operator_name eq = "eq"
operator_name gt = "gt"
operator_name gte = "gte"
operator_name lt = "lt"
operator_name lte = "lte"
operator_name ne = "ne"
operator_name in_list = "in"
operator_name contains_text = "contains"
operator_name icontains = "icontains"

-- strings.Trim(s, ".")
unfoldable trim_left_dots : String → String
trim_left_dots String.[] = String.[]
trim_left_dots (String.◌∷◌ c s) =
    let rest = trim_left_dots s in if eqb (code c) 46 then rest else String.◌∷◌ c s

unfoldable push_left_dot : Char → String → String
push_left_dot c String.[] = if eqb (code c) 46 then String.[] else String.◌∷◌ c String.[]
push_left_dot c (String.◌∷◌ d s) = String.◌∷◌ c (String.◌∷◌ d s)

unfoldable trim_right_dots : String → String
unfolding push_left_dot
trim_right_dots String.[] = String.[]
trim_right_dots (String.◌∷◌ c s) = push_left_dot c (trim_right_dots s)

unfoldable trim_dots : String → String
unfolding trim_left_dots trim_right_dots
trim_dots s = trim_left_dots (trim_right_dots s)

unfoldable pub new_unsupported_filter : String → String → String → UnsupportedFilterError
unfolding trim_dots
new_unsupported_filter field operator reason = record {
  code = "unsupported_filter";
  field = trim_dots field;
  operator = operator;
  reason = reason;
}
