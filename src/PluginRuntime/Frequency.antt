-- ===== src/PluginRuntime/Frequency.antt =====
-- internal/pluginruntime/writefrequency/frequency.go: `Parse`, which reads the write frequency from a value of
-- the configuration.
use goncho.Prelude.{
  String, Bool, true, false, ◌||◌, Option, none, some, List, [], ◌∷◌, ◌==◌, contains, any,
  if◌then◌else◌,
}
use goncho.Prelude.Int.{ℤ, pos, not_positive}
use goncho.Prelude.Text.{trim_space}
use goncho.PluginRuntime.Router.{Frequency, async_frequency, invalid, turn, session, every}
pub mod Cadence

-- The type of the value; `F` is that of a `float64`, and `another` a value of any other type.
pub data RawValue (F : Type 0) : Type 0 where
  nil another : RawValue F
  int int64 : ℤ → RawValue F
  float64 : F → RawValue F
  text : String → RawValue F

abbrev pub invalid_frequency : Frequency
invalid_frequency = record { mode = invalid; every_count = pos 0; raw = "" }

abbrev pub turn_frequency : Frequency
turn_frequency = record { mode = turn; every_count = pos 0; raw = "turn" }

abbrev pub session_frequency : Frequency
session_frequency = record { mode = session; every_count = pos 0; raw = "session" }

abbrev pub if_positive : ℤ → String → Frequency
if_positive n raw =
    if not_positive n
    then invalid_frequency
    else record { mode = every; every_count = n; raw = raw }

-- strings.ToLower, strconv.Atoi, strconv.Itoa, and the `int` that a `float64` is equal to.
module _ {F : Type 0} (to_lower : String → String) (atoi : String → Option ℤ) (itoa : ℤ → String)
    (whole : F → Option ℤ) where
  abbrev pub if_whole : Option ℤ → Frequency
  if_whole none = invalid_frequency
  if_whole (some n) = if_positive n (itoa n)

  abbrev pub if_number : String → Option ℤ → Frequency
  if_number trimmed none = invalid_frequency
  if_number trimmed (some n) = if_positive n trimmed

  unfoldable pub parse : RawValue F → Frequency
  parse nil = async_frequency
  parse another = invalid_frequency
  parse (int n) = if_positive n (itoa n)
  parse (int64 n) = if_positive n (itoa n)
  parse (float64 v) = if_whole (whole v)
  parse (text value) =
      let trimmed = to_lower (trim_space value) in
      if trimmed == "" || trimmed == "async"
      then async_frequency
      else if trimmed == "turn"
      then turn_frequency
      else if trimmed == "session"
      then session_frequency
      else if_number trimmed (atoi trimmed)
