-- ===== src/Prelude/Result.antt =====
-- A Go result `(A, error)`: the value, or the error.
use mathlib.Core.Path.{◌≡◌, refl}
use mathlib.Core.Bool.{Bool, true, false}
use goncho.Prelude.Tests.{if◌then◌else◌}

pub data Result (E A : Type 0) : Type 0 where
  ok : A → Result E A
  err : E → Result E A

infixl 5 ◌>>=◌
abbrev pub ◌>>=◌ : {E A B : Type 0} → Result E A → (A → Result E B) → Result E B
err failure >>= next = err failure
ok value >>= next = next value

-- What a chain that returns a value has gone through.
pub ok_chain :
    {A B E : Type 0} {end : B} (first : Result E A) (next : A → Result E B)
    → first >>= next ≡ ok end
    → (mid : A) × (first ≡ ok mid) × (next mid ≡ ok end)
ok_chain (err failure) next reached = cc
ok_chain (ok mid) next reached = (mid, refl, reached)

-- What passes a guard: the test of the guard has failed.
pub past_guard :
    {A E : Type 0} {end : A} (test : Bool) (failure : E) (next : Result E A)
    → (if test then err failure else next) ≡ ok end
    → (test ≡ false) × (next ≡ ok end)
past_guard true failure next h = cc
past_guard false failure next h = (refl, h)

pub ok-injective : {E A : Type 0} {a b : A} → Path (Result E A) (ok a) (ok b) → a ≡ b
ok-injective h = cc
