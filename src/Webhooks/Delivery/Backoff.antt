-- ===== src/Webhooks/Delivery/Backoff.antt =====
-- The default delay before a retry, and where its doubling would leave an `int64`.
use goncho.Prelude.{
  if◌then◌else◌, false, ℕ, zero, suc, ◌-◌, ◌*◌, ◌^◌, ◌≤◌, ◌<◌, ◌≡◌, refl, Bool, true, ◌&&◌, none,
  eqb, ltb, arith,
}
use native.Mathlib.Decide.{dec_lt}
use goncho.Prelude.Int.{pos}
use goncho.Webhooks.Delivery.{backoff, default_backoff, doubled, int64}

-- A test at every number up to a bound.
holds_upto : (ℕ → Bool) → ℕ → Bool
holds_upto test zero = test 0
holds_upto test (suc top) = let rest = holds_upto test top in if test (suc top) then rest else false

holds_upto-at : (test : ℕ → Bool) (top k : ℕ) → k ≤ top → holds_upto test top ≡ true → test k ≡ true
unfolding holds_upto
holds_upto-at test zero zero low ok = ok
holds_upto-at test zero (suc k) low ok = absurd (omega arith)
holds_upto-at test (suc top) k low ok = elim (dec_lt top k) [
  | yes past ↦ let last : k ≡ suc top = omega arith in rw last (ground arith)
  | no before ↦ holds_upto-at test top k (omega arith) (ground arith)
]

abbrev exact : ℕ → Bool
exact k =
    eqb (doubled k default_backoff) (default_backoff * 2 ^ k)
    && ltb (default_backoff * 2 ^ k) (2 ^ 63)

exact_table : holds_upto exact 28 ≡ true
unfolding holds_upto doubled
exact_table = refl

int64-doubled :
    (k : ℕ) → exact k ≡ true → int64 (doubled k default_backoff) ≡ pos (default_backoff * 2 ^ k)
int64-doubled k h = ground arith

-- Without a custom backoff, the delay before the retry of attempt n is 30 seconds times 2 ^ (n - 1),
-- and does not wrap, for every attempt from 1 to 29.
pub backoff_default :
    (attempt : ℕ)
    → 0 < attempt
    → attempt ≤ 29
    → backoff none attempt ≡ pos (default_backoff * 2 ^ (attempt - 1))
unfolding backoff
backoff_default attempt low high =
    int64-doubled (attempt - 1) (holds_upto-at exact 28 (attempt - 1) (omega arith) exact_table)
