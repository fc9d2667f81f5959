-- ===== src/Breaker.antt =====
-- service/provider_resilience.go and service/internal/providerpolicy: the circuit breaker of a
-- provider. Instants and durations are nanoseconds; `W` is what the provider acts on, `E` its errors.
use goncho.Prelude.{
  ℕ, suc, ◌+◌, ◌/◌, String, Bool, true, false, not, ◌&&◌, ◌||◌, Option, none, some, ◌==◌, ltb, leb,
  if◌then◌else◌,
}
use goncho.Prelude.Int.{ℤ, pos_part, not_positive}
use goncho.Prelude.Text.{trim_space}
pub mod Events
pub mod Calls
pub mod Registry
pub mod Diagnostics
mod Examples

pub data CircuitState : Type 0 where
  closed opened half_open : CircuitState

pub data ProviderStatus : Type 0 where
  healthy degraded disabled : ProviderStatus

pub record BreakerConfig : Type 0 where
  pub name : String
  pub kind : String
  pub failure_threshold : ℤ
  pub cooldown : ℤ
  pub timeout : ℤ
  pub max_payload_bytes : ℤ

-- `opened_at` is `none` for the zero time.
pub record Breaker : Type 0 where
  pub name : String
  pub kind : String
  pub failure_threshold : ℕ
  pub cooldown : ℕ
  pub timeout : ℤ
  pub max_payload_bytes : ℤ
  pub state : CircuitState
  pub failure_count : ℕ
  pub last_error : String
  pub opened_at : Option ℕ

-- 3 failures, 30 seconds
unfoldable pub failure_threshold : ℤ → ℕ
failure_threshold n = if not_positive n then 3 else pos_part n

unfoldable pub cooldown_of : ℤ → ℕ
cooldown_of n = if not_positive n then 30000000000 else pos_part n

unfoldable pub new_breaker : BreakerConfig → Breaker
unfolding failure_threshold cooldown_of
new_breaker c =
    let name : String = if trim_space c.name == "" then c.kind else trim_space c.name in
    record {
      name = name;
      kind = if c.kind == "" then name else c.kind;
      failure_threshold = failure_threshold c.failure_threshold;
      cooldown = cooldown_of c.cooldown;
      timeout = c.timeout;
      max_payload_bytes = c.max_payload_bytes;
      state = closed;
      failure_count = 0;
      last_error = "";
      opened_at = none;
    }

abbrev pub is_open : CircuitState → Bool
is_open opened = true
is_open _ = false

abbrev pub is_half_open : CircuitState → Bool
is_half_open half_open = true
is_half_open _ = false

-- The zero time lies before every instant.
abbrev pub ends_at : Option ℕ → ℕ → ℕ
ends_at none cooldown = 0
ends_at (some t) cooldown = t + cooldown

-- The breaker, and whether the call may go on.
unfoldable pub before_call : ℕ → Breaker → Breaker × Bool
before_call now b =
    if is_open b.state
    then (if ltb now (ends_at b.opened_at b.cooldown)
        then (b, false)
        else (record b { state = half_open }, true))
    else (b, true)

unfoldable pub record_failure : ℕ → String → Breaker → Breaker
record_failure now message b =
    let failed = record b { failure_count = suc b.failure_count; last_error = message } in
    if leb b.failure_threshold (suc b.failure_count) || is_half_open b.state
    then record failed { state = opened; opened_at = some now }
    else failed

unfoldable pub record_success : Breaker → Breaker
record_success b = record b { failure_count = 0; last_error = ""; state = closed; opened_at = none }

abbrev pub retry_after : CircuitState → Option ℕ → ℕ → Option ℕ
retry_after opened (some t) cooldown = some (t + cooldown)
retry_after _ _ cooldown = none

pub record Health : Type 0 where
  pub name : String
  pub kind : String
  pub status : ProviderStatus
  pub circuit_state : CircuitState
  pub optional : Bool
  pub last_error : String
  pub failure_count : ℕ
  pub retry_after : Option ℕ
  pub timeout : ℤ
  pub max_payload_bytes : ℤ

-- The timeout stays in nanoseconds.
unfoldable pub health : Breaker → Health
health b = record {
  name = b.name;
  kind = b.kind;
  status = if is_open b.state || ltb 0 b.failure_count then degraded else healthy;
  circuit_state = b.state;
  optional = true;
  last_error = b.last_error;
  failure_count = b.failure_count;
  retry_after = retry_after b.state b.opened_at b.cooldown;
  timeout = b.timeout;
  max_payload_bytes = b.max_payload_bytes;
}

-- What a call answers: the provider's answer, or that the circuit is open.
pub data CallError (E : Type 0) : Type 0 where
  circuit_open : CallError E
  failed : E → CallError E

module _ {W E : Type 0} (message : E → String) where
  abbrev pub answered : ℕ → Breaker → W × Option E → Breaker × W × Option (CallError E)
  answered now b (world, none) = (record_success b, world, none)
  answered now b (world, some e) = (record_failure now (message e) b, world, some (failed e))

  abbrev pub admitted :
      ℕ → (ℤ → W → W × Option E) → W → Breaker × Bool → Breaker × W × Option (CallError E)
  admitted after provider world (b, false) = (b, world, some circuit_open)
  admitted after provider world (b, true) = answered after b (provider b.timeout world)

  -- `Execute` with nothing else running: the clock shows `now` before the call of the provider, and
  -- `after` when it has failed. The provider is given the timeout, which is none if not positive.
  unfoldable pub execute :
      Breaker → ℕ → ℕ → (ℤ → W → W × Option E) → W → Breaker × W × Option (CallError E)
  unfolding before_call record_failure record_success
  execute b now after provider world = admitted after provider world (before_call now b)
