-- ===== src/Breaker/Events.antt =====
-- The breaker under any interleaving of calls: the critical sections one after the other.
use goncho.Prelude.{
  ℕ, suc, ◌<◌, ◌≡◌, ◌∙◌, refl, ap, sym, arith, String, Bool, true, false, ◌||◌, Option, none, some,
  List, [], ◌∷◌, lt→ltb, ltb, leb, if_cases, if_intro,
}
use goncho.Prelude.Int.{ℤ}
use goncho.Breaker.{
  BreakerConfig, Breaker, CircuitState, closed, opened, half_open, is_open, is_half_open, ends_at,
  before_call, record_failure, record_success, new_breaker, failure_threshold,
}

-- A call begins, fails with a message, or succeeds.
pub data Event : Type 0 where
  begin : ℕ → Event
  fail : ℕ → String → Event
  succeed : Event

unfoldable pub step : Event → Breaker → Breaker
unfolding before_call record_failure record_success
step (begin now) b = (before_call now b).0
step (fail now message) b = record_failure now message b
step succeed b = record_success b

-- The events of a list from the last to the first.
unfoldable pub after_events : List Event → Breaker → Breaker
unfolding step
after_events [] b = b
after_events (e ∷ es) b = step e (after_events es b)

-- The failures since the last success, and the time of the last failure since then.
unfoldable pub failures : List Event → ℕ
failures [] = 0
failures (begin now ∷ es) = failures es
failures (fail now message ∷ es) = suc (failures es)
failures (succeed ∷ es) = 0

unfoldable pub last_failure : List Event → Option ℕ
last_failure [] = none
last_failure (begin now ∷ es) = last_failure es
last_failure (fail now message ∷ es) = some now
last_failure (succeed ∷ es) = none

abbrev pub is_closed : CircuitState → Bool
is_closed closed = true
is_closed _ = false

-- What the breaker knows of the events, newest first.
pub record IsTracked (c : BreakerConfig) (es : List Event) (b : Breaker) : Type 0 where
  pub threshold : b.failure_threshold ≡ failure_threshold c.failure_threshold
  pub counted : b.failure_count ≡ failures es
  pub shut : is_closed b.state ≡ ltb (failures es) b.failure_threshold
  pub timed : is_closed b.state ≡ false → b.opened_at ≡ last_failure es

pub failure_threshold-positive : (n : ℤ) → 0 < failure_threshold n
unfolding failure_threshold
failure_threshold-positive n = ground arith

pub new_breaker-IsTracked : (c : BreakerConfig) → IsTracked c [] (new_breaker c)
unfolding new_breaker failures last_failure
new_breaker-IsTracked c = record {
  threshold = unfold failure_threshold in refl;
  counted = refl;
  shut = sym (lt→ltb _ _ (failure_threshold-positive c.failure_threshold));
  timed = λ e. refl;
}

pub open-not_closed : (s : CircuitState) → is_open s ≡ true → is_closed s ≡ false
open-not_closed opened h = refl
open-not_closed closed h = cc
open-not_closed half_open h = refl

half_open-not_closed : (s : CircuitState) → is_half_open s ≡ true → is_closed s ≡ false
half_open-not_closed half_open h = refl
half_open-not_closed closed h = cc
half_open-not_closed opened h = refl

neither-closed :
    (s : CircuitState) → is_open s ≡ false → is_half_open s ≡ false → is_closed s ≡ true
neither-closed closed h k = refl
neither-closed opened h k = cc
neither-closed half_open h k = cc

IsTracked-begin :
    (c : BreakerConfig) (es : List Event) (now : ℕ) (b : Breaker)
    → IsTracked c es b
    → IsTracked c (begin now ∷ es) b
unfolding failures last_failure
IsTracked-begin c es now b t = record {
  threshold = t.threshold;
  counted = t.counted;
  shut = t.shut;
  timed = t.timed;
}

begin-IsTracked :
    (c : BreakerConfig) (es : List Event) (now : ℕ) (b : Breaker)
    → IsTracked c es b
    → IsTracked c (begin now ∷ es) (step (begin now) b)
unfolding step before_call failures last_failure
begin-IsTracked c es now b t =
    if_cases (λ (r : Breaker × Bool). IsTracked c (begin now ∷ es) r.0) (is_open b.state) _ _
      (λ was_open.
        if_intro (λ (r : Breaker × Bool). IsTracked c (begin now ∷ es) r.0)
          (ltb now (ends_at b.opened_at b.cooldown)) _ _ (IsTracked-begin c es now b t)
          (let not_closed = open-not_closed b.state was_open in
            record {
              threshold = t.threshold;
              counted = t.counted;
              shut = sym not_closed ∙ t.shut;
              timed = λ e. t.timed not_closed;
            }))
      (λ was_shut. IsTracked-begin c es now b t)

fail-IsTracked :
    (c : BreakerConfig) (es : List Event) (now : ℕ) (message : String) (b : Breaker)
    → IsTracked c es b
    → IsTracked c (fail now message ∷ es) (step (fail now message) b)
unfolding step record_failure failures last_failure
fail-IsTracked c es now message b t =
    if_cases (IsTracked c (fail now message ∷ es))
      (leb b.failure_threshold (suc b.failure_count) || is_half_open b.state) _ _
      (λ opens. record {
        threshold = t.threshold;
        counted = ap suc t.counted;
        shut = ground (arith, t.shut, t.counted, opens, half_open-not_closed b.state);
        timed = λ e. refl;
      })
      (λ stays. record {
        threshold = t.threshold;
        counted = ap suc t.counted;
        shut = ground (arith, t.shut, t.counted, stays);
        timed = λ e. ground (arith, t.shut, t.counted, stays);
      })

succeed-IsTracked :
    (c : BreakerConfig) (es : List Event) (b : Breaker)
    → IsTracked c es b
    → IsTracked c (succeed ∷ es) (step succeed b)
unfolding step record_success failures last_failure
succeed-IsTracked c es b t = record {
  threshold = t.threshold;
  counted = refl;
  shut = sym (lt→ltb _ _ (rw t.threshold (failure_threshold-positive c.failure_threshold)));
  timed = λ e. cc;
}

pub step-IsTracked :
    (c : BreakerConfig) (es : List Event) (e : Event) (b : Breaker)
    → IsTracked c es b
    → IsTracked c (e ∷ es) (step e b)
step-IsTracked c es (begin now) b t = begin-IsTracked c es now b t
step-IsTracked c es (fail now message) b t = fail-IsTracked c es now message b t
step-IsTracked c es succeed b t = succeed-IsTracked c es b t

-- After any events, in any interleaving of the calls, the circuit is closed exactly when there have
-- been fewer failures since the last success than the threshold; the breaker counts these failures,
-- keeps its threshold, and when it is not closed, it has the time of the last failure.
pub after_events-IsTracked :
    (c : BreakerConfig) (es : List Event) → IsTracked c es (after_events es (new_breaker c))
unfolding after_events
after_events-IsTracked c [] = new_breaker-IsTracked c
after_events-IsTracked c (e ∷ es) =
    step-IsTracked c es e (after_events es (new_breaker c)) (after_events-IsTracked c es)
