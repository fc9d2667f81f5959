-- ===== src/Breaker/Calls.antt =====
-- `Execute` with nothing else running, as the events of a breaker and on an open circuit.
use goncho.Prelude.{
  ℕ, suc, ◌+◌, ◌≡◌, refl, ap, ◌∙◌, arith, String, Bool, true, false, Option, none, some, List, ltb,
  if◌then◌else◌, if_true,
}
use goncho.Prelude.Int.{ℤ}
use goncho.Breaker.{
  BreakerConfig, Breaker, closed, opened, half_open, is_open, ends_at, before_call, record_failure,
  record_success, new_breaker, CallError, circuit_open, failed, admitted, answered, execute,
}
use goncho.Breaker.Events.{
  Event, begin, fail, succeed, step, after_events, failures, last_failure, is_closed,
  after_events-IsTracked,
}

-- What follows the beginning of a call with the given answer.
abbrev pub outcome_step :
    {E : Type 0} (message : E → String) → ℕ → Option (CallError E) → Breaker → Breaker
outcome_step message after none b = step succeed b
outcome_step message after (some circuit_open) b = b
outcome_step message after (some (failed e)) b = step (fail after (message e)) b

before_call-opened :
    (b : Breaker) (t now : ℕ)
    → b.state ≡ opened
    → b.opened_at ≡ some t
    → before_call now b
      ≡ (if ltb now (t + b.cooldown) then (b, false) else (record b { state = half_open }, true))
unfolding before_call
before_call-opened b t now is_opened since =
    if_true (is_open b.state) _ _ (ap is_open is_opened)
    ∙ ap
        (λ opened_at.
          if ltb now (ends_at opened_at b.cooldown)
          then (b, false)
          else (record b { state = half_open }, true))
        since

module _ {W E : Type 0} (message : E → String) where
  answered_step :
      (b : Breaker) (after : ℕ) (x : W × Option E)
      → (answered message after b x).0 ≡ outcome_step message after (answered message after b x).2 b
  unfolding step
  answered_step b after (world, none) = refl
  answered_step b after (world, some e) = refl

  admitted_step :
      (after : ℕ) (provider : ℤ → W → W × Option E) (world : W) (x : Breaker × Bool)
      → (admitted message after provider world x).0
        ≡ outcome_step message after (admitted message after provider world x).2 x.0
  admitted_step after provider world (b, false) = refl
  admitted_step after provider world (b, true) = answered_step b after (provider b.timeout world)

  -- A call of `Execute` changes the breaker as its beginning does, followed by a success if it
  -- returns no error, by the failure if it returns an error of the provider, and by nothing if it is
  -- refused.
  pub execute-step :
      (b : Breaker) (now after : ℕ) (provider : ℤ → W → W × Option E) (world : W)
      → (execute message b now after provider world).0
        ≡ outcome_step message after
            (execute message b now after provider world).2
            (step (begin now) b)
  unfolding execute step
  execute-step b now after provider world = admitted_step after provider world (before_call now b)

  -- A breaker that has let one call through, with `count` failures before it.
  abbrev pub probed : ℕ → ℕ → Breaker → W × Option E → Breaker × W × Option (CallError E)
  probed after count b (world, none) = (
    record b { state = closed; failure_count = 0; last_error = ""; opened_at = none },
    world,
    none,
  )
  probed after count b (world, some e) = (
    record b {
      state = opened;
      failure_count = suc count;
      last_error = message e;
      opened_at = some after;
    },
    world,
    some (failed e),
  )

  answered-probed :
      (after : ℕ) (b : Breaker) (x : W × Option E)
      → answered message after (record b { state = half_open }) x ≡ probed after b.failure_count b x
  unfolding record_success record_failure
  answered-probed after b (world, none) = refl
  answered-probed after b (world, some e) = ground arith

  admitted-if :
      (b : Breaker) (after : ℕ) (provider : ℤ → W → W × Option E) (world : W) (refused : Bool)
      → admitted message after provider world
          (if refused then (b, false) else (record b { state = half_open }, true))
        ≡ (if refused
            then (b, world, some circuit_open)
            else probed after b.failure_count b (provider b.timeout world))
  admitted-if b after provider world true = refl
  admitted-if b after provider world false = answered-probed after b (provider b.timeout world)

  execute-when_open :
      (b : Breaker) (t now after : ℕ) (provider : ℤ → W → W × Option E) (world : W)
      → b.state ≡ opened
      → b.opened_at ≡ some t
      → execute message b now after provider world ≡ (
          if ltb now (t + b.cooldown)
          then (b, world, some circuit_open)
          else probed after b.failure_count b (provider b.timeout world))
  unfolding execute before_call
  execute-when_open b t now after provider world is_opened since =
      ap (admitted message after provider world) (before_call-opened b t now is_opened since)
      ∙ admitted-if b after provider world (ltb now (t + b.cooldown))

  -- When the circuit is open after any events, the last one of them to fail having failed at `t`, a
  -- call before the end of the cooldown after `t` is refused: the provider is not called and the
  -- breaker stays as it is. A later call is put to the provider: if it succeeds, the circuit is
  -- closed with no failures, and if it fails, the circuit is open again from that failure on, which is
  -- counted with those since the last success.
  pub execute-opened :
      (c : BreakerConfig) (es : List Event) (t now after : ℕ) (provider : ℤ → W → W × Option E)
      (world : W)
      → (after_events es (new_breaker c)).state ≡ opened
      → last_failure es ≡ some t
      → let b = after_events es (new_breaker c) in
        execute message b now after provider world ≡ (
          if ltb now (t + b.cooldown)
          then (b, world, some circuit_open)
          else probed after (failures es) b (provider b.timeout world))
  execute-opened c es t now after provider world is_opened last =
      let b = after_events es (new_breaker c) in
      let tracked = after_events-IsTracked c es in
      let since : b.opened_at ≡ some t = tracked.timed (ap is_closed is_opened) ∙ last in
      execute-when_open b t now after provider world is_opened since
      ∙ ap
          (λ count.
            if ltb now (t + b.cooldown)
            then (b, world, some circuit_open)
            else probed after count b (provider b.timeout world))
          tracked.counted
