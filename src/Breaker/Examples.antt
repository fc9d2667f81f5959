-- ===== src/Breaker/Examples.antt =====
-- Runs of a circuit breaker on concrete data.
use goncho.Prelude.{
  ℕ, suc, true, ◌+◌, ◌≡◌, refl, String, Option, some, List, [], ◌∷◌, if◌then◌else◌, ltb,
}
use goncho.Prelude.Int.{ℤ, pos}
use goncho.Prelude.Text.{trim_space, is_space}
use goncho.Breaker.{
  BreakerConfig, opened, new_breaker, execute, circuit_open, Health, health, healthy, degraded,
  failure_threshold,
}
use goncho.Breaker.Events.{
  Event, begin, fail, succeed, after_events, failures, last_failure, is_closed, IsTracked,
  after_events-IsTracked,
}
use goncho.Breaker.Registry.{
  ResilienceConfig, new_registry, registry_execute, health_of, diagnostics, provider_warnings,
}
use goncho.Breaker.Diagnostics.{Provider, run, run-diagnostics}
use goncho.Breaker.Calls.{execute-opened, probed}

abbrev config : BreakerConfig
config = record {
  name = " embedding ";
  kind = "";
  failure_threshold = pos 2;
  cooldown = pos 30;
  timeout = pos 0;
  max_payload_bytes = pos 0;
}

-- Newest first: two failures, after a success and a failure.
abbrev events : List Event
events =
    fail 12 "second" ∷ begin 11 ∷ fail 9 "first" ∷ begin 8 ∷ succeed ∷ begin 7 ∷ fail 5 "old" ∷ []

-- A provider that counts its calls and fails.
abbrev failing : ℤ → ℕ → ℕ × Option String
failing timeout calls = (suc calls, some "down")

test_name : (new_breaker config).name ≡ "embedding"
unfolding new_breaker trim_space is_space
test_name = refl

test_health : (health (after_events events (new_breaker config))).retry_after ≡ some 42
unfolding health after_events new_breaker
test_health = refl

test_refused :
    (execute (λ (e : String). e) (after_events events (new_breaker config)) 41 41 failing 0).2
    ≡ some circuit_open
unfolding execute after_events new_breaker
test_refused = refl

after_events-IsTracked_example : IsTracked config events (after_events events (new_breaker config))
after_events-IsTracked_example = after_events-IsTracked config events

opened_state : (after_events events (new_breaker config)).state ≡ opened
unfolding after_events new_breaker
opened_state = refl

failed_last : last_failure events ≡ some 12
unfolding last_failure
failed_last = refl

execute-opened_example :
    let b = after_events events (new_breaker config) in
    execute (λ (e : String). e) b 50 51 failing 0 ≡ (
      if ltb 50 (12 + b.cooldown)
      then (b, 0, some circuit_open)
      else probed (λ (e : String). e) 51 (failures events) b (failing b.timeout 0))
execute-opened_example =
    execute-opened (λ (e : String). e) config events 12 50 51 failing 0 opened_state failed_last

abbrev resilience : ResilienceConfig
resilience = record {
  failure_threshold = pos 2;
  cooldown = pos 30;
  timeout = pos 0;
  max_payload_bytes = pos 64;
}

-- The embedding fails, and then a provider that has no breaker.
abbrev calls : List (String × ℕ × ℕ × Provider ℕ String)
calls = (" embedding ", 1, 2, failing) ∷ ("reranking", 3, 4, failing) ∷ []

test_warnings :
    provider_warnings
      (diagnostics (run (λ (e : String). e) calls (some (new_registry resilience true), 0, [])).0)
    ≡ "provider embedding degraded: down" ∷ "provider extraction disabled"
      ∷ "provider reranking disabled" ∷ "provider summarization disabled" ∷ []
unfolding provider_warnings diagnostics registry_execute new_registry trim_space is_space
test_warnings = refl

run-diagnostics_example :
    let x = run (λ (e : String). e) calls (some (new_registry resilience true), 0, []) in
    (h : Health) × (diagnostics x.0
      ≡ h
        ∷ health_of [] "extraction"
        ∷ health_of [] "reranking"
        ∷ health_of [] "summarization"
        ∷ [])
    × (h.name ≡ "embedding")
    × (h.failure_count ≡ failures x.2)
    × (h.status ≡ (if ltb 0 (failures x.2) then degraded else healthy))
    × (is_closed h.circuit_state
        ≡ ltb (failures x.2) (failure_threshold resilience.failure_threshold))
run-diagnostics_example = run-diagnostics (λ (e : String). e) resilience calls 0
