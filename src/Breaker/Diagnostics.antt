-- ===== src/Breaker/Diagnostics.antt =====
-- What the diagnostics say after any series of calls through the registry.
use goncho.Prelude.{
  ℕ, ◌≡◌, ◌∙◌, refl, ap, sym, subst, arith, String, Bool, true, Option, none, some, List, [], ◌∷◌,
  ◌==◌, ltb, if◌then◌else◌, if_intro, Bool-cases, inl, inr, eq_iff,
}
use goncho.Prelude.Int.{ℤ, pos}
use goncho.Prelude.Text.{trim_space, is_space}
use goncho.Prelude.Dict.{insert, lookup}
use goncho.Breaker.{
  Breaker, BreakerConfig, Health, healthy, degraded, is_open, failure_threshold, before_call,
  record_failure, record_success, new_breaker, health, CallError, circuit_open, failed, execute,
}
use goncho.Breaker.Events.{
  Event, begin, fail, succeed, step, failures, is_closed, IsTracked, step-IsTracked,
  new_breaker-IsTracked, open-not_closed, failure_threshold-positive,
}
use goncho.Breaker.Calls.{outcome_step, execute-step}
use goncho.Breaker.Registry.{
  ResilienceConfig, Registry, normalize_config, embedding_config, new_registry, find_breaker,
  health_of, diagnostics, unguarded, registry_execute,
}

step-name : (e : Event) (b : Breaker) → (step e b).name ≡ b.name
unfolding step before_call record_failure record_success
step-name (begin now) b =
    if_intro (λ (r : Breaker × Bool). r.0.name ≡ b.name) (is_open b.state) _ _
      (if_intro (λ (r : Breaker × Bool). r.0.name ≡ b.name) _ _ _ refl refl) refl
step-name (fail now message) b = if_intro (λ (r : Breaker). r.name ≡ b.name) _ _ _ refl refl
step-name succeed b = refl

-- The registry has one breaker, which has seen the events.
abbrev IsGuarded : ResilienceConfig → List Event → Option Registry → Type 0
IsGuarded c es r =
    (b : Breaker) × (r ≡ some (record { config = c; breakers = ("embedding", b) ∷ [] }))
    × (b.name ≡ "embedding")
    × IsTracked (embedding_config c) es b

abbrev pub Provider : Type 0 → Type 0 → Type 0
Provider W E = ℤ → W → W × Option E

module _ {E : Type 0} (message : E → String) where
  -- The events of a call with the given answer, on top of those before it.
  abbrev call_events : ℕ → ℕ → Option (CallError E) → List Event → List Event
  call_events now after none es = succeed ∷ begin now ∷ es
  call_events now after (some circuit_open) es = begin now ∷ es
  call_events now after (some (failed e)) es = fail after (message e) ∷ begin now ∷ es

  outcome_step-IsTracked :
      (c : BreakerConfig) (es : List Event) (now after : ℕ) (answer : Option (CallError E))
      (b : Breaker)
      → IsTracked c es b
      → IsTracked c
          (call_events now after answer es)
          (outcome_step message after answer (step (begin now) b))
  outcome_step-IsTracked c es now after none b t =
      step-IsTracked c _ succeed _ (step-IsTracked c es (begin now) b t)
  outcome_step-IsTracked c es now after (some circuit_open) b t =
      step-IsTracked c es (begin now) b t
  outcome_step-IsTracked c es now after (some (failed e)) b t =
      step-IsTracked c _ (fail after (message e)) _ (step-IsTracked c es (begin now) b t)

  outcome_step-name :
      (now after : ℕ) (answer : Option (CallError E)) (b : Breaker)
      → (outcome_step message after answer (step (begin now) b)).name ≡ b.name
  outcome_step-name now after none b = step-name succeed _ ∙ step-name (begin now) b
  outcome_step-name now after (some circuit_open) b = step-name (begin now) b
  outcome_step-name now after (some (failed e)) b =
      step-name (fail after (message e)) _ ∙ step-name (begin now) b

  abbrev pub embedding_events : String → ℕ → ℕ → Option (CallError E) → List Event → List Event
  embedding_events name now after answer es =
      if "embedding" == trim_space name then call_events now after answer es else es

module _ {W E : Type 0} (message : E → String) where
  -- A series of calls on the registry, on what the providers act on, and on the events of the breaker of
  -- the embedding, newest first, as the answers show them.
  abbrev pub run :
      List (String × ℕ × ℕ × Provider W E)
      → Option Registry × W × List Event
      → Option Registry × W × List Event
  run [] x = x
  run ((name, now, after, provider) ∷ calls) (r, world, es) =
      let (r', world', answer) = registry_execute message r name now after provider world in
      run calls (r', world', embedding_events message name now after answer es)

  execute-IsTracked :
      (c : BreakerConfig) (es : List Event) (b : Breaker) (now after : ℕ) (provider : Provider W E)
      (world : W)
      → IsTracked c es b
      → let x = execute message b now after provider world in
        (x.0.name ≡ b.name) × IsTracked c (call_events message now after x.2 es) x.0
  execute-IsTracked c es b now after provider world t =
      let x = execute message b now after provider world in
      let e = execute-step message b now after provider world in
      (
        ap (λ (z : Breaker). z.name) e ∙ outcome_step-name message now after x.2 b,
        subst (IsTracked c (call_events message now after x.2 es)) (sym e)
            (outcome_step-IsTracked message c es now after x.2 b t),
      )

  unguarded-registry : (r : Option Registry) (x : W × Option E) → (unguarded message r x).0 ≡ r
  unguarded-registry r (world, none) = refl
  unguarded-registry r (world, some e) = refl

  registry_execute-IsGuarded :
      (c : ResilienceConfig) (es : List Event) (b : Breaker) (name : String) (now after : ℕ)
      (provider : Provider W E) (world : W)
      → b.name ≡ "embedding"
      → IsTracked (embedding_config c) es b
      → let x =
          registry_execute message
            (some (record { config = c; breakers = ("embedding", b) ∷ [] }))
            name
            now
            after
            provider
            world in
        IsGuarded c (embedding_events message name now after x.2 es) x.0
  unfolding registry_execute find_breaker lookup insert
  registry_execute-IsGuarded c es b name now after provider world named t =
      let x = execute message b now after provider world in
      elim (Bool-cases ("embedding" == trim_space name)) [
        | inl same ↦
            let (kept, tracked) =
              execute-IsTracked (embedding_config c) es b now after provider world t in
            rw same (
              x.0,
              rw same (
                  ap (λ key. some (record { config = c; breakers = (key, x.0) ∷ [] }))
                    (sym ((eq_iff "embedding" (trim_space name)).0 same))),
              kept ∙ named,
              tracked,
            )
        | inr other ↦ rw other (b, unguarded-registry _ (provider (pos 0) world), named, t)
      ]

  run-IsGuarded :
      (c : ResilienceConfig) (calls : List (String × ℕ × ℕ × Provider W E)) (r : Option Registry)
      (world : W) (es : List Event)
      → IsGuarded c es r
      → let x = run calls (r, world, es) in IsGuarded c x.2 x.0
  run-IsGuarded c [] r world es g = g
  run-IsGuarded c ((name, now, after, provider) ∷ calls) r world es (b, is_r, named, t) = rw is_r (
      run-IsGuarded c calls _ _ _
        (registry_execute-IsGuarded c es b name now after provider world named t))

-- The diagnostics of a registry whose one breaker is that of the embedding: it comes first.
diagnostics-one :
    (c : ResilienceConfig) (b : Breaker)
    → b.name ≡ "embedding"
    → diagnostics (some (record { config = c; breakers = ("embedding", b) ∷ [] }))
      ≡ health b
        ∷ health_of [] "extraction"
        ∷ health_of [] "reranking"
        ∷ health_of [] "summarization"
        ∷ []
unfolding diagnostics
diagnostics-one c b named = rw named refl

health-status :
    (c : BreakerConfig) (es : List Event) (b : Breaker)
    → IsTracked c es b
    → (health b).status ≡ (if ltb 0 (failures es) then degraded else healthy)
unfolding health
health-status c es b t = ground (
  arith,
  t.counted,
  t.shut,
  t.threshold,
  open-not_closed b.state,
  failure_threshold-positive c.failure_threshold,
)

embedding_name : (c : ResilienceConfig) → (new_breaker (embedding_config c)).name ≡ "embedding"
unfolding new_breaker trim_space is_space
embedding_name c = refl

failure_threshold_idem :
    (n : ℤ) → failure_threshold (pos (failure_threshold n)) ≡ failure_threshold n
unfolding failure_threshold
failure_threshold_idem n = ground arith

module _ {W E : Type 0} (message : E → String) where
  -- After any series of calls through the registry of a service with a vector store, whatever the providers
  -- answer, the diagnostics have the four kinds of providers in the order of their names. The embedding, and
  -- only it, has a breaker: it counts the failures of its calls since the last success, is
  -- healthy exactly when there are none, and its circuit is closed exactly when they are fewer than the
  -- threshold. The three others are disabled.
  pub run-diagnostics :
      (c : ResilienceConfig) (calls : List (String × ℕ × ℕ × Provider W E)) (world : W)
      → let x = run message calls (some (new_registry c true), world, []) in
        (h : Health) × (diagnostics x.0
          ≡ h
            ∷ health_of [] "extraction"
            ∷ health_of [] "reranking"
            ∷ health_of [] "summarization"
            ∷ [])
        × (h.name ≡ "embedding")
        × (h.failure_count ≡ failures x.2)
        × (h.status ≡ (if ltb 0 (failures x.2) then degraded else healthy))
        × (is_closed h.circuit_state ≡ ltb (failures x.2) (failure_threshold c.failure_threshold))
  unfolding new_registry health normalize_config
  run-diagnostics c calls world =
      let config = normalize_config c in
      let fresh = new_breaker (embedding_config config) in
      let (b, is_r, named, t) =
        run-IsGuarded message config calls _ world []
          (fresh, refl, embedding_name config, new_breaker-IsTracked (embedding_config config)) in
      let x = run message calls (some (new_registry c true), world, []) in
      let threshold : b.failure_threshold ≡ failure_threshold c.failure_threshold =
        t.threshold ∙ failure_threshold_idem c.failure_threshold in
      (
        health b,
        ap diagnostics is_r ∙ diagnostics-one config b named,
        named,
        t.counted,
        health-status (embedding_config config) _ b t,
        t.shut ∙ ap (ltb (failures x.2)) threshold,
      )
