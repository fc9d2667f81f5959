-- ===== src/Webhooks/Delivery/Retry.antt =====
-- What `classify` makes of a response: the status, the retry time, and why an endpoint is disabled.
use goncho.Prelude.{
  ℕ, ◌≤◌, ◌<◌, ◌≡◌, ◌≢◌, ◌↔◌, ◌⊎◌, inl, inr, refl, String, true, false, Option, none, some, ltb,
  leb, arith, Bool-cases, ◌&&◌,
}
use goncho.Prelude.Int.{ℤ, ◌+ℤ◌}
use goncho.Prelude.Result.{Result, ok, err}
use goncho.Webhooks.Events.{Codec}
use goncho.Webhooks.Delivery.{
  Status, delivered, retryable, failed, ErrorClass, Endpoint, Message, DeliveryResult, make_result,
  failure_or_retry, classify, retryable_status, failure_disable_reason, backoff,
}

-- The HTTP codes that a later attempt may change.
abbrev IsTransientCode : ℕ → Type 0
IsTransientCode code = (code ≡ 408) ⊎ (code ≡ 429) ⊎ (500 ≤ code)

abbrev IsTransient : {E : Type 0} → Result E ℕ → Type 0
IsTransient (err e) = Unit
IsTransient (ok code) = IsTransientCode code

abbrev IsSuccess : {E : Type 0} → Result E ℕ → Type 0
IsSuccess (err e) = ⊥
IsSuccess (ok code) = (200 ≤ code) × (code < 300)

-- A result that schedules a retry exactly when its status says so, below the limit of attempts, and
-- whose evidence repeats it.
pub record IsSound {E : Type 0} (max : ℕ) (r : DeliveryResult E) : Type 0 where
  pub retry_iff : (r.retry ≡ true) ↔ (r.status ≡ retryable)
  pub due : r.status ≡ retryable → (r.attempt < max) × ((t : ℤ) × (r.next_retry_at ≡ some t))
  pub settled : r.status ≢ retryable → r.next_retry_at ≡ none
  pub mirrored :
      (r.evidence.endpoint_id ≡ r.endpoint_id)
      × (r.evidence.workspace_id ≡ r.workspace_id)
      × (r.evidence.event_type ≡ r.event_type)
      × (r.evidence.attempt ≡ r.attempt)
      × (r.evidence.status ≡ r.status)
      × (r.evidence.status_code ≡ r.status_code)
      × (r.evidence.error_class ≡ r.error_class)
      × (r.evidence.next_retry_at ≡ r.next_retry_at)

module _ {J : Type 0} (c : Codec J) {E : Type 0} where
  -- A result with no retry is sound.
  pub make_result-IsSound :
      (endpoint : Endpoint) (event_type : String) (attempt : ℕ) (status : Status) (code : ℕ)
      (class : ErrorClass) (message : Message E) (max : ℕ)
      → status ≢ retryable
      → IsSound max (make_result c endpoint event_type attempt status code class message false none)
  unfolding make_result
  make_result-IsSound endpoint event_type attempt status code class message max h = record {
    retry_iff = (λ e. cc, λ e. absurd (h e));
    due = λ e. absurd (h e);
    settled = λ e. refl;
    mirrored = (refl, refl, refl, refl, refl, refl, refl, refl);
  }

  failure_or_retry-IsSound :
      (wait : Option (ℕ → ℤ)) (now : ℤ) (endpoint : Endpoint) (event_type : String)
      (attempt max code : ℕ) (class : ErrorClass) (message : Message E)
      → IsSound max (failure_or_retry c wait now endpoint event_type attempt max code class message)
  unfolding failure_or_retry
  failure_or_retry-IsSound wait now endpoint event_type attempt max code class message =
      elim (Bool-cases (leb max attempt)) [
        | inl e ↦ rw e (
            make_result-IsSound endpoint event_type attempt failed code class message max (λ p. cc))
        | inr e ↦ rw e (record {
          retry_iff = (λ p. refl, λ p. refl);
          due = λ p. (ground arith, (now +ℤ backoff wait attempt, refl));
          settled = λ p. absurd (p refl);
          mirrored = (refl, refl, refl, refl, refl, refl, refl, refl);
        })
      ]

  pub classify-IsSound :
      (wait : Option (ℕ → ℤ)) (now : ℤ) (endpoint : Endpoint) (event_type : String)
      (attempt max : ℕ) (response : Result E ℕ)
      → IsSound max (classify c wait now endpoint event_type attempt max response)
  unfolding classify
  classify-IsSound wait now endpoint event_type attempt max (err e) =
      failure_or_retry-IsSound wait now endpoint event_type attempt max 0 ErrorClass.network
        (Message.of_error e)
  classify-IsSound wait now endpoint event_type attempt max (ok code) =
      elim (Bool-cases (leb 200 code && ltb code 300)) [
        | inl e ↦ rw e (
            make_result-IsSound endpoint event_type attempt delivered code ErrorClass.no_error
              (Message.text "") max (λ p. cc))
        | inr e ↦ elim (Bool-cases (retryable_status code)) [
          | inl q ↦
              rw (e, q)
                (failure_or_retry-IsSound wait now endpoint event_type attempt max code
                  ErrorClass.http_status (Message.status_text code))
          | inr q ↦
              rw (e, q)
                (make_result-IsSound endpoint event_type attempt failed code ErrorClass.http_status
                  (Message.status_text code) max (λ p. cc))
        ]
      ]

  -- A response is delivered exactly when its code is 2xx; it is retryable exactly when the post
  -- failed or the code is 408, 429 or 5xx and above, and the attempt is below the limit; in every
  -- other case it has failed.
  classify_status :
      (wait : Option (ℕ → ℤ)) (now : ℤ) (endpoint : Endpoint) (event_type : String)
      (attempt max : ℕ) (response : Result E ℕ)
      → let r = classify c wait now endpoint event_type attempt max response in
        ((r.status ≡ delivered) ↔ IsSuccess response)
        × ((r.status ≡ retryable) ↔ (IsTransient response × (attempt < max)))
        × ((r.status ≡ delivered) ⊎ (r.status ≡ retryable) ⊎ (r.status ≡ failed))
  unfolding classify
  classify_status wait now endpoint event_type attempt max (err e) = ground arith
  classify_status wait now endpoint event_type attempt max (ok code) = ground arith

  -- An endpoint whose delivery failed, on an attempt counted from 1, is disabled as exhausted if the
  -- response was one that a retry could change, and as a permanent failure if it was not.
  classify_reason :
      (wait : Option (ℕ → ℤ)) (now : ℤ) (endpoint : Endpoint) (event_type : String)
      (attempt max : ℕ) (response : Result E ℕ)
      → 0 < attempt
      → (classify c wait now endpoint event_type attempt max response).status ≡ failed
      → let r = classify c wait now endpoint event_type attempt max response in
        ((failure_disable_reason r ≡ "max_attempts_exhausted")
          × IsTransient response
          × (max ≤ attempt))
        ⊎ ((failure_disable_reason r ≡ "permanent_failure") × ¬ IsTransient response)
  unfolding classify failure_disable_reason
  classify_reason wait now endpoint event_type attempt max (err e) h bad = ground arith
  classify_reason wait now endpoint event_type attempt max (ok code) h bad = ground arith

  pub id-classify :
      (wait : Option (ℕ → ℤ)) (now : ℤ) (endpoint : Endpoint) (event_type : String)
      (attempt max : ℕ) (response : Result E ℕ)
      → (classify c wait now endpoint event_type attempt max response).endpoint_id ≡ endpoint.id
  unfolding classify
  id-classify wait now endpoint event_type attempt max (err e) = ground arith
  id-classify wait now endpoint event_type attempt max (ok code) = ground arith
