-- ===== src/Webhooks/Delivery.antt =====
-- internal/webhooks/delivery/delivery.go: one round of deliveries of an event to the endpoints of a
-- workspace. The store and the HTTP client are interfaces of the source, on an external state `W`
-- with errors of a type `E`. `Worker` has the loop of `Deliver`. Times are nanoseconds; a duration is an `int64`, so doubling wraps.
pub mod Retry
pub mod Backoff
use goncho.Prelude.{
  ℕ, zero, suc, ◌+◌, ◌-◌, ◌*◌, ◌%◌, ◌^◌, String, Bool, true, false, ◌||◌, ◌&&◌, Option, none, some,
  List, [], ◌∷◌, ◌++◌, ◌==◌, ltb, leb, eqb, if◌then◌else◌,
}
use goncho.Prelude.Int.{ℤ, pos, pos_part, sub_ℕ, ◌+ℤ◌, not_positive}
use goncho.Prelude.Result.{Result, ok, err}
use goncho.Webhooks.Events.{Codec, Event, EventError, redact_endpoint}

pub data Status : Type 0 where
  delivered retryable failed endpoint_disabled skipped : Status

pub data ErrorClass : Type 0 where
  no_error http_status network signing store disabled_endpoint : ErrorClass

pub record Endpoint : Type 0 where
  pub id : String
  pub workspace_id : String
  pub url : String
  pub disabled : Bool
  pub disabled_reason : String

pub record HttpRequest : Type 0 where
  pub url : String
  pub body : String
  pub signature : String

-- `message` is the text of an error, or `status <code>`.
pub data Message (E : Type 0) : Type 0 where
  text : String → Message E
  of_error : E → Message E
  of_event : EventError → Message E
  status_text : ℕ → Message E

pub record Evidence : Type 0 where
  pub endpoint_id : String
  pub endpoint_url : String
  pub workspace_id : String
  pub event_type : String
  pub status : Status
  pub status_code : ℕ
  pub error_class : ErrorClass
  pub attempt : ℕ
  pub next_retry_at : Option ℤ

pub record DeliveryResult (E : Type 0) : Type 0 where
  pub endpoint_id : String
  pub workspace_id : String
  pub event_type : String
  pub attempt : ℕ
  pub status : Status
  pub status_code : ℕ
  pub error_class : ErrorClass
  pub error : Message E
  pub retry : Bool
  pub next_retry_at : Option ℤ
  pub evidence : Evidence

pub record Attempt (E : Type 0) : Type 0 where
  pub endpoint_id : String
  pub workspace_id : String
  pub event_type : String
  pub attempt : ℕ
  pub status : Status
  pub status_code : ℕ
  pub error_class : ErrorClass
  pub error : Message E
  pub retry : Bool
  pub next_retry_at : Option ℤ
  pub evidence : Evidence
  pub recorded_at : ℤ

pub record Store (W E : Type 0) : Type 0 where
  pub list_endpoints : String → W → W × Result E (List Endpoint)
  pub record_delivery : Attempt E → W → W × Option E
  pub disable_endpoint : Endpoint → String → ℤ → W → W × Option E

-- A response is its status code, which HTTP keeps nonnegative.
pub record HttpClient (W E : Type 0) : Type 0 where
  pub post_webhook : HttpRequest → W → W × Result E ℕ

pub record Worker (W E : Type 0) : Type 0 where
  pub store : Option (Store W E)
  pub client : Option (HttpClient W E)
  pub now : ℤ
  pub secret : String
  pub max_attempts : ℤ
  pub backoff : Option (ℕ → ℤ)

pub record Request (J : Type 0) : Type 0 where
  pub workspace_id : String
  pub event : Event J
  pub attempt : ℤ

pub data DeliverError (E : Type 0) : Type 0 where
  workspace_required store_required client_required : DeliverError E
  event_error : EventError → DeliverError E
  list_failed record_failed disable_failed : E → DeliverError E

abbrev pub default_max_attempts : ℕ
default_max_attempts = 3

-- 30 seconds
abbrev pub default_backoff : ℕ
default_backoff = 30000000000

-- The `int64` with the given 64 bits.
abbrev pub int64 : ℕ → ℤ
int64 bits = if ltb bits (2 ^ 63) then pos bits else sub_ℕ bits (2 ^ 64)

-- The loop of `backoff`: `delay *= 2`, a number of times, on the bits of the delay.
unfoldable pub doubled : ℕ → ℕ → ℕ
doubled zero bits = bits
doubled (suc k) bits = doubled k (bits * 2 % 2 ^ 64)

unfoldable pub backoff : Option (ℕ → ℤ) → ℕ → ℤ
unfolding doubled
backoff (some f) attempt = f attempt
backoff none attempt = int64 (doubled (attempt - 1) default_backoff)

unfoldable pub retryable_status : ℕ → Bool
retryable_status code = eqb code 408 || eqb code 429 || leb 500 code

abbrev is_network : ErrorClass → Bool
is_network network = true
is_network _ = false

unfoldable pub failure_disable_reason : {E : Type 0} → DeliveryResult E → String
unfolding retryable_status
failure_disable_reason r =
    if ltb 0 r.attempt && is_network r.error_class
    then "max_attempts_exhausted"
    else if retryable_status r.status_code
    then "max_attempts_exhausted"
    else "permanent_failure"

-- `attempt <= 0` and `MaxAttempts <= 0` fall back to a default.
abbrev pub or_default : ℤ → ℕ → ℕ
or_default n d = if not_positive n then d else pos_part n

abbrev pub is_failed : Status → Bool
is_failed failed = true
is_failed _ = false

module _ {J : Type 0} (c : Codec J) {E : Type 0} where
  -- Worker.result
  unfoldable pub make_result :
      Endpoint
      → String
      → ℕ
      → Status
      → ℕ
      → ErrorClass
      → Message E
      → Bool
      → Option ℤ
      → DeliveryResult E
  make_result endpoint event_type attempt status code class message retry next = record {
    endpoint_id = endpoint.id;
    workspace_id = endpoint.workspace_id;
    event_type = event_type;
    attempt = attempt;
    status = status;
    status_code = code;
    error_class = class;
    error = message;
    retry = retry;
    next_retry_at = next;
    evidence = record {
      endpoint_id = endpoint.id;
      endpoint_url = redact_endpoint c endpoint.url;
      workspace_id = endpoint.workspace_id;
      event_type = event_type;
      status = status;
      status_code = code;
      error_class = class;
      attempt = attempt;
      next_retry_at = next;
    };
  }

  unfoldable pub failure_or_retry :
      Option (ℕ → ℤ) → ℤ → Endpoint → String → ℕ → ℕ → ℕ → ErrorClass → Message E → DeliveryResult E
  unfolding make_result
  failure_or_retry wait now endpoint event_type attempt max code class message =
      if leb max attempt
      then make_result endpoint event_type attempt failed code class message false none
      else make_result endpoint event_type attempt retryable code class message true
          (some (now +ℤ backoff wait attempt))

  unfoldable pub classify :
      Option (ℕ → ℤ) → ℤ → Endpoint → String → ℕ → ℕ → Result E ℕ → DeliveryResult E
  unfolding failure_or_retry retryable_status
  classify wait now endpoint event_type attempt max (err e) =
      failure_or_retry wait now endpoint event_type attempt max 0 network (of_error e)
  classify wait now endpoint event_type attempt max (ok code) =
      if leb 200 code && ltb code 300
      then make_result endpoint event_type attempt delivered code no_error (text "") false none
      else if retryable_status code
      then failure_or_retry wait now endpoint event_type attempt max code http_status
          (status_text code)
      else make_result endpoint event_type attempt failed code http_status (status_text code) false
          none

  abbrev pub attempt_of : DeliveryResult E → ℤ → Attempt E
  attempt_of r now = record {
    endpoint_id = r.endpoint_id;
    workspace_id = r.workspace_id;
    event_type = r.event_type;
    attempt = r.attempt;
    status = r.status;
    status_code = r.status_code;
    error_class = r.error_class;
    error = r.error;
    retry = r.retry;
    next_retry_at = r.next_retry_at;
    evidence = r.evidence;
    recorded_at = now;
  }
