-- ===== src/Webhooks/Events.antt =====
-- internal/webhooks/workspace/workspace.go, internal/webhooks/events/events.go,
-- internal/webhooks/signing/signing.go and `RedactEndpoint` of internal/webhooks/urlpolicy/urlpolicy.go.
-- JSON encoding, HMAC and URL parsing of Go's library are operations of the parameter `Codec`.
use goncho.Prelude.{String, Bool, not, ◌||◌, Option, none, some, [], ◌∷◌, ◌++◌, ◌==◌, if◌then◌else◌}
use goncho.Prelude.Dict.{Dict}
use goncho.Prelude.Int.{ℤ}
use goncho.Prelude.Text.{trim_space}
use goncho.Prelude.Result.{Result, ok, err}

-- The parts of a parsed URL that the redaction reads or writes; `rest` is what it leaves alone.
pub record Url : Type 0 where
  pub scheme : String
  pub host : String
  pub user : Option String
  pub rest : String
  pub raw_query : String
  pub force_query : Bool
  pub fragment : String

-- `J` is the type of JSON values. `encode` is `json.Encoder.Encode` on the payload with the given
-- type, data and timestamp, less its last newline; `none` is an encoding error.
pub record Codec (J : Type 0) : Type 0 where
  pub text : String → J
  pub encode : String → Option (Dict J) → ℤ → Option String
  pub hmac_sha256_hex : String → String → String
  pub parse_url : String → Option Url
  pub url_string : Url → String

pub record Event (J : Type 0) : Type 0 where
  pub type : String
  pub workspace_id : String
  pub payload : Option (Dict J)

pub data EventError : Type 0 where
  workspace_required type_required encode_failed secret_missing : EventError

-- workspace.Resolve
unfoldable pub resolve : String → String → String
resolve workspace_id fallback =
    let trimmed = trim_space workspace_id in if trimmed == "" then trim_space fallback else trimmed

pub record QueueEmptyParams : Type 0 where
  pub workspace_id : String
  pub queue_type : String
  pub session_id : String
  pub observer : String
  pub observed : String

module _ {J : Type 0} (c : Codec J) where
  unfoldable new_test : String → Result EventError (Event J)
  new_test workspace_id =
      let trimmed = trim_space workspace_id in
      if trimmed == ""
      then err workspace_required
      else ok (record {
        type = "test.event";
        workspace_id = trimmed;
        payload = some (("workspace_id", c.text trimmed) ∷ []);
      })

  -- An entry of the data, unless its text is blank.
  unfoldable optional_entry : String → String → Dict J
  optional_entry key raw =
      let trimmed = trim_space raw in if trimmed == "" then [] else (key, c.text trimmed) ∷ []

  unfoldable new_queue_empty : QueueEmptyParams → Result EventError (Event J)
  unfolding optional_entry
  new_queue_empty p =
      let trimmed = trim_space p.workspace_id in
      let queue_type = trim_space p.queue_type in
      let kind = if queue_type == "" then "default" else queue_type in
      if trimmed == ""
      then err workspace_required
      else ok (record {
        type = "queue.empty";
        workspace_id = trimmed;
        payload = some (
            ("workspace_id", c.text trimmed)
            ∷ ("queue_type", c.text kind)
            ∷ (optional_entry "session_id" p.session_id
                ++ (optional_entry "observer" p.observer ++ optional_entry "observed" p.observed)));
      })

  abbrev encoded : Option String → Result EventError String
  encoded none = err encode_failed
  encoded (some body) = ok body

  -- `Payload`. The source compares `payload["data"]` with nil after it has stored a typed map there;
  -- an interface that holds a nil map is not nil, so the data goes to the encoder as it is.
  unfoldable pub payload : Event J → ℤ → Result EventError String
  payload e now =
      if trim_space e.workspace_id == ""
      then err workspace_required
      else if e.type == ""
      then err type_required
      else encoded (c.encode e.type e.payload now)

  unfoldable pub sign_payload : String → String → Result EventError String
  sign_payload body secret =
      if trim_space secret == "" then err secret_missing else ok (c.hmac_sha256_hex secret body)

  -- The URL that is rendered when the text parses.
  unfoldable redacted : Url → Url
  redacted u = record u {
    user = none;
    raw_query = if not (u.raw_query == "") || u.force_query then "<redacted>" else u.raw_query;
    fragment = "";
  }

  unfoldable redact_parsed : Option Url → String
  unfolding redacted
  redact_parsed none = "<redacted>"
  redact_parsed (some u) =
      if u.scheme == "" || u.host == "" then "<redacted>" else c.url_string (redacted u)

  unfoldable pub redact_endpoint : String → String
  unfolding redact_parsed
  redact_endpoint raw = if trim_space raw == "" then "" else redact_parsed (c.parse_url raw)
