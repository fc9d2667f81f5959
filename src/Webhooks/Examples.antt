-- ===== src/Webhooks/Examples.antt =====
-- Runs of webhook delivery on concrete data.
use goncho.Prelude.{
  ℕ, suc, ◌*◌, ◌^◌, ◌≡◌, String, Bool, true, false, none, some, List, [], ◌∷◌, arith, All,
}
use goncho.Prelude.Int.{pos}
use goncho.Prelude.Result.{ok}
use goncho.Webhooks.Events.{Codec}
use goncho.Webhooks.Delivery.{
  Endpoint, Store, HttpClient, Worker, Request, backoff, default_backoff,
}
use goncho.Webhooks.Delivery.Retry.{IsSound}
use goncho.Webhooks.Delivery.Backoff.{backoff_default}
use goncho.Webhooks.Worker.{Round, deliver}
use goncho.Webhooks.Worker.Order.{deliver-IsSound}

abbrev codec : Codec String
codec = record {
  text = λ s. s;
  encode = λ kind entries now. some "{}";
  hmac_sha256_hex = λ secret body. "00";
  parse_url = λ raw. none;
  url_string = λ u. u.scheme;
}

-- The external state counts the posts; every post is answered with 503.
abbrev store : Store ℕ String
store = record {
  list_endpoints = λ workspace n. (n, ok []);
  record_delivery = λ a n. (n, none);
  disable_endpoint = λ e reason now n. (n, none);
}

abbrev busy_client : HttpClient ℕ String
busy_client = record { post_webhook = λ request n. (suc n, ok 503) }

abbrev endpoint_of : String → Bool → Endpoint
endpoint_of id off = record {
  id = id;
  workspace_id = "";
  url = "https://example.org/hook";
  disabled = off;
  disabled_reason = "off";
}

abbrev test_round : Round ℕ String
test_round = record {
  store = store;
  client = busy_client;
  wait = none;
  now = pos 0;
  workspace_id = "w";
  event_type = "test.event";
  attempt = 1;
  max = 3;
  body = "{}";
  signature = "00";
}

abbrev test_worker : Worker ℕ String
test_worker = record {
  store = some store;
  client = some busy_client;
  now = pos 0;
  secret = "s";
  max_attempts = pos 0;
  backoff = none;
}

abbrev test_request : Request String
test_request = record {
  workspace_id = " w ";
  event = record { type = "test.event"; workspace_id = "w"; payload = none };
  attempt = pos 1;
}

backoff_default_example : backoff none 3 ≡ pos (default_backoff * 2 ^ 2)
backoff_default_example = backoff_default 3 (omega arith) (omega arith)

deliver-IsSound_example : All (IsSound 3) (deliver codec test_worker test_request 0).1
deliver-IsSound_example = deliver-IsSound codec test_worker test_request 0

abbrev pair : List Endpoint
pair = endpoint_of "a" false ∷ endpoint_of "b" true ∷ []
