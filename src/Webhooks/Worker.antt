-- ===== src/Webhooks/Worker.antt =====
-- internal/webhooks/delivery/delivery.go: `Deliver`, the loop over the endpoints and the calls of the
-- store.
pub mod Order
use goncho.Prelude.{
  ℕ, zero, suc, String, Bool, true, false, Option, none, some, List, [], ◌∷◌, ◌++◌, ◌==◌,
  if◌then◌else◌,
}
use goncho.Prelude.Int.{ℤ}
use goncho.Prelude.Result.{Result, ok, err}
use goncho.Webhooks.Events.{Codec, Event, EventError, resolve, payload, sign_payload}
use goncho.Webhooks.Delivery.{
  failed, endpoint_disabled, skipped, no_error, signing, disabled_endpoint, Endpoint, HttpRequest,
  Message, text, of_event, DeliveryResult, Store, HttpClient, Worker, Request, DeliverError,
  workspace_required, store_required, client_required, event_error, list_failed, record_failed,
  disable_failed, default_max_attempts, or_default, is_failed, make_result, classify, attempt_of,
  failure_disable_reason,
}

-- What one round of the loop over the endpoints is given.
pub record Round (W E : Type 0) : Type 0 where
  pub store : Store W E
  pub client : HttpClient W E
  pub wait : Option (ℕ → ℤ)
  pub now : ℤ
  pub workspace_id : String
  pub event_type : String
  pub attempt : ℕ
  pub max : ℕ
  pub body : String
  pub signature : String

abbrev pub no_endpoint : String → Endpoint
no_endpoint workspace_id = record {
  id = "";
  workspace_id = workspace_id;
  url = "";
  disabled = false;
  disabled_reason = "";
}

module _ {E : Type 0} where
  abbrev pub record_error : Option E → Option (DeliverError E)
  record_error none = none
  record_error (some e) = some (record_failed e)

  abbrev disable_error : Option E → Option (DeliverError E)
  disable_error none = none
  disable_error (some e) = some (disable_failed e)

module _ {J W E : Type 0} (c : Codec J) where
  -- After a result was recorded: a failed endpoint is disabled.
  unfoldable disable_failed_endpoint :
      Round W E → Endpoint → DeliveryResult E → Option E → W → W × Option (DeliverError E)
  unfolding failure_disable_reason
  disable_failed_endpoint g endpoint r (some e) world = (world, some (record_failed e))
  disable_failed_endpoint g endpoint r none world =
      let (world', refused) =
        g.store.disable_endpoint endpoint (failure_disable_reason r) g.now world in
      if is_failed r.status then (world', disable_error refused) else (world, none)

  -- The endpoint with the workspace filled in.
  abbrev pub in_workspace : Round W E → Endpoint → Endpoint
  in_workspace g endpoint =
      if endpoint.workspace_id == ""
      then record endpoint { workspace_id = g.workspace_id }
      else endpoint

  -- A disabled endpoint is recorded as such, and is not posted to.
  unfoldable pub skip_disabled :
      Round W E → Endpoint → W → W × DeliveryResult E × Option (DeliverError E)
  unfolding make_result
  skip_disabled g endpoint world =
      let r : DeliveryResult E =
        make_result c endpoint g.event_type g.attempt endpoint_disabled 0 disabled_endpoint
          (text endpoint.disabled_reason) false none in
      let (world', refused) = g.store.record_delivery (attempt_of c r g.now) world in
      (world', r, record_error refused)

  unfoldable pub post_to : Round W E → Endpoint → W → W × DeliveryResult E × Option (DeliverError E)
  unfolding classify disable_failed_endpoint
  post_to g endpoint world =
      let request : HttpRequest = record {
        url = endpoint.url;
        body = g.body;
        signature = g.signature;
      } in
      let (world₁, response) = g.client.post_webhook request world in
      let r = classify c g.wait g.now endpoint g.event_type g.attempt g.max response in
      let (world₂, refused) = g.store.record_delivery (attempt_of c r g.now) world₁ in
      let (world₃, error) = disable_failed_endpoint g endpoint r refused world₂ in
      (world₃, r, error)

  -- The body of the loop of `Deliver`.
  unfoldable pub deliver_one :
      Round W E → Endpoint → W → W × DeliveryResult E × Option (DeliverError E)
  unfolding skip_disabled post_to
  deliver_one g endpoint world =
      if endpoint.disabled
      then skip_disabled g (in_workspace g endpoint) world
      else post_to g (in_workspace g endpoint) world

  abbrev pub stop_on :
      Option (DeliverError E)
      → W × List (DeliveryResult E) × Option (DeliverError E)
      → W × List (DeliveryResult E) × Option (DeliverError E)
      → W × List (DeliveryResult E) × Option (DeliverError E)
  stop_on none stopped going = going
  stop_on (some e) stopped going = stopped

  -- The loop: an error of the store ends it, with the results so far.
  unfoldable pub deliver_loop :
      Round W E
      → List Endpoint
      → List (DeliveryResult E)
      → W
      → W × List (DeliveryResult E) × Option (DeliverError E)
  deliver_loop g [] results world = (world, results, none)
  deliver_loop g (endpoint ∷ rest) results world =
      let (world', r, error) = deliver_one g endpoint world in
      let going = deliver_loop g rest (results ++ r ∷ []) world' in
      stop_on error (world', results ++ r ∷ [], error) going

  -- Worker.recordSingle
  unfoldable pub record_single :
      Store W E → DeliveryResult E → ℤ → W → W × List (DeliveryResult E) × Option (DeliverError E)
  record_single store r now world =
      let (world', refused) = store.record_delivery (attempt_of c r now) world in
      (world', r ∷ [], record_error refused)

  -- `Deliver` once the body is rendered and signed.
  unfoldable pub deliver_signed :
      Round W E
      → Result EventError String
      → List Endpoint
      → W
      → W × List (DeliveryResult E) × Option (DeliverError E)
  unfolding record_single deliver_loop make_result
  deliver_signed g (err e) endpoints world =
      record_single g.store
        (make_result c (no_endpoint g.workspace_id) g.event_type g.attempt failed 0 signing
          (of_event e) false none)
        g.now world
  deliver_signed g (ok signature) endpoints world =
      deliver_loop (record g { signature = signature }) endpoints [] world

  unfoldable pub deliver_payload :
      Round W E
      → String
      → Result EventError String
      → List Endpoint
      → W
      → W × List (DeliveryResult E) × Option (DeliverError E)
  unfolding deliver_signed sign_payload
  deliver_payload g secret (err e) endpoints world = (world, [], some (event_error e))
  deliver_payload g secret (ok body) endpoints world =
      deliver_signed (record g { body = body }) (sign_payload c body secret) endpoints world

  -- `Deliver` on what the store has listed.
  unfoldable pub deliver_to :
      Round W E
      → String
      → Event J
      → Result E (List Endpoint)
      → W
      → W × List (DeliveryResult E) × Option (DeliverError E)
  unfolding record_single deliver_payload payload make_result
  deliver_to g secret event (err e) world = (world, [], some (list_failed e))
  deliver_to g secret event (ok []) world =
      record_single g.store
        (make_result c (no_endpoint g.workspace_id) g.event_type g.attempt skipped 0 no_error
          (text "no webhook endpoints") false none)
        g.now world
  deliver_to g secret event (ok (e ∷ es)) world =
      deliver_payload g secret (payload c event g.now) (e ∷ es) world

  unfoldable pub deliver_with :
      Option (Store W E)
      → Option (HttpClient W E)
      → Worker W E
      → Request J
      → String
      → W
      → W × List (DeliveryResult E) × Option (DeliverError E)
  unfolding deliver_to
  deliver_with none client w req workspace_id world = (world, [], some store_required)
  deliver_with (some s) none w req workspace_id world = (world, [], some client_required)
  deliver_with (some s) (some h) w req workspace_id world =
      let g : Round W E = record {
        store = s;
        client = h;
        wait = w.backoff;
        now = w.now;
        workspace_id = workspace_id;
        event_type = req.event.type;
        attempt = or_default req.attempt 1;
        max = or_default w.max_attempts default_max_attempts;
        body = "";
        signature = "";
      } in
      let (world', listed) = s.list_endpoints workspace_id world in
      deliver_to g w.secret req.event listed world'

  -- Worker.Deliver
  unfoldable pub deliver :
      Worker W E → Request J → W → W × List (DeliveryResult E) × Option (DeliverError E)
  unfolding resolve deliver_with
  deliver w req world =
      let workspace_id = resolve req.workspace_id req.event.workspace_id in
      if workspace_id == ""
      then (world, [], some workspace_required)
      else deliver_with w.store w.client w req workspace_id world
