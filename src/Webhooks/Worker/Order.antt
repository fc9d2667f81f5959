-- ===== src/Webhooks/Worker/Order.antt =====
-- What `Deliver` returns: one result for each endpoint, in order, each of them sound, and no post to
-- a disabled endpoint.
use goncho.Prelude.{
  ℕ, ◌≡◌, refl, sym, ap, ◌∙◌, String, false, Option, none, some, List, [], ◌∷◌, ◌++◌, map, arith,
  if_intro, if_true, if_false, Bool-cases, Option-cases, inl, inr, All, ◌==◌,
}
use mathlib.Core.List.{append-nil, append_assoc, map-append}
use goncho.Prelude.Result.{Result, ok, err}
use goncho.Webhooks.Events.{Codec, Event, EventError, resolve, payload, sign_payload}
use goncho.Webhooks.Delivery.{
  Status, ErrorClass, Endpoint, HttpRequest, Message, DeliveryResult, Store, HttpClient, Worker,
  Request, DeliverError, or_default, default_max_attempts,
}
use goncho.Webhooks.Delivery.Retry.{IsSound, make_result-IsSound, classify-IsSound, id-classify}
use goncho.Webhooks.Worker.{
  Round, no_endpoint, in_workspace, skip_disabled, post_to, deliver_one, stop_on, deliver_loop,
  record_single, deliver_signed, deliver_payload, deliver_to, deliver_with, deliver,
}

All-snoc :
    {E : Type 0} (max : ℕ) (rs : List (DeliveryResult E)) (r : DeliveryResult E)
    → All (IsSound max) rs
    → IsSound max r
    → All (IsSound max) (rs ++ r ∷ [])
All-snoc max [] r hs h = (h, tt)
All-snoc max (x ∷ rs) r hs h = (hs.0, All-snoc max rs r hs.1 h)

module _ {J W E : Type 0} (c : Codec J) where
  skip_disabled-IsSound :
      (g : Round W E) (endpoint : Endpoint) (world : W)
      → IsSound g.max (skip_disabled c g endpoint world).1
  unfolding skip_disabled
  skip_disabled-IsSound g endpoint world =
      make_result-IsSound c endpoint g.event_type g.attempt Status.endpoint_disabled 0
        ErrorClass.disabled_endpoint (Message.text endpoint.disabled_reason) g.max (λ p. cc)

  post_to-IsSound :
      (g : Round W E) (endpoint : Endpoint) (world : W)
      → IsSound g.max (post_to c g endpoint world).1
  unfolding post_to
  post_to-IsSound g endpoint world =
      classify-IsSound c g.wait g.now endpoint g.event_type g.attempt g.max
        (g.client.post_webhook
          (record { url = endpoint.url; body = g.body; signature = g.signature }) world).1

  deliver_one-IsSound :
      (g : Round W E) (endpoint : Endpoint) (world : W)
      → IsSound g.max (deliver_one c g endpoint world).1
  unfolding deliver_one
  deliver_one-IsSound g endpoint world =
      let e = in_workspace c g endpoint in
      if_intro (λ (x : W × DeliveryResult E × Option (DeliverError E)). IsSound g.max x.1)
        endpoint.disabled (skip_disabled c g e world) (post_to c g e world)
        (skip_disabled-IsSound g e world) (post_to-IsSound g e world)

  deliver_loop-IsSound :
      (g : Round W E) (es : List Endpoint) (rs : List (DeliveryResult E)) (world : W)
      → All (IsSound g.max) rs
      → All (IsSound g.max) (deliver_loop c g es rs world).1
  unfolding deliver_loop
  deliver_loop-IsSound g [] rs world h = h
  deliver_loop-IsSound g (e ∷ es) rs world h =
      let (world', r, error) = deliver_one c g e world in
      let h' = All-snoc g.max rs r h (deliver_one-IsSound g e world) in
      elim (Option-cases error) [
        | inl go ↦ rw go (deliver_loop-IsSound g es (rs ++ r ∷ []) world' h')
        | inr (x, stop) ↦ rw stop h'
      ]

  deliver_signed-IsSound :
      (g : Round W E) (signature : Result EventError String) (es : List Endpoint) (world : W)
      → All (IsSound g.max) (deliver_signed c g signature es world).1
  unfolding deliver_signed record_single
  deliver_signed-IsSound g (err e) es world = (
    make_result-IsSound c (no_endpoint g.workspace_id) g.event_type g.attempt Status.failed 0
        ErrorClass.signing (Message.of_event e) g.max (λ p. cc),
    tt,
  )
  deliver_signed-IsSound g (ok signature) es world =
      deliver_loop-IsSound (record g { signature = signature }) es [] world tt

  deliver_payload-IsSound :
      (g : Round W E) (secret : String) (body : Result EventError String) (es : List Endpoint)
      (world : W)
      → All (IsSound g.max) (deliver_payload c g secret body es world).1
  unfolding deliver_payload
  deliver_payload-IsSound g secret (err e) es world = tt
  deliver_payload-IsSound g secret (ok body) es world =
      deliver_signed-IsSound (record g { body = body }) (sign_payload c body secret) es world

  deliver_to-IsSound :
      (g : Round W E) (secret : String) (event : Event J) (listed : Result E (List Endpoint))
      (world : W)
      → All (IsSound g.max) (deliver_to c g secret event listed world).1
  unfolding deliver_to record_single
  deliver_to-IsSound g secret event (err e) world = tt
  deliver_to-IsSound g secret event (ok []) world = (
    make_result-IsSound c (no_endpoint g.workspace_id) g.event_type g.attempt Status.skipped 0
        ErrorClass.no_error (Message.text "no webhook endpoints") g.max (λ p. cc),
    tt,
  )
  deliver_to-IsSound g secret event (ok (e ∷ es)) world =
      deliver_payload-IsSound g secret (payload c event g.now) (e ∷ es) world

  deliver_with-IsSound :
      (store : Option (Store W E)) (client : Option (HttpClient W E)) (w : Worker W E)
      (req : Request J) (workspace_id : String) (world : W)
      → All
          (IsSound (or_default w.max_attempts default_max_attempts))
          (deliver_with c store client w req workspace_id world).1
  unfolding deliver_with
  deliver_with-IsSound none client w req workspace_id world = tt
  deliver_with-IsSound (some s) none w req workspace_id world = tt
  deliver_with-IsSound (some s) (some h) w req workspace_id world =
      deliver_to-IsSound
        (record {
          store = s;
          client = h;
          wait = w.backoff;
          now = w.now;
          workspace_id = workspace_id;
          event_type = req.event.type;
          attempt = or_default req.attempt 1;
          max = or_default w.max_attempts default_max_attempts;
          body = "";
          signature = "";
        })
        w.secret req.event (s.list_endpoints workspace_id world).1
        (s.list_endpoints workspace_id world).0

  -- Every result that `Deliver` returns, with or without an error, is sound for the worker's limit of
  -- attempts: it asks for a retry exactly when its status is `retryable`, only below the limit and
  -- with a time, any other status has no retry time, and its evidence repeats it.
  pub deliver-IsSound :
      (w : Worker W E) (req : Request J) (world : W)
      → All (IsSound (or_default w.max_attempts default_max_attempts)) (deliver c w req world).1
  unfolding deliver
  deliver-IsSound w req world =
      let workspace_id = resolve req.workspace_id req.event.workspace_id in
      if_intro
        (λ (x : W × List (DeliveryResult E) × Option (DeliverError E)).
          All (IsSound (or_default w.max_attempts default_max_attempts)) x.1)
        (workspace_id == "") (world, [], some DeliverError.workspace_required)
        (deliver_with c w.store w.client w req workspace_id world) tt
        (deliver_with-IsSound w.store w.client w req workspace_id world)

  id-in_workspace : (g : Round W E) (e : Endpoint) → (in_workspace c g e).id ≡ e.id
  id-in_workspace g e = ground arith

  id-post_to :
      (g : Round W E) (e : Endpoint) (world : W) → (post_to c g e world).1.endpoint_id ≡ e.id
  unfolding post_to
  id-post_to g e world =
      id-classify c g.wait g.now e g.event_type g.attempt g.max
        (g.client.post_webhook (record { url = e.url; body = g.body; signature = g.signature })
          world).1

  id-deliver_one :
      (g : Round W E) (e : Endpoint) (world : W) → (deliver_one c g e world).1.endpoint_id ≡ e.id
  unfolding deliver_one
  id-deliver_one g e world =
      if_intro (λ (x : W × DeliveryResult E × Option (DeliverError E)). x.1.endpoint_id ≡ e.id)
        e.disabled (skip_disabled c g (in_workspace c g e) world)
        (post_to c g (in_workspace c g e) world) (unfold skip_disabled in id-in_workspace g e)
        (id-post_to g (in_workspace c g e) world ∙ id-in_workspace g e)

  -- When the loop over the endpoints ends without an error, it has added one result for each
  -- endpoint, in the order of the endpoints, disabled ones included.
  pub deliver_loop-order :
      (g : Round W E) (es : List Endpoint) (rs : List (DeliveryResult E)) (world : W)
      → (deliver_loop c g es rs world).2 ≡ none
      → map (λ r. r.endpoint_id) (deliver_loop c g es rs world).1
        ≡ map (λ r. r.endpoint_id) rs ++ map (λ e. e.id) es
  unfolding deliver_loop
  deliver_loop-order g [] rs world h = sym (append-nil _)
  deliver_loop-order g (e ∷ es) rs world h =
      let (world', r, error) = deliver_one c g e world in
      elim (Option-cases error) [
        | inl go ↦ rw go (
            deliver_loop-order g es (rs ++ r ∷ []) world' (rw go at h)
            ∙ ap (λ ids. ids ++ map (λ (d : Endpoint). d.id) es)
                (map-append (λ (d : DeliveryResult E). d.endpoint_id) rs (r ∷ []))
            ∙ append_assoc (map (λ (d : DeliveryResult E). d.endpoint_id) rs) (r.endpoint_id ∷ [])
                (map (λ (d : Endpoint). d.id) es)
            ∙ ap
                (λ i.
                  map (λ (d : DeliveryResult E). d.endpoint_id) rs
                  ++ (i ∷ map (λ (d : Endpoint). d.id) es))
                (id-deliver_one g e world))
        | inr (x, stop) ↦ cc (rw stop at h)
      ]

  -- The request that is posted to an endpoint.
  abbrev request_of : Round W E → Endpoint → HttpRequest
  request_of g e = record { url = e.url; body = g.body; signature = g.signature }

  -- Two clients answer alike on the requests to the enabled ones of the endpoints.
  abbrev AgreeOn : Round W E → HttpClient W E → List Endpoint → Type 0
  AgreeOn g other [] = Unit
  AgreeOn g other (e ∷ es) =
      (e.disabled ≡ false
        → (world : W)
        → g.client.post_webhook (request_of g e) world ≡ other.post_webhook (request_of g e) world)
      × AgreeOn g other es

  url-in_workspace : (g : Round W E) (e : Endpoint) → (in_workspace c g e).url ≡ e.url
  url-in_workspace g e = ground arith

  post_to-client :
      (g : Round W E) (other : HttpClient W E) (e : Endpoint) (world : W)
      → g.client.post_webhook (request_of g e) world ≡ other.post_webhook (request_of g e) world
      → post_to c g e world ≡ post_to c (record g { client = other }) e world
  unfolding post_to
  post_to-client g other e world h = rw h

  deliver_one-client :
      (g : Round W E) (other : HttpClient W E) (e : Endpoint) (world : W)
      → (e.disabled ≡ false
          → (world : W)
          → g.client.post_webhook (request_of g e) world
            ≡ other.post_webhook (request_of g e) world)
      → deliver_one c g e world ≡ deliver_one c (record g { client = other }) e world
  unfolding deliver_one skip_disabled
  deliver_one-client g other e world h =
      let g' = record g { client = other } in
      let e' = in_workspace c g e in
      let u = ap (λ url. record e { url = url }) (url-in_workspace g e) in
      elim (Bool-cases e.disabled) [
        | inl off ↦
            if_true e.disabled (skip_disabled c g e' world) (post_to c g e' world) off
            ∙ sym (if_true e.disabled (skip_disabled c g' e' world) (post_to c g' e' world) off)
        | inr on ↦
            if_false e.disabled (skip_disabled c g e' world) (post_to c g e' world) on
            ∙ post_to-client g other e' world (
                ap (λ (d : Endpoint). g.client.post_webhook (request_of g d) world) u
                ∙ h on world
                ∙ sym (ap (λ (d : Endpoint). other.post_webhook (request_of g d) world) u))
            ∙ sym (if_false e.disabled (skip_disabled c g' e' world) (post_to c g' e' world) on)
      ]

  -- The loop over the endpoints uses the HTTP client for nothing but one kind of request to each
  -- enabled endpoint: with another client that answers those requests alike, it returns the same
  -- external state, results and error. A disabled endpoint is not posted to.
  deliver_loop-client :
      (g : Round W E) (other : HttpClient W E) (es : List Endpoint) (rs : List (DeliveryResult E))
      (world : W)
      → AgreeOn g other es
      → deliver_loop c g es rs world ≡ deliver_loop c (record g { client = other }) es rs world
  unfolding deliver_loop
  deliver_loop-client g other [] rs world h = refl
  deliver_loop-client g other (e ∷ es) rs world h =
      let g' = record g { client = other } in
      let d = deliver_one c g' e world in
      rw (deliver_one-client g other e world h.0) (
        ap (λ going. stop_on c d.2 (d.0, rs ++ d.1 ∷ [], d.2) going)
          (deliver_loop-client g other es (rs ++ d.1 ∷ []) d.0 h.1))
