-- ===== src/Webhook/Handler/Authentic.antt =====
-- Which requests reach the orchestrator.
use mathlib.Core.Option.{some-injective}
use payment_orchestrator.Base.{
  sym, ◌∙◌, arith, ◌≢◌, ℕ, ◌≡◌, refl, String, Bool, true, false, Option, none, some, str_eq, ap,
  inl, inr, ◌⊎◌, Bool-cases, Option-cases,
}
use payment_orchestrator.Service.Update.{ApplyProviderUpdateRequest}
use payment_orchestrator.Webhook.Event.{ProviderEvent, event_type_string}
use payment_orchestrator.Webhook.Parser.{StripeEvent, parse}
use payment_orchestrator.Webhook.Dedup.{Redis, is_processed}
use payment_orchestrator.Webhook.Handler.{
  HttpRequest, HttpReply, ok, error, State, forward_to_orchestrator, forwarded, after_dedup,
  after_parse, after_body, serve_http,
}

module _ {R W : Type 0} (redis : Redis R) (ttl : ℕ)
    (construct_event : String → String → Option StripeEvent)
    (apply : ApplyProviderUpdateRequest → W → Bool × W) where
  -- The update that an event asks for.
  abbrev pub update_of : ProviderEvent → ApplyProviderUpdateRequest
  update_of event = record {
    payout_id = event.external_id;
    provider_status = event_type_string event.type;
    provider_reference = event.event_id;
  }

  -- The request is a POST with a signature that Stripe's SDK accepts for its body, and its event
  -- parses and was not seen before.
  pub record IsDeliverable (r : HttpRequest) (s : State R W) (event : ProviderEvent) : Type 0 where
    pub payload : String
    pub signed : StripeEvent
    pub is_post : str_eq r.method "POST" ≡ true
    pub has_body : r.body ≡ some payload
    pub has_signature : str_eq r.signature "" ≡ false
    pub authentic : construct_event payload r.signature ≡ some signed
    pub parsed : parse signed ≡ some event
    pub unseen : (is_processed redis ttl event.event_id s.seen).0 ≡ some false

  -- The orchestrator was asked once, with the event's update; the answer is 200 exactly if it
  -- succeeded.
  pub record IsForwarded (event : ProviderEvent) (s : State R W) (o : HttpReply × State R W)
      : Type 0 where
    pub asked : o.1.remote ≡ (apply (update_of event) s.remote).1
    pub answered :
        ((o.0 ≡ ok) × ((apply (update_of event) s.remote).0 ≡ true))
        ⊎ ((o.0 ≡ error 500 "forward failed") × ((apply (update_of event) s.remote).0 ≡ false))

  forwarded_cases :
      (q : R) (o : Bool × W)
      → let a = forwarded redis ttl construct_event apply q o in
        (a.1.remote ≡ o.1)
        × (((a.0 ≡ ok) × (o.0 ≡ true)) ⊎ ((a.0 ≡ error 500 "forward failed") × (o.0 ≡ false)))
  forwarded_cases q (true, w) = (refl, inl (refl, refl))
  forwarded_cases q (false, w) = (refl, inr (refl, refl))

  -- An event that is deliverable was forwarded; if there is none, the orchestrator was not asked.
  abbrev pub Outcome : HttpRequest → State R W → HttpReply × State R W → Type 0
  Outcome r s o =
      (((event : ProviderEvent) → ¬ IsDeliverable r s event) × (o.1.remote ≡ s.remote))
      ⊎ ((event : ProviderEvent) × IsDeliverable r s event × IsForwarded event s o)

  same_event :
      (r : HttpRequest) (payload payload' : String) (signed signed' : StripeEvent)
      (parsed : Option ProviderEvent) (event : ProviderEvent)
      → r.body ≡ some payload
      → construct_event payload r.signature ≡ some signed
      → parse signed ≡ parsed
      → r.body ≡ some payload'
      → construct_event payload' r.signature ≡ some signed'
      → parse signed' ≡ some event
      → parsed ≡ some event
  same_event r payload payload' signed signed' parsed event body authentic is_parsed body'
        authentic' parsed' =
      let same : payload' ≡ payload = some-injective payload' payload (sym body' ∙ body) in
      let same_signed : signed' ≡ signed =
        some-injective signed' signed
          (sym authentic' ∙ ap (λ x. construct_event x r.signature) same ∙ authentic) in
      sym is_parsed ∙ ap (λ x. parse x) (sym same_signed) ∙ parsed'

  seen_before :
      (r : HttpRequest) (s : State R W) (payload : String) (signed : StripeEvent)
      (event event' : ProviderEvent) (answer : Option Bool)
      → (is_processed redis ttl event.event_id s.seen).0 ≡ answer
      → answer ≢ some false
      → r.body ≡ some payload
      → construct_event payload r.signature ≡ some signed
      → parse signed ≡ some event
      → ¬ IsDeliverable r s event'
  seen_before r s payload signed event event' answer same not_new body authentic parsed d =
      let same_one : event ≡ event' = some-injective event event' (
        same_event r payload d.payload signed d.signed (some event) event' body authentic parsed
          d.has_body d.authentic d.parsed) in
      not_new (
        sym same
        ∙ ap (λ (e : ProviderEvent). (is_processed redis ttl e.event_id s.seen).0) same_one
        ∙ d.unseen)

  dedup-Outcome :
      (r : HttpRequest) (s : State R W) (payload : String) (signed : StripeEvent)
      (event : ProviderEvent) (seen : Option Bool × R)
      → is_processed redis ttl event.event_id s.seen ≡ seen
      → str_eq r.method "POST" ≡ true
      → r.body ≡ some payload
      → str_eq r.signature "" ≡ false
      → construct_event payload r.signature ≡ some signed
      → parse signed ≡ some event
      → Outcome r s (after_dedup redis ttl construct_event apply event s.remote seen)
  unfolding forward_to_orchestrator
  dedup-Outcome r s payload signed event (none, q) same post body given authentic parsed = inl (
    λ event' d.
        seen_before r s payload signed event event' none (ap (λ x. x.0) same) (λ h. ground arith)
          body authentic parsed d,
    refl,
  )
  dedup-Outcome r s payload signed event (some true, q) same post body given authentic parsed =
      inl (
        λ event' d.
            seen_before r s payload signed event event' (some true) (ap (λ x. x.0) same)
              (λ h. ground arith) body authentic parsed d,
        refl,
      )
  dedup-Outcome r s payload signed event (some false, q) same post body given authentic parsed =
      let (asked, answered) = forwarded_cases q (apply (update_of event) s.remote) in
      inr (
        event,
        record {
          payload = payload;
          signed = signed;
          is_post = post;
          has_body = body;
          has_signature = given;
          authentic = authentic;
          parsed = parsed;
          unseen = ap (λ x. x.0) same;
        },
        record { asked = asked; answered = answered },
      )

  event-Outcome :
      (r : HttpRequest) (s : State R W) (payload : String) (signed : StripeEvent)
      (parsed : Option ProviderEvent)
      → parse signed ≡ parsed
      → str_eq r.method "POST" ≡ true
      → r.body ≡ some payload
      → str_eq r.signature "" ≡ false
      → construct_event payload r.signature ≡ some signed
      → Outcome r s (after_parse redis ttl construct_event apply parsed s)
  event-Outcome r s payload signed none same post body given authentic = inl (
    λ event d.
        let found =
          same_event r payload d.payload signed d.signed none event body authentic same d.has_body
            d.authentic d.parsed in
        ground (arith, found),
    refl,
  )
  event-Outcome r s payload signed (some event) same post body given authentic =
      dedup-Outcome r s payload signed event (is_processed redis ttl event.event_id s.seen) refl
        post body given authentic same

  body-Outcome :
      (r : HttpRequest) (s : State R W) (body : Option String)
      → r.body ≡ body
      → str_eq r.method "POST" ≡ true
      → Outcome r s (after_body redis ttl construct_event apply body r.signature s)
  body-Outcome r s none same post = inl (λ event d. ground (arith, same, d.has_body), refl)
  body-Outcome r s (some payload) same post = elim (Bool-cases (str_eq r.signature "")) [
    | inl unsigned ↦ rw unsigned (inl (λ event d. ground (arith, unsigned, d.has_signature), refl))
    | inr given ↦ elim (Option-cases (construct_event payload r.signature)) [
      | inl invalid ↦
          rw (given, invalid)
            (inl (
              λ event d.
                  let same_payload : d.payload ≡ payload =
                    some-injective d.payload payload (sym d.has_body ∙ same) in
                  let rejected = ap (λ x. construct_event x r.signature) same_payload ∙ invalid in
                  ground (arith, rejected, d.authentic),
              refl,
            ))
      | inr (signed, authentic) ↦
          rw (given, authentic)
            (event-Outcome r s payload signed (parse signed) refl post same given authentic)
    ]
  ]

  -- If the request is a POST whose body and signature Stripe's SDK accepts, with an event that
  -- parses and was not seen before, the webhook handler asks the orchestrator once for the event's
  -- update, and answers 200 exactly if that succeeds. Otherwise it leaves the orchestrator as it
  -- was.
  pub serve_http-IsForwarded :
      (r : HttpRequest) (s : State R W)
      → Outcome r s (serve_http redis ttl construct_event apply r s)
  unfolding serve_http
  serve_http-IsForwarded r s = elim (Bool-cases (str_eq r.method "POST")) [
    | inl post ↦ rw post (body-Outcome r s r.body refl post)
    | inr other ↦ rw other (inl (λ event d. ground (arith, other, d.is_post), refl))
  ]
