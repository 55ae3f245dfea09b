-- ===== src/Webhook/Handler/Redelivery.antt =====
-- What a second delivery of a webhook event does.
use payment_orchestrator.Base.{
  ℕ, ◌≡◌, refl, String, Bool, true, false, Option, some, str_eq, if◌then◌else◌, ◌∙◌, ap,
}
use payment_orchestrator.Service.Update.{ApplyProviderUpdateRequest}
use payment_orchestrator.Webhook.Event.{ProviderEvent}
use payment_orchestrator.Webhook.Parser.{StripeEvent, parse}
use payment_orchestrator.Webhook.Dedup.{Redis, after_setnx, is_processed, event_key}
use payment_orchestrator.Webhook.Handler.{
  HttpRequest, HttpReply, ok, error, State, serve_http, after_dedup, forwarded,
  forward_to_orchestrator,
}

-- A key that SETNX set is there for the next SETNX, also after EXPIRE with this time to live.
abbrev pub Remembers : {R : Type 0} → Redis R → ℕ → Type 0
Remembers {R} redis ttl =
    (key : String) (r : R)
    → (redis.setnx key r).0 ≡ some true
    → (redis.setnx key (redis.expire key ttl (redis.setnx key r).1)).0 ≡ some false

module _ {R W : Type 0} (redis : Redis R) (ttl : ℕ)
    (construct_event : String → String → Option StripeEvent)
    (apply : ApplyProviderUpdateRequest → W → Bool × W) where
  -- The request is a signed event that parses to `e`.
  pub record Carries (req : HttpRequest) (payload : String) (event : StripeEvent)
      (e : ProviderEvent) : Type 0 where
    pub posted : str_eq req.method "POST" ≡ true
    pub read : req.body ≡ some payload
    pub signed : str_eq req.signature "" ≡ false
    pub constructed : construct_event payload req.signature ≡ some event
    pub parsed : parse event ≡ some e

  served :
      (req : HttpRequest) (payload : String) (event : StripeEvent) (e : ProviderEvent)
      (s : State R W)
      → Carries req payload event e
      → serve_http redis ttl construct_event apply req s
        ≡ after_dedup redis ttl construct_event apply e s.remote
            (is_processed redis ttl e.event_id s.seen)
  unfolding serve_http
  served req payload event e s c = rw (c.posted, c.read, c.signed, c.constructed, c.parsed) refl

  -- A state in which SETNX sets the key forwards the event.
  first_served :
      (req : HttpRequest) (payload : String) (event : StripeEvent) (e : ProviderEvent)
      (s : State R W)
      → Carries req payload event e
      → (redis.setnx (event_key e.event_id) s.seen).0 ≡ some true
      → serve_http redis ttl construct_event apply req s
        ≡ forwarded redis ttl construct_event apply
            (redis.expire (event_key e.event_id) ttl (redis.setnx (event_key e.event_id) s.seen).1)
            (forward_to_orchestrator redis ttl construct_event apply e s.remote)
  unfolding is_processed
  first_served req payload event e s c new =
      served req payload event e s c ∙ rw (new, after_setnx) refl

  -- A state in which SETNX finds the key forwards nothing.
  again_served :
      (req : HttpRequest) (payload : String) (event : StripeEvent) (e : ProviderEvent)
      (s : State R W)
      → Carries req payload event e
      → (redis.setnx (event_key e.event_id) s.seen).0 ≡ some false
      → ((serve_http redis ttl construct_event apply req s).0 ≡ ok)
        × ((serve_http redis ttl construct_event apply req s).1.remote ≡ s.remote)
  unfolding is_processed
  again_served req payload event e s c old =
      rw (served req payload event e s c) (rw (old, after_setnx) (refl, refl))

  forwarded_seen :
      (r : R) (o : Bool × W) → (forwarded redis ttl construct_event apply r o).1.seen ≡ r
  forwarded_seen r (true, w) = refl
  forwarded_seen r (false, w) = refl

  forwarded_remote :
      (r : R) (o : Bool × W) → (forwarded redis ttl construct_event apply r o).1.remote ≡ o.1
  forwarded_remote r (true, w) = refl
  forwarded_remote r (false, w) = refl

  forwarded_reply :
      (r : R) (o : Bool × W)
      → (forwarded redis ttl construct_event apply r o).0
        ≡ (if o.0 then ok else error 500 "forward failed")
  forwarded_reply r (true, w) = refl
  forwarded_reply r (false, w) = refl

  -- With a Redis that keeps a key it has set, the first delivery of a signed event that parses,
  -- where SETNX sets its key, forwards the event once and answers 200 or 500 as the call succeeds
  -- or fails. A second delivery right after it answers 200 and forwards nothing, in both cases: an
  -- event whose forwarding failed is not forwarded again.
  pub serve_http-redelivery :
      (req : HttpRequest) (payload : String) (event : StripeEvent) (e : ProviderEvent)
      (s : State R W)
      → Carries req payload event e
      → Remembers redis ttl
      → (redis.setnx (event_key e.event_id) s.seen).0 ≡ some true
      → let sent = forward_to_orchestrator redis ttl construct_event apply e s.remote in
        let first = serve_http redis ttl construct_event apply req s in
        let second = serve_http redis ttl construct_event apply req first.1 in
        (first.0 ≡ (if sent.0 then ok else error 500 "forward failed"))
        × (first.1.remote ≡ sent.1)
        × (second.0 ≡ ok)
        × (second.1.remote ≡ first.1.remote)
  serve_http-redelivery req payload event e s c remembers new =
      let key = event_key e.event_id in
      let sent = forward_to_orchestrator redis ttl construct_event apply e s.remote in
      let r = redis.expire key ttl (redis.setnx key s.seen).1 in
      let first = serve_http redis ttl construct_event apply req s in
      let is_first = first_served req payload event e s c new in
      let seen : first.1.seen ≡ r =
        ap (λ (o : HttpReply × State R W). o.1.seen) is_first ∙ forwarded_seen r sent in
      let (answer, same) =
        again_served req payload event e first.1 c (rw seen (remembers key s.seen new)) in
      (
        ap (λ (o : HttpReply × State R W). o.0) is_first ∙ forwarded_reply r sent,
        ap (λ (o : HttpReply × State R W). o.1.remote) is_first ∙ forwarded_remote r sent,
        answer,
        same,
      )
