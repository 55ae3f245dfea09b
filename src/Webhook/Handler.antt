-- ===== src/Webhook/Handler.antt =====
-- The handler of Stripe's webhook (services/webhook/internal/http/stripe_handler.go). The check of
-- the signature is Stripe's SDK's, and a parameter; `apply` is the remote call of
-- `ApplyProviderUpdate`, with whether it succeeded and the orchestrator's side after it.
pub mod Redelivery
pub mod Contract
pub mod Authentic
use payment_orchestrator.Base.{
  ℕ, String, Bool, true, false, not, Option, none, some, str_eq, if◌then◌else◌,
}
use payment_orchestrator.Service.Update.{ApplyProviderUpdateRequest}
use payment_orchestrator.Webhook.Event.{ProviderEvent, event_type_string}
use payment_orchestrator.Webhook.Parser.{StripeEvent, parse}
use payment_orchestrator.Webhook.Dedup.{Redis, is_processed}

-- The request as the handler reads it; the body is `none` where it cannot be read.
pub record HttpRequest : Type 0 where
  pub method : String
  pub body : Option String
  pub signature : String

pub data HttpReply : Type 0 where
  ok : HttpReply
  error : ℕ → String → HttpReply

-- Redis, and the orchestrator's side.
pub record State (R W : Type 0) : Type 0 where
  pub seen : R
  pub remote : W

module _ {R W : Type 0} (redis : Redis R) (ttl : ℕ)
    (construct_event : String → String → Option StripeEvent)
    (apply : ApplyProviderUpdateRequest → W → Bool × W) where
  unfoldable pub forward_to_orchestrator : ProviderEvent → W → Bool × W
  unfolding event_type_string
  forward_to_orchestrator event w =
      apply
        (record {
          payout_id = event.external_id;
          provider_status = event_type_string event.type;
          provider_reference = event.event_id;
        })
        w

  -- The answer of the forwarding.
  abbrev pub forwarded : R → Bool × W → HttpReply × State R W
  forwarded r (true, w) = (ok, record { seen = r; remote = w })
  forwarded r (false, w) = (error 500 "forward failed", record { seen = r; remote = w })

  abbrev pub after_dedup : ProviderEvent → W → Option Bool × R → HttpReply × State R W
  after_dedup event w (none, r) = (error 500 "dedup check failed", record { seen = r; remote = w })
  after_dedup event w (some true, r) = (ok, record { seen = r; remote = w })
  after_dedup event w (some false, r) = forwarded r (forward_to_orchestrator event w)

  -- An event that does not parse is acknowledged.
  abbrev pub after_parse : Option ProviderEvent → State R W → HttpReply × State R W
  after_parse none s = (ok, s)
  after_parse (some event) s =
      after_dedup event s.remote (is_processed redis ttl event.event_id s.seen)

  abbrev pub after_body : Option String → String → State R W → HttpReply × State R W
  after_body none signature s = (error 400 "failed to read body", s)
  after_body (some payload) signature s =
      if str_eq signature ""
      then (error 400 "missing stripe signature", s)
      else elim (construct_event payload signature) [
        | none ↦ (error 400 "invalid signature", s)
        | some event ↦ after_parse (parse event) s
      ]

  unfoldable pub serve_http : HttpRequest → State R W → HttpReply × State R W
  unfolding forward_to_orchestrator
  serve_http r s =
      if not (str_eq r.method "POST")
      then (error 405 "method not allowed", s)
      else after_body r.body r.signature s
