-- ===== src/Tests/Webhook.antt =====
-- Deliveries to the webhook service.
use payment_orchestrator.Base.{
  ℕ, ◌+◌, ◌≡◌, refl, String, Bool, false, Option, none, some, List, [], ◌∷◌, ◌||◌, not, arith,
  str_eq, str_eq_refl, if◌then◌else◌,
}
use payment_orchestrator.Domain.{PayoutState}
use payment_orchestrator.Service.Update.{ApplyProviderUpdateRequest, map_provider_status_to_state}
use payment_orchestrator.Webhook.Event.{
  ProviderEvent, payout_succeeded, received, event_type_string,
}
use payment_orchestrator.Webhook.Parser.{
  StripeEvent, text, parse, extract_external_id, map_event_type, extract_error_details,
}
use payment_orchestrator.Webhook.Dedup.{Redis}
use payment_orchestrator.Webhook.Handler.{
  HttpRequest, HttpReply, ok, error, State, serve_http, forward_to_orchestrator,
}
use payment_orchestrator.Webhook.Handler.Redelivery.{Remembers, Carries, serve_http-redelivery}
use payment_orchestrator.Webhook.Handler.Authentic.{Outcome, serve_http-IsForwarded}
use payment_orchestrator.Observability.{Instrumented}
use payment_orchestrator.Webhook.Router.{
  Incoming, Routed, to_endpoint, unrouted, stripe, id_of, routes, new_router,
}
use payment_orchestrator.Webhook.Router.Traced.{IsTraced, new_router-IsTraced}
use payment_orchestrator.Webhook.Handler.Contract.{parse-accepted}

abbrev has_key : String → List String → Bool
has_key k [] = false
has_key k (x ∷ xs) = str_eq x k || has_key k xs

-- The keys that were set; none expires.
abbrev redis : Redis (List String)
redis = record {
  setnx = λ k r. (some (not (has_key k r)), if has_key k r then r else k ∷ r);
  expire = λ k ttl r. r;
}

redis-Remembers : Remembers redis 86400
redis-Remembers k r new = ground (arith, str_eq_refl k)

-- The remote call fails, and counts its calls.
abbrev unreachable : ApplyProviderUpdateRequest → ℕ → Bool × ℕ
unreachable req n = (false, n + 1)

abbrev stripe_event : StripeEvent
stripe_event = record {
  id = "evt_1";
  type = "payment_intent.succeeded";
  created = 9;
  data_object = some (("id", text "ref_1") ∷ []);
}

abbrev succeeded : ProviderEvent
succeeded = record {
  provider = "stripe";
  external_id = "ref_1";
  event_id = "evt_1";
  type = payout_succeeded;
  status = received;
  occurred_at = 9;
  error_code = "";
  error_message = "";
}

abbrev construct_event : String → String → Option StripeEvent
construct_event payload signature = if str_eq signature "sig" then some stripe_event else none

abbrev delivery : HttpRequest
delivery = record { method = "POST"; body = some "{}"; signature = "sig" }

abbrev fresh : State (List String) ℕ
fresh = record { seen = []; remote = 0 }

event_parsed : parse stripe_event ≡ some succeeded
unfolding parse extract_external_id map_event_type extract_error_details
event_parsed = refl

delivery-Carries :
    Carries redis 86400 construct_event unreachable delivery "{}" stripe_event succeeded
delivery-Carries = record {
  posted = refl;
  read = refl;
  signed = refl;
  constructed = refl;
  parsed = event_parsed;
}

abbrev deliver : State (List String) ℕ → HttpReply × State (List String) ℕ
deliver = serve_http redis 86400 construct_event unreachable delivery

abbrev sent_remotely : Bool × ℕ
sent_remotely = forward_to_orchestrator redis 86400 construct_event unreachable succeeded 0

serve_http-redelivery_example :
    ((deliver fresh).0 ≡ (if sent_remotely.0 then ok else error 500 "forward failed"))
    × ((deliver fresh).1.remote ≡ sent_remotely.1)
    × ((deliver (deliver fresh).1).0 ≡ ok)
    × ((deliver (deliver fresh).1).1.remote ≡ (deliver fresh).1.remote)
serve_http-redelivery_example =
    serve_http-redelivery redis 86400 construct_event unreachable delivery "{}" stripe_event
      succeeded fresh delivery-Carries redis-Remembers refl

parse-accepted_example :
    (str_eq "ref_1" "" ≡ false)
    × ((state : PayoutState) × (map_provider_status_to_state (event_type_string payout_succeeded)
          ≡ some state))
parse-accepted_example = parse-accepted stripe_event succeeded event_parsed

serve_http-IsForwarded_example :
    Outcome redis 86400 construct_event unreachable delivery fresh
      (serve_http redis 86400 construct_event unreachable delivery fresh)
serve_http-IsForwarded_example =
    serve_http-IsForwarded redis 86400 construct_event unreachable delivery fresh

abbrev match_route : String → String → Routed
match_route method path =
    if str_eq path "/v1/webhooks/stripe"
    then (if str_eq method "POST" then to_endpoint stripe else unrouted 405 "")
    else unrouted 404 ""

abbrev incoming : Incoming
incoming = record { path = "/v1/webhooks/stripe"; request_id = ""; request = delivery }

abbrev watched : Instrumented (State (List String) ℕ)
watched = record { events = []; inner = fresh }

new_router-IsTraced_example :
    IsTraced
      (id_of "id_1" incoming)
      watched
      (routes redis construct_event unreachable match_route (200, "") incoming watched)
      (new_router redis construct_event unreachable match_route
        (200, "")
        (λ n. "200")
        "id_1"
        incoming
        watched)
new_router-IsTraced_example =
    new_router-IsTraced redis construct_event unreachable match_route (200, "") (λ n. "200") "id_1"
      incoming watched
