-- ===== src/Webhook/Router.antt =====
-- `NewRouter` of the webhook service and its middleware of the request id
-- (services/webhook/internal/http/router.go). The matching of routes and the recovery of panics are
-- chi's; the random id is a parameter.
pub mod Traced
use payment_orchestrator.Base.{ℕ, String, Option, some, str_eq, if◌then◌else◌, Bool}
use payment_orchestrator.Service.Update.{ApplyProviderUpdateRequest}
use payment_orchestrator.Webhook.Parser.{StripeEvent}
use payment_orchestrator.Webhook.Dedup.{Redis, new_service_ttl}
use payment_orchestrator.Webhook.Handler.{HttpRequest, HttpReply, ok, error, State, serve_http}
use payment_orchestrator.Observability.{
  Instrumented, Served, answered, panicked, Next, http_metrics_middleware,
}

-- What the router reads of a request: the path, the header `X-Request-Id` (empty if it is
-- missing), and what the handler reads.
pub record Incoming : Type 0 where
  pub path : String
  pub request_id : String
  pub request : HttpRequest

pub data Body : Type 0 where
  metrics_text : ℕ → String → Body
  healthy : Body
  handled : HttpReply → Body
  no_route : ℕ → Body

-- A response with its header `X-Request-Id`, empty if it is not set.
pub record Outgoing : Type 0 where
  pub request_id : String
  pub body : Body

abbrev pub code_of : Outgoing → ℕ
code_of a = elim a.body [
  | metrics_text code s ↦ code
  | healthy ↦ 200
  | handled r ↦ elim r [ ok ↦ 200 | error code message ↦ code ]
  | no_route code ↦ code
]

abbrev pub method_of : Incoming → String
method_of r = r.request.method

abbrev pub path_of : Incoming → String
path_of r = r.path

pub data Endpoint : Type 0 where
  metrics health stripe : Endpoint

pub data Routed : Type 0 where
  to_endpoint : Endpoint → Routed
  unrouted : ℕ → String → Routed

abbrev pub pattern_of : Endpoint → String
pattern_of metrics = "/metrics"
pattern_of health = "/healthz"
pattern_of stripe = "/v1/webhooks/stripe"

-- The id that the middleware puts into the context and the response.
abbrev pub id_of : String → Incoming → String
id_of new_id r = if str_eq r.request_id "" then new_id else r.request_id

module _ {S : Type 0} where
  abbrev pub with_id : String → Served Outgoing × S → Served Outgoing × S
  with_id id (answered a pattern, s) = (answered (record a { request_id = id }) pattern, s)
  with_id id (panicked, s) = (panicked, s)

  -- `requestIDMiddleware`; `new_id` is the id of `NewRequestID`.
  unfoldable pub request_id_middleware :
      String → Next Incoming Outgoing S → Next Incoming Outgoing S
  request_id_middleware new_id next r s =
      with_id (id_of new_id r) (next (record r { request_id = id_of new_id r }) s)

-- `chi` finds the route of a method and a path, and `scrape` is the response of promhttp.
module _ {R W : Type 0} (redis : Redis R) (construct_event : String → String → Option StripeEvent)
    (apply : ApplyProviderUpdateRequest → W → Bool × W) (chi : String → String → Routed)
    (scrape : ℕ × String) where
  abbrev pub at_stripe :
      HttpReply × State R W → Instrumented (State R W) → Served Outgoing × Instrumented (State R W)
  at_stripe (reply, s) st = (
    answered (record { request_id = ""; body = handled reply }) (some (pattern_of stripe)),
    record st { inner = s },
  )

  -- The deduplication takes the default time to live.
  abbrev pub serve_routed : Routed → Next Incoming Outgoing (Instrumented (State R W))
  serve_routed (to_endpoint metrics) r st = (
    answered (record { request_id = ""; body = metrics_text scrape.0 scrape.1 })
        (some (pattern_of metrics)),
    st,
  )
  serve_routed (to_endpoint health) r st =
      (answered (record { request_id = ""; body = healthy }) (some (pattern_of health)), st)
  serve_routed (to_endpoint stripe) r st =
      at_stripe (serve_http redis (new_service_ttl 0) construct_event apply r.request st.inner) st
  serve_routed (unrouted code pattern) r st =
      (answered (record { request_id = ""; body = no_route code }) (some pattern), st)

  abbrev pub routes : Next Incoming Outgoing (Instrumented (State R W))
  routes r st = serve_routed (chi (method_of r) r.path) r st

  unfoldable pub new_router :
      (ℕ → String) → String → Next Incoming Outgoing (Instrumented (State R W))
  unfolding request_id_middleware
  new_router itoa new_id =
      request_id_middleware new_id
        (http_metrics_middleware itoa method_of path_of code_of "webhook" routes)
