-- ===== src/Api/Router.antt =====
-- `NewRouterWithClient` (services/api/internal/http/router.go): the routes, behind the middlewares
-- of the metrics and of the rate limiter. The matching of a method and a path to a route is chi's,
-- and so are the request id, which a request has here from the start, and the recovery of panics.
pub mod Counted
pub mod Refused
use payment_orchestrator.Base.{ℕ, String, Bool, Option, none, some}
use payment_orchestrator.Api.Types.{
  PayoutClient, HttpRequest, HttpResponse, ResponseBody, health_body, metrics_body, no_body,
}
use payment_orchestrator.Api.Canonical.{Formats}
use payment_orchestrator.Api.Create.{CreateBody, create_handler}
use payment_orchestrator.Api.Get.{get_handler}
use payment_orchestrator.Api.Cancel.{cancel_handler}
use payment_orchestrator.Api.Config.{Config}
use payment_orchestrator.Api.RateLimit.{LimitFloat, RedisClient, RateLimitConfig}
use payment_orchestrator.Observability.{
  MetricEvent, Instrumented, Served, answered, Next, http_metrics_middleware,
}
use payment_orchestrator.Api.Limited.{Behind, rate_limit_with_config}

abbrev pub method_of : HttpRequest → String
method_of r = r.method

abbrev pub path_of : HttpRequest → String
path_of r = r.path

abbrev pub code_of : HttpResponse → ℕ
code_of a = a.code

pub data Endpoint : Type 0 where
  metrics health create_payout get_payout cancel_payout : Endpoint

-- What chi matches: a route with the parameter `id`, or none, when it answers with
-- a status and has the pattern of what it tried.
pub data Routed : Type 0 where
  to_endpoint : Endpoint → String → Routed
  unrouted : ℕ → String → Routed

abbrev pub pattern_of : Endpoint → String
pattern_of metrics = "/metrics"
pattern_of health = "/health"
pattern_of create_payout = "/v1/payouts"
pattern_of get_payout = "/v1/payouts/{id}"
pattern_of cancel_payout = "/v1/payouts/{id}/cancel"

abbrev pub plain_response : ℕ → ResponseBody → HttpResponse
plain_response code body = record {
  code = code;
  request_id = none;
  retry_after = none;
  body = body;
}

-- The configuration of the limiter that the router makes of the service's.
abbrev pub rate_limit_config : (fl : LimitFloat) → Config fl.F → RateLimitConfig fl
rate_limit_config fl cfg = record {
  key_prefix = "ratelimit:global";
  requests_per_second = cfg.rate_limit_requests_per_second;
  burst_size = cfg.rate_limit_burst_size;
}

-- `chi` matches a method and a path, and `scrape` is the text of the handler of Prometheus.
module _ (f : Formats) (decode : String → Option CreateBody) {R S : Type 0}
    (client : PayoutClient S) (chi : String → String → Routed) (scrape : String) where
  abbrev pub at_upstream :
      Endpoint
      → HttpResponse × S
      → Instrumented (Behind R S)
      → Served HttpResponse × Instrumented (Behind R S)
  at_upstream e (response, s) st = (
    answered response (some (pattern_of e)),
    record st { inner = record st.inner { upstream = s } },
  )

  abbrev pub serve_endpoint :
      Endpoint
      → HttpRequest
      → Instrumented (Behind R S)
      → Served HttpResponse × Instrumented (Behind R S)
  serve_endpoint metrics r st =
      (answered (plain_response 200 (metrics_body scrape)) (some (pattern_of metrics)), st)
  serve_endpoint health r st =
      (answered (plain_response 200 health_body) (some (pattern_of health)), st)
  serve_endpoint create_payout r st =
      at_upstream create_payout (create_handler f decode client r st.inner.upstream) st
  serve_endpoint get_payout r st =
      at_upstream get_payout (get_handler client r st.inner.upstream) st
  serve_endpoint cancel_payout r st =
      at_upstream cancel_payout (cancel_handler client r st.inner.upstream) st

  abbrev pub serve_routed : Routed → Next HttpRequest HttpResponse (Instrumented (Behind R S))
  serve_routed (to_endpoint e id) r st = serve_endpoint e (record r { id = id }) st
  serve_routed (unrouted code pattern) r st =
      (answered (plain_response code no_body) (some pattern), st)

  abbrev pub routes : Next HttpRequest HttpResponse (Instrumented (Behind R S))
  routes r st = serve_routed (chi r.method r.path) r st

  unfoldable pub serve :
      (fl : LimitFloat)
      → (ℕ → String)
      → Option (RedisClient R)
      → Bool
      → RateLimitConfig fl
      → ℕ
      → Next HttpRequest HttpResponse (Instrumented (Behind R S))
  serve fl itoa redis enabled config now =
      http_metrics_middleware itoa method_of path_of code_of "api"
        (rate_limit_with_config fl redis enabled config now routes)

  -- `NewRouterWithClient`
  unfoldable pub new_router_with_client :
      (fl : LimitFloat)
      → (ℕ → String)
      → Option (RedisClient R)
      → Config fl.F
      → ℕ
      → Next HttpRequest HttpResponse (Instrumented (Behind R S))
  unfolding serve
  new_router_with_client fl itoa redis cfg =
      serve fl itoa redis cfg.rate_limit_enabled (rate_limit_config fl cfg)
