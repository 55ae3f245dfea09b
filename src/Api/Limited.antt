-- ===== src/Api/Limited.antt =====
-- `RateLimitWithConfig` (services/api/internal/http/middleware/ratelimit.go).
use payment_orchestrator.Base.{ℕ, Bool, true, false, Option, none, some}
use payment_orchestrator.Api.Types.{HttpRequest, HttpResponse, limited_body}
use payment_orchestrator.Api.RateLimit.{
  LimitFloat, RedisClient, RateLimitConfig, LimiterState, AllowResult, allowed, rejected,
  check_failed, allow, default_rate_limit_config,
}
use payment_orchestrator.Observability.{Instrumented, Served, answered, Next, record_request}

-- The state of the limiter and what the routes work on.
pub record Behind (R S : Type 0) : Type 0 where
  pub limiter : LimiterState R
  pub upstream : S

abbrev pub too_many_requests : HttpResponse
too_many_requests = record {
  code = 429;
  request_id = none;
  retry_after = some "1";
  body = limited_body;
}

module _ (fl : LimitFloat) {R S : Type 0} where
  unfoldable pub after_allow :
      Next HttpRequest HttpResponse (Instrumented (Behind R S))
      → HttpRequest
      → Instrumented (Behind R S)
      → AllowResult × LimiterState R
      → Served HttpResponse × Instrumented (Behind R S)
  unfolding record_request
  after_allow next r st (check_failed m, limiter) =
      next r (record st { inner = record st.inner { limiter = limiter } })
  after_allow next r st (rejected, limiter) = (
    answered too_many_requests (some ""),
    record_request "api" r.method r.path "429"
        (record st { inner = record st.inner { limiter = limiter } }),
  )
  after_allow next r st (allowed, limiter) =
      next r (record st { inner = record st.inner { limiter = limiter } })

  -- `now` is the time of the check, in milliseconds.
  unfoldable pub rate_limit_with_config :
      Option (RedisClient R)
      → Bool
      → RateLimitConfig fl
      → ℕ
      → Next HttpRequest HttpResponse (Instrumented (Behind R S))
      → Next HttpRequest HttpResponse (Instrumented (Behind R S))
  rate_limit_with_config none enabled config now next r st = next r st
  rate_limit_with_config (some client) false config now next r st = next r st
  rate_limit_with_config (some client) true config now next r st =
      after_allow next r st (allow fl client config "global" now st.inner.limiter)

  -- `RateLimit`; `ten` is the constant 10.0.
  unfoldable pub rate_limit :
      fl.F
      → Option (RedisClient R)
      → Bool
      → ℕ
      → Next HttpRequest HttpResponse (Instrumented (Behind R S))
      → Next HttpRequest HttpResponse (Instrumented (Behind R S))
  unfolding rate_limit_with_config
  rate_limit ten redis enabled now =
      rate_limit_with_config redis enabled (default_rate_limit_config fl ten) now
