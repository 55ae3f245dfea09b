-- ===== src/Api/Router/Refused.antt =====
-- What the limiter of the router refuses, and what it lets through.
use payment_orchestrator.Base.{
  ℕ, ◌≡◌, refl, String, Bool, true, false, Option, none, some, ◌∷◌, arith,
}
use payment_orchestrator.Api.Types.{HttpResponse, HttpRequest, PayoutClient}
use payment_orchestrator.Api.Canonical.{Formats}
use payment_orchestrator.Api.Create.{CreateBody}
use payment_orchestrator.Api.RateLimit.{
  LimitFloat, RedisClient, RateLimitConfig, LimiterState, AllowResult, allowed, rejected,
  check_failed, allow,
}
use payment_orchestrator.Observability.{
  in_flight_inc, in_flight_dec, request_counted, latency_observed, Instrumented, Served, answered,
  panicked, after_next, http_metrics_middleware, record_request, emit, normalize_path,
}
use payment_orchestrator.Api.Limited.{
  Behind, after_allow, rate_limit_with_config, too_many_requests,
}
use payment_orchestrator.Api.Router.{
  method_of, path_of, code_of, metrics, health, create_payout, get_payout, cancel_payout, Routed,
  to_endpoint, unrouted, serve_routed, routes, serve,
}
use payment_orchestrator.Api.Router.Counted.{is_rejected, is_limited}

-- The same answer, and the same state of the orchestrator.
pub record IsLike {R S : Type 0} (o o' : Served HttpResponse × Instrumented (Behind R S))
    : Type 0 where
  pub answer_same : o.0 ≡ o'.0
  pub upstream_same : o.1.inner.upstream ≡ o'.1.inner.upstream

-- The answer is 429, the orchestrator was not called, and the request was counted twice.
pub record IsRefused {R S : Type 0} (r : HttpRequest) (st : Instrumented (Behind R S))
    (o : Served HttpResponse × Instrumented (Behind R S)) : Type 0 where
  pub response : o.0 ≡ answered too_many_requests (some "")
  pub upstream_kept : o.1.inner.upstream ≡ st.inner.upstream
  pub recorded :
      o.1.events
      ≡ in_flight_dec "api" r.method
        ∷ request_counted "api" r.method r.path "429"
        ∷ latency_observed "api" r.method r.path "429"
        ∷ request_counted "api" r.method r.path "429"
        ∷ in_flight_inc "api" r.method
        ∷ st.events

module _ (f : Formats) (decode : String → Option CreateBody) {R S : Type 0}
    (client : PayoutClient S) (chi : String → String → Routed) (scrape : String) where
  serve_routed-IsLike :
      (to : Routed) (r : HttpRequest) (st st' : Instrumented (Behind R S))
      → st.inner.upstream ≡ st'.inner.upstream
      → IsLike
          (serve_routed f decode client chi scrape to r st)
          (serve_routed f decode client chi scrape to r st')
  serve_routed-IsLike (to_endpoint metrics id) r st st' same = record {
    answer_same = refl;
    upstream_same = same;
  }
  serve_routed-IsLike (to_endpoint health id) r st st' same = record {
    answer_same = refl;
    upstream_same = same;
  }
  serve_routed-IsLike (to_endpoint create_payout id) r st st' same = record {
    answer_same = rw same refl;
    upstream_same = rw same refl;
  }
  serve_routed-IsLike (to_endpoint get_payout id) r st st' same = record {
    answer_same = rw same refl;
    upstream_same = rw same refl;
  }
  serve_routed-IsLike (to_endpoint cancel_payout id) r st st' same = record {
    answer_same = rw same refl;
    upstream_same = rw same refl;
  }
  serve_routed-IsLike (unrouted code pattern) r st st' same = record {
    answer_same = refl;
    upstream_same = same;
  }

  module _ (fl : LimitFloat) (itoa : ℕ → String) where
    after_allow-IsRefused :
        (r : HttpRequest) (st : Instrumented (Behind R S)) (o : AllowResult × LimiterState R)
        → is_rejected o.0 ≡ true
        → itoa 429 ≡ "429"
        → IsRefused r st (
            after_next itoa method_of path_of code_of "api" r (
              after_allow fl
                (routes f decode client chi scrape)
                r
                (emit st (in_flight_inc "api" r.method))
                o))
    unfolding after_allow record_request normalize_path
    after_allow-IsRefused r st (allowed, limiter) refused shown = ground arith
    after_allow-IsRefused r st (check_failed m, limiter) refused shown = ground arith
    after_allow-IsRefused r st (rejected, limiter) refused shown = record {
      response = refl;
      upstream_kept = refl;
      recorded = rw shown refl;
    }

    -- When the limiter refuses a request, the answer is 429 with Retry-After, the orchestrator is not
    -- called, and the request is counted twice under the same labels: by the limiter and by the
    -- middleware of the metrics around it.
    pub serve-limited :
        (redis : Option (RedisClient R)) (enabled : Bool) (config : RateLimitConfig fl) (now : ℕ)
        (r : HttpRequest) (st : Instrumented (Behind R S))
        → is_limited fl redis enabled config now st.inner.limiter ≡ true
        → itoa 429 ≡ "429"
        → IsRefused r st (serve f decode client chi scrape fl itoa redis enabled config now r st)
    unfolding serve http_metrics_middleware rate_limit_with_config
    serve-limited none enabled config now r st limited shown = ground arith
    serve-limited (some redis) false config now r st limited shown = ground arith
    serve-limited (some redis) true config now r st limited shown =
        after_allow-IsRefused r st (allow fl redis config "global" now st.inner.limiter) limited
          shown

    after_next-IsLike :
        (r : HttpRequest) (o o' : Served HttpResponse × Instrumented (Behind R S))
        → IsLike o o'
        → IsLike (after_next itoa method_of path_of code_of "api" r o) o'
    after_next-IsLike r (panicked, st) o' like = record {
      answer_same = like.answer_same;
      upstream_same = like.upstream_same;
    }
    after_next-IsLike r (answered response pattern, st) o' like = record {
      answer_same = like.answer_same;
      upstream_same = like.upstream_same;
    }

    after_allow-IsLike :
        (r : HttpRequest) (st st' : Instrumented (Behind R S)) (o : AllowResult × LimiterState R)
        → is_rejected o.0 ≡ false
        → st'.inner.upstream ≡ st.inner.upstream
        → IsLike
            (after_allow fl (routes f decode client chi scrape) r st' o)
            (routes f decode client chi scrape r st)
    unfolding after_allow
    after_allow-IsLike r st st' (allowed, limiter) passed same =
        serve_routed-IsLike (chi r.method r.path) r _ st same
    after_allow-IsLike r st st' (check_failed m, limiter) passed same =
        serve_routed-IsLike (chi r.method r.path) r _ st same
    after_allow-IsLike r st st' (rejected, limiter) passed same = ground arith

    -- When the limiter is off, has no Redis, allows a request or fails to check it, the request is
    -- answered as by the routes themselves, and the orchestrator is left as by them.
    pub serve-passed :
        (redis : Option (RedisClient R)) (enabled : Bool) (config : RateLimitConfig fl) (now : ℕ)
        (r : HttpRequest) (st : Instrumented (Behind R S))
        → is_limited fl redis enabled config now st.inner.limiter ≡ false
        → IsLike
            (serve f decode client chi scrape fl itoa redis enabled config now r st)
            (routes f decode client chi scrape r st)
    unfolding serve http_metrics_middleware rate_limit_with_config
    serve-passed none enabled config now r st passed = after_next-IsLike r _ _ (
        serve_routed-IsLike (chi r.method r.path) r (emit st (in_flight_inc "api" r.method)) st
          refl)
    serve-passed (some redis) false config now r st passed = after_next-IsLike r _ _ (
        serve_routed-IsLike (chi r.method r.path) r (emit st (in_flight_inc "api" r.method)) st
          refl)
    serve-passed (some redis) true config now r st passed = after_next-IsLike r _ _ (
        after_allow-IsLike r st (emit st (in_flight_inc "api" r.method))
          (allow fl redis config "global" now st.inner.limiter) passed refl)
