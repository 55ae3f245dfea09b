-- ===== src/Api/Router/Counted.antt =====
-- What the metrics record of a request that goes through the router.
use payment_orchestrator.Base.{
  ℕ, ◌+◌, ◌≡◌, refl, String, Bool, true, false, Option, none, some, arith, if◌then◌else◌, ap, ◌∙◌,
}
use payment_orchestrator.Api.Types.{HttpRequest, HttpResponse, PayoutClient}
use payment_orchestrator.Api.Canonical.{Formats}
use payment_orchestrator.Api.Create.{CreateBody}
use payment_orchestrator.Api.RateLimit.{
  LimitFloat, RedisClient, RateLimitConfig, LimiterState, AllowResult, allowed, rejected,
  check_failed, allow,
}
use payment_orchestrator.Observability.Balance.{
  begun, ended, counted, IsBalanced, after_next-IsBalanced,
}
use payment_orchestrator.Observability.{
  in_flight_inc, Instrumented, Served, answered, http_metrics_middleware, record_request, emit,
}
use payment_orchestrator.Api.Limited.{Behind, after_allow, rate_limit_with_config}
use payment_orchestrator.Api.Router.{
  method_of, path_of, code_of, metrics, health, create_payout, get_payout, cancel_payout, Routed,
  to_endpoint, unrouted, serve_routed, routes, serve,
}

abbrev pub is_rejected : AllowResult → Bool
is_rejected rejected = true
is_rejected allowed = false
is_rejected (check_failed m) = false

-- Whether the limiter is there and refuses the request. A check that fails does not refuse it.
abbrev pub is_limited :
    (fl : LimitFloat)
    → {R : Type 0} → Option (RedisClient R)
    → Bool
    → RateLimitConfig fl
    → ℕ
    → LimiterState R
    → Bool
is_limited fl none enabled config now limiter = false
is_limited fl (some client) false config now limiter = false
is_limited fl (some client) true config now limiter =
    is_rejected (allow fl client config "global" now limiter).0

module _ (f : Formats) (decode : String → Option CreateBody) {R S : Type 0}
    (client : PayoutClient S) (chi : String → String → Routed) (scrape : String) where
  serve_routed_events :
      (to : Routed) (r : HttpRequest) (st : Instrumented (Behind R S))
      → (serve_routed f decode client chi scrape to r st).1.events ≡ st.events
  serve_routed_events (to_endpoint metrics id) r st = refl
  serve_routed_events (to_endpoint health id) r st = refl
  serve_routed_events (to_endpoint create_payout id) r st = refl
  serve_routed_events (to_endpoint get_payout id) r st = refl
  serve_routed_events (to_endpoint cancel_payout id) r st = refl
  serve_routed_events (unrouted code pattern) r st = refl

  serve_routed_answers :
      (to : Routed) (r : HttpRequest) (st : Instrumented (Behind R S))
      → (response : HttpResponse) × (pattern : Option String) × ((serve_routed f decode client chi
            scrape to r st).0
          ≡ answered response pattern)
  serve_routed_answers (to_endpoint metrics id) r st = (_, _, refl)
  serve_routed_answers (to_endpoint health id) r st = (_, _, refl)
  serve_routed_answers (to_endpoint create_payout id) r st = (_, _, refl)
  serve_routed_answers (to_endpoint get_payout id) r st = (_, _, refl)
  serve_routed_answers (to_endpoint cancel_payout id) r st = (_, _, refl)
  serve_routed_answers (unrouted code pattern) r st = (_, _, refl)

  -- What comes out of the limiter, before the middleware of the metrics goes on.
  record Passed (st : Instrumented (Behind R S))
      (o : Served HttpResponse × Instrumented (Behind R S)) (times : ℕ) : Type 0 where
    gave : (response : HttpResponse) × (pattern : Option String) × (o.0 ≡ answered response pattern)
    begins : (m : String) → begun m o.1.events ≡ begun m st.events
    ends : (m : String) → ended m o.1.events ≡ ended m st.events
    counts : counted o.1.events ≡ times + counted st.events

  routes-Passed :
      (r : HttpRequest) (st st' : Instrumented (Behind R S))
      → st'.events ≡ st.events
      → Passed st (routes f decode client chi scrape r st') 0
  routes-Passed r st st' same =
      let kept = serve_routed_events (chi r.method r.path) r st' ∙ same in
      record {
        gave = serve_routed_answers (chi r.method r.path) r st';
        begins = λ m. ap (begun m) kept;
        ends = λ m. ap (ended m) kept;
        counts = omega (arith, ap counted kept);
      }

  module _ (fl : LimitFloat) (itoa : ℕ → String) where
    after_allow-Passed :
        (r : HttpRequest) (st : Instrumented (Behind R S)) (o : AllowResult × LimiterState R)
        → Passed st
            (after_allow fl (routes f decode client chi scrape) r st o)
            (if is_rejected o.0 then 1 else 0)
    unfolding after_allow record_request
    after_allow-Passed r st (allowed, limiter) = routes-Passed r st _ refl
    after_allow-Passed r st (check_failed m, limiter) = routes-Passed r st _ refl
    after_allow-Passed r st (rejected, limiter) = record {
      gave = (_, _, refl);
      begins = λ m. refl;
      ends = λ m. refl;
      counts = omega arith;
    }

    limiter-Passed :
        (redis : Option (RedisClient R)) (enabled : Bool) (config : RateLimitConfig fl) (now : ℕ)
        (r : HttpRequest) (st : Instrumented (Behind R S))
        → Passed st
            (rate_limit_with_config fl redis enabled config now
              (routes f decode client chi scrape)
              r
              st)
            (if is_limited fl redis enabled config now st.inner.limiter then 1 else 0)
    unfolding rate_limit_with_config
    limiter-Passed none enabled config now r st = routes-Passed r st st refl
    limiter-Passed (some redis) false config now r st = routes-Passed r st st refl
    limiter-Passed (some redis) true config now r st =
        after_allow-Passed r st (allow fl redis config "global" now st.inner.limiter)

    -- A request that goes through the router leaves as many requests in flight, for every method, as
    -- there were, and is counted once in `requests_total`, or twice if the limiter refuses it.
    pub serve-IsBalanced :
        (redis : Option (RedisClient R)) (enabled : Bool) (config : RateLimitConfig fl) (now : ℕ)
        (r : HttpRequest) (st : Instrumented (Behind R S))
        → IsBalanced st.events
            (serve f decode client chi scrape fl itoa redis enabled config now r st).1.events
            ((if is_limited fl redis enabled config now st.inner.limiter then 1 else 0) + 1)
    unfolding serve http_metrics_middleware
    serve-IsBalanced redis enabled config now r st =
        let begin = emit st (in_flight_inc "api" r.method) in
        let passed = limiter-Passed redis enabled config now r begin in
        let (response, pattern, gave) = passed.gave in
        after_next-IsBalanced itoa method_of path_of code_of "api" r _ st.events
          (if is_limited fl redis enabled config now st.inner.limiter then 1 else 0) response
          pattern gave passed.begins passed.ends passed.counts
