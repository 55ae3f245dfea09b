-- ===== src/Webhook/Router/Traced.antt =====
-- What every request that goes through the router of the webhook service comes to.
use payment_orchestrator.Base.{ℕ, ◌≡◌, refl, String, Bool, Option, some, ◌∷◌, arith}
use payment_orchestrator.Service.Update.{ApplyProviderUpdateRequest}
use payment_orchestrator.Webhook.Parser.{StripeEvent}
use payment_orchestrator.Webhook.Dedup.{Redis, new_service_ttl}
use payment_orchestrator.Webhook.Handler.{State, serve_http}
use payment_orchestrator.Observability.{
  in_flight_inc, Instrumented, Served, answered, after_next, http_metrics_middleware, emit,
}
use payment_orchestrator.Observability.Balance.{IsBalanced, after_next-IsBalanced}
use payment_orchestrator.Webhook.Router.{
  Incoming, Outgoing, Body, metrics_text, healthy, handled, no_route, Routed, to_endpoint, unrouted,
  metrics, health, stripe, method_of, path_of, code_of, id_of, with_id, request_id_middleware,
  serve_routed, routes, new_router,
}

-- The response has the request id, the request was counted once and is no longer in flight, and
-- the rest of the state is as the routes left it.
pub record IsTraced {S : Type 0} (id : String) (st : Instrumented S)
    (direct o : Served Outgoing × Instrumented S) : Type 0 where
  pub response : Outgoing
  pub pattern : Option String
  pub gave : o.0 ≡ answered response pattern
  pub direct_gave : direct.0 ≡ answered (record response { request_id = "" }) pattern
  pub has_id : response.request_id ≡ id
  pub balanced : IsBalanced st.events o.1.events 1
  pub inner_left : o.1.inner ≡ direct.1.inner

-- A route that answers and leaves the metrics alone is traced.
answered-IsTraced :
    {S : Type 0} (itoa : ℕ → String) (id : String) (r : Incoming) (st : Instrumented S) (inner : S)
    (body : Body) (pattern : Option String)
    → IsTraced id st
        (answered (record { request_id = ""; body = body }) pattern, record st { inner = inner })
        (with_id id (
          after_next itoa method_of path_of code_of "webhook" r (
            answered (record { request_id = ""; body = body }) pattern,
            record { events = in_flight_inc "webhook" (method_of r) ∷ st.events; inner = inner },
          )))
answered-IsTraced itoa id r st inner body pattern = record {
  response = record { request_id = id; body = body };
  pattern = pattern;
  gave = refl;
  direct_gave = refl;
  has_id = refl;
  balanced =
      after_next-IsBalanced itoa method_of path_of code_of "webhook" r
        (
          answered (record { request_id = ""; body = body }) pattern,
          record { events = in_flight_inc "webhook" (method_of r) ∷ st.events; inner = inner },
        )
        st.events 0 (record { request_id = ""; body = body }) pattern refl (λ m. refl) (λ m. refl)
        (omega arith);
  inner_left = refl;
}

module _ {R W : Type 0} (redis : Redis R) (construct_event : String → String → Option StripeEvent)
    (apply : ApplyProviderUpdateRequest → W → Bool × W) (chi : String → String → Routed)
    (scrape : ℕ × String) where
  routed-IsTraced :
      (itoa : ℕ → String) (id : String) (to : Routed) (r : Incoming) (st : Instrumented (State R W))
      → IsTraced id st (serve_routed redis construct_event apply chi scrape to r st) (
          with_id id (
            after_next itoa method_of path_of code_of "webhook"
              (record r { request_id = id })
              (serve_routed redis construct_event apply chi scrape to
                (record r { request_id = id })
                (emit st (in_flight_inc "webhook" (method_of r))))))
  routed-IsTraced itoa id (to_endpoint metrics) r st =
      answered-IsTraced itoa id (record r { request_id = id }) st st.inner
        (metrics_text scrape.0 scrape.1) (some "/metrics")
  routed-IsTraced itoa id (to_endpoint health) r st =
      answered-IsTraced itoa id (record r { request_id = id }) st st.inner healthy (some "/healthz")
  routed-IsTraced itoa id (to_endpoint stripe) r st =
      let out = serve_http redis (new_service_ttl 0) construct_event apply r.request st.inner in
      answered-IsTraced itoa id (record r { request_id = id }) st out.1 (handled out.0)
        (some "/v1/webhooks/stripe")
  routed-IsTraced itoa id (unrouted code pattern) r st =
      answered-IsTraced itoa id (record r { request_id = id }) st st.inner (no_route code)
        (some pattern)

  -- Whatever route a request takes, the router of the webhook service answers it with the response
  -- of that route alone and the header `X-Request-Id`, which is the one of the request, or the new
  -- id if that is missing; the middleware of the metrics counts it once in all and leaves no
  -- request of it in flight; and the keys and the orchestrator are left as the route alone leaves
  -- them.
  pub new_router-IsTraced :
      (itoa : ℕ → String) (new_id : String) (r : Incoming) (st : Instrumented (State R W))
      → IsTraced
          (id_of new_id r)
          st
          (routes redis construct_event apply chi scrape r st)
          (new_router redis construct_event apply chi scrape itoa new_id r st)
  unfolding new_router request_id_middleware http_metrics_middleware
  new_router-IsTraced itoa new_id r st =
      routed-IsTraced itoa (id_of new_id r) (chi (method_of r) r.path) r st
