-- ===== src/Observability.antt =====
-- The metrics of HTTP requests (libs/observability/http_metrics.go), as the sequence of calls of
-- the Prometheus client, the newest first.
pub mod Balance
use payment_orchestrator.Base.{ℕ, String, Option, none, some, List, ◌∷◌, str_eq, if◌then◌else◌}

-- `inFlight.Inc`, `inFlight.Dec`, `requestsTotal.Inc` and `latency.Observe`, with the namespace and
-- the labels: the method, and the path and the status.
pub data MetricEvent : Type 0 where
  in_flight_inc : String → String → MetricEvent
  in_flight_dec : String → String → MetricEvent
  request_counted : String → String → String → String → MetricEvent
  latency_observed : String → String → String → String → MetricEvent

-- A state with the metrics beside it.
pub record Instrumented (S : Type 0) : Type 0 where
  pub events : List MetricEvent
  pub inner : S

abbrev pub emit : {S : Type 0} → Instrumented S → MetricEvent → Instrumented S
emit st e = record st { events = e ∷ st.events }

-- What a handler behind the middlewares comes to: a response with the pattern of the route, if
-- there is a routing context, or a panic.
pub data Served (A : Type 0) : Type 0 where
  answered : A → Option String → Served A
  panicked : Served A

-- Over requests `Q`, responses `A` and a state.
abbrev pub Next : Type 0 → Type 0 → Type 0 → Type 0
Next Q A S = Q → S → Served A × S

-- `RecordRequest`
unfoldable pub record_request :
    {S : Type 0} → String → String → String → String → Instrumented S → Instrumented S
record_request namespace method path status st =
    emit st (request_counted namespace method path status)

-- `normalizePath`: the pattern of the route, or the path if there is none.
unfoldable pub normalize_path : Option String → String → String
normalize_path none path = path
normalize_path (some pattern) path =
    if str_eq pattern "" then path else if str_eq pattern "/*" then path else pattern

-- `itoa` is `strconv.Itoa`; the rest is what a request and a response show of themselves.
module _ (itoa : ℕ → String) {Q A S : Type 0} (method_of path_of : Q → String) (code_of : A → ℕ)
    (namespace : String) where
  abbrev pub after_next : Q → Served A × Instrumented S → Served A × Instrumented S
  after_next r (panicked, st) = (panicked, emit st (in_flight_dec namespace (method_of r)))
  after_next r (answered response pattern, st) =
      let status = itoa (code_of response) in
      let path = normalize_path pattern (path_of r) in
      (
        answered response pattern,
        emit
            (emit (emit st (latency_observed namespace (method_of r) path status))
              (request_counted namespace (method_of r) path status))
            (in_flight_dec namespace (method_of r)),
      )

  -- `HTTPMetricsMiddleware`
  unfoldable pub http_metrics_middleware : Next Q A (Instrumented S) → Next Q A (Instrumented S)
  http_metrics_middleware next r st =
      after_next r (next r (emit st (in_flight_inc namespace (method_of r))))
