-- ===== src/Observability/Balance.antt =====
-- What the events of the metrics of HTTP requests add up to (libs/observability/http_metrics.go).
use payment_orchestrator.Base.{
  ℕ, suc, ◌+◌, ◌≡◌, String, Option, List, [], ◌∷◌, arith, str_eq, if◌then◌else◌,
}
use payment_orchestrator.Observability.{
  MetricEvent, in_flight_inc, in_flight_dec, request_counted, latency_observed, Instrumented,
  Served, answered, panicked, after_next,
}

-- How often requests with a method began and ended.
abbrev pub begun : String → List MetricEvent → ℕ
begun m [] = 0
begun m (in_flight_inc ns m' ∷ es) = (if str_eq m' m then 1 else 0) + begun m es
begun m (in_flight_dec ns m' ∷ es) = begun m es
begun m (request_counted ns m' p s ∷ es) = begun m es
begun m (latency_observed ns m' p s ∷ es) = begun m es

abbrev pub ended : String → List MetricEvent → ℕ
ended m [] = 0
ended m (in_flight_inc ns m' ∷ es) = ended m es
ended m (in_flight_dec ns m' ∷ es) = (if str_eq m' m then 1 else 0) + ended m es
ended m (request_counted ns m' p s ∷ es) = ended m es
ended m (latency_observed ns m' p s ∷ es) = ended m es

-- How often requests were counted in `requests_total`, over all labels.
abbrev pub counted : List MetricEvent → ℕ
counted [] = 0
counted (in_flight_inc ns m' ∷ es) = counted es
counted (in_flight_dec ns m' ∷ es) = counted es
counted (request_counted ns m' p s ∷ es) = suc (counted es)
counted (latency_observed ns m' p s ∷ es) = counted es

-- Every request that began has ended, and requests were counted so many times.
pub record IsBalanced (before after : List MetricEvent) (times : ℕ) : Type 0 where
  pub in_flight_kept :
      (m : String) → begun m after + ended m before ≡ begun m before + ended m after
  pub counted_times : counted after ≡ times + counted before

no_answer :
    {A : Type 0} (response : A) (pattern : Option String)
    → ◌≡◌ {A = Served A} panicked (answered response pattern)
    → ⊥
no_answer response pattern h = ground arith

-- After the middleware has counted an answer, one request more was counted than before it.
pub after_next-IsBalanced :
    (itoa : ℕ → String) {Q A S : Type 0} (method_of path_of : Q → String) (code_of : A → ℕ)
    (namespace : String) (r : Q) (o : Served A × Instrumented S) (before : List MetricEvent)
    (times : ℕ) (response : A) (pattern : Option String)
    → o.0 ≡ answered response pattern
    → ((m : String)
        → begun m o.1.events ≡ (if str_eq (method_of r) m then 1 else 0) + begun m before)
    → ((m : String) → ended m o.1.events ≡ ended m before)
    → counted o.1.events ≡ times + counted before
    → IsBalanced before
        (after_next itoa method_of path_of code_of namespace r o).1.events
        (times + 1)
after_next-IsBalanced itoa {A} method_of path_of code_of namespace r (panicked, st) before times
      response pattern gave begins ends counts =
    absurd (no_answer response pattern gave)
after_next-IsBalanced itoa method_of path_of code_of namespace r (answered a p, st) before times
      response pattern gave begins ends counts =
    record {
      in_flight_kept = λ m. omega (arith, begins m, ends m);
      counted_times = omega (arith, counts);
    }
