-- ===== src/Tests/Routes.antt =====
-- Requests through the whole router, with a bucket that is full, and one that is empty.
use payment_orchestrator.Base.{
  ℕ, ◌+◌, ◌≡◌, refl, String, true, false, Option, none, some, [], ◌==◌, str_eq, if◌then◌else◌,
}
use payment_orchestrator.Base.Int.{pos}
use payment_orchestrator.Api.Types.{HttpRequest, HttpResponse}
use payment_orchestrator.Api.Create.{CreateBody}
use payment_orchestrator.Api.RateLimit.{allow, spend}
use payment_orchestrator.Observability.{Instrumented, Served}
use payment_orchestrator.Api.Limited.{Behind}
use payment_orchestrator.Api.Router.{Routed, to_endpoint, unrouted, create_payout, serve, routes}
use payment_orchestrator.Api.Router.Counted.{is_limited, serve-IsBalanced}
use payment_orchestrator.Observability.Balance.{IsBalanced}
use payment_orchestrator.Api.Router.Refused.{IsLike, IsRefused, serve-limited, serve-passed}
use payment_orchestrator.Tests.Limiter.{thousandths, config, one_bucket, limiter_of}
use payment_orchestrator.Tests.Unary.{unary}
use payment_orchestrator.Tests.Http.{counting}

abbrev Limits : Type 0
Limits = Option (String × String)

abbrev match_route : String → String → Routed
match_route method path =
    if str_eq path "/v1/payouts" then to_endpoint create_payout "" else unrouted 404 ""

abbrev show_status : ℕ → String
show_status n = if n == 429 then "429" else "other"

abbrev decode_any : String → Option CreateBody
decode_any s = some (record { amount = pos 2; currency = "eur"; rail = "card" })

abbrev request : HttpRequest
request = record {
  method = "POST";
  path = "/v1/payouts";
  request_id = "r-1";
  idempotency_key = "key_1";
  body = "two euros";
  id = "";
}

abbrev state_of : Limits → Instrumented (Behind Limits ℕ)
state_of r = record { events = []; inner = record { limiter = limiter_of r; upstream = 0 } }

abbrev empty_bucket : Limits
empty_bucket = some ("", "")

abbrev run : Limits → Served HttpResponse × Instrumented (Behind Limits ℕ)
run r =
    serve unary decode_any counting match_route "" thousandths show_status (some one_bucket) true
      config 0 request (state_of r)

serve-IsBalanced_example : IsBalanced [] (run empty_bucket).1.events (
    (if is_limited thousandths (some one_bucket) true config 0 (limiter_of empty_bucket)
      then 1
      else 0)
    + 1)
serve-IsBalanced_example =
    serve-IsBalanced unary decode_any counting match_route "" thousandths show_status
      (some one_bucket) true config 0 request (state_of empty_bucket)

is_empty : is_limited thousandths (some one_bucket) true config 0 (limiter_of empty_bucket) ≡ true
unfolding allow spend
is_empty = refl

serve-limited_example : IsRefused request (state_of empty_bucket) (run empty_bucket)
serve-limited_example =
    serve-limited unary decode_any counting match_route "" thousandths show_status (some one_bucket)
      true config 0 request (state_of empty_bucket) is_empty refl

is_full : is_limited thousandths (some one_bucket) true config 0 (limiter_of none) ≡ false
unfolding allow spend
is_full = refl

serve-passed_example :
    IsLike (run none) (routes unary decode_any counting match_route "" request (state_of none))
serve-passed_example =
    serve-passed unary decode_any counting match_route "" thousandths show_status (some one_bucket)
      true config 0 request (state_of none) is_full
