-- ===== src/Api/Create.antt =====
-- `createPayoutHandlerWithClient` (services/api/internal/http/router.go).
pub mod Cases
use payment_orchestrator.Base.{String, Bool, true, not, Option, none, some, str_eq, if◌then◌else◌}
use payment_orchestrator.Base.Int.{ℤ, pos, ltb_ℤ}
use payment_orchestrator.Service.Types.{already_exists, text}
use payment_orchestrator.Service.Create.{CreatePayoutRequest, CreatePayoutResponse}
use payment_orchestrator.Api.Types.{
  ClientError, status, CallResult, responded, call_failed, PayoutClient, HttpRequest, HttpResponse,
  HttpHandler, write_error, write_body, accepted_body, code_idempotency_conflict,
  code_invalid_argument, code_internal,
}
use payment_orchestrator.Api.Canonical.{Formats, canonical_hash}

-- `createPayoutRequest`
pub record CreateBody : Type 0 where
  pub amount : ℤ
  pub currency : String
  pub rail : String

-- The answer for an error of the call.
abbrev pub create_error : ClientError → HttpResponse
create_error (status already_exists m) =
    write_error 409 code_idempotency_conflict (text "idempotency key reused with different request")
create_error _ = write_error 502 code_internal (text "upstream error")

abbrev pub create_response : String → CallResult CreatePayoutResponse → HttpResponse
create_response request_id (call_failed e) = create_error e
create_response request_id (responded r) =
    write_body 202 request_id (accepted_body r.payout_id r.status)

abbrev pub upstream_request : Formats → HttpRequest → CreateBody → CreatePayoutRequest
upstream_request f r body = record {
  idempotency_key = r.idempotency_key;
  request_hash = canonical_hash f body.amount body.currency body.rail;
  amount = body.amount;
  currency = body.currency;
  rail = body.rail;
}

-- `decode` is the JSON decoder, which fails on a body that is no such object.
module _ (f : Formats) (decode : String → Option CreateBody) {S : Type 0}
    (client : PayoutClient S) where
  abbrev pub send_create : HttpRequest → CreateBody → S → HttpResponse × S
  send_create r body s =
      let (result, s') = client.create_payout r.request_id (upstream_request f r body) s in
      (create_response r.request_id result, s')

  abbrev pub create_decoded : HttpRequest → Option CreateBody → S → HttpResponse × S
  create_decoded r none s = (write_error 400 code_invalid_argument (text "invalid request body"), s)
  create_decoded r (some body) s =
      if not (ltb_ℤ (pos 0) body.amount)
      then (write_error 400 code_invalid_argument (text "amount must be positive"), s)
      else if str_eq body.rail ""
      then (write_error 400 code_invalid_argument (text "rail is required"), s)
      else send_create r body s

  unfoldable pub create_handler : HttpHandler S
  create_handler r s =
      if str_eq r.idempotency_key ""
      then (write_error 400 code_invalid_argument (text "Idempotency-Key header is required"), s)
      else create_decoded r (decode r.body) s
