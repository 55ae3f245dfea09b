-- ===== src/Api/Get.antt =====
-- `getPayoutHandler` (services/api/internal/http/router.go).
use payment_orchestrator.Base.{String, Option, none, some, str_eq, if◌then◌else◌}
use payment_orchestrator.Service.Types.{invalid_argument, not_found, text}
use payment_orchestrator.Service.Get.{GetPayoutResponse}
use payment_orchestrator.Api.Types.{
  ClientError, status, CallResult, responded, call_failed, PayoutClient, HttpResponse, HttpHandler,
  PayoutBody, write_error, write_body, payout_body, code_invalid_argument, code_invalid_uuid,
  code_not_found, code_internal,
}

-- The tag `omitempty`.
abbrev pub omit_empty : String → Option String
omit_empty s = if str_eq s "" then none else some s

abbrev pub body_of : GetPayoutResponse → PayoutBody
body_of r = record {
  payout_id = r.payout_id;
  status = r.status;
  amount = r.amount;
  currency = r.currency;
  rail = r.rail;
  provider = r.provider;
  external_id = omit_empty r.external_id;
}

abbrev pub get_error : ClientError → HttpResponse
get_error (status not_found m) = write_error 404 code_not_found (text "payout not found")
get_error (status invalid_argument m) = write_error 400 code_invalid_uuid m
get_error _ = write_error 502 code_internal (text "upstream error")

abbrev pub get_response : String → CallResult GetPayoutResponse → HttpResponse
get_response request_id (call_failed e) = get_error e
get_response request_id (responded r) = write_body 200 request_id (payout_body (body_of r))

module _ {S : Type 0} (client : PayoutClient S) where
  unfoldable pub get_handler : HttpHandler S
  get_handler r s =
      if str_eq r.id ""
      then (write_error 400 code_invalid_argument (text "payout id is required"), s)
      else let (result, s') = client.get_payout r.request_id r.id s in
        (get_response r.request_id result, s')
