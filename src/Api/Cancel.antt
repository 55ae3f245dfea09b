-- ===== src/Api/Cancel.antt =====
-- `cancelPayoutHandler` (services/api/internal/http/router.go).
use payment_orchestrator.Base.{String, Bool, str_eq, if◌then◌else◌}
use payment_orchestrator.Service.Types.{invalid_argument, not_found, failed_precondition, text}
use payment_orchestrator.Api.Types.{
  ClientError, status, CallResult, responded, call_failed, PayoutClient, HttpResponse, HttpHandler,
  write_error, write_body, success_body, code_invalid_argument, code_invalid_state,
  code_invalid_uuid, code_not_found, code_internal,
}

abbrev pub cancel_error : ClientError → HttpResponse
cancel_error (status not_found m) = write_error 404 code_not_found (text "payout not found")
cancel_error (status invalid_argument m) = write_error 400 code_invalid_uuid m
cancel_error (status failed_precondition m) = write_error 409 code_invalid_state m
cancel_error _ = write_error 502 code_internal (text "upstream error")

abbrev pub cancel_response : String → CallResult Bool → HttpResponse
cancel_response request_id (call_failed e) = cancel_error e
cancel_response request_id (responded success) = write_body 200 request_id (success_body success)

module _ {S : Type 0} (client : PayoutClient S) where
  unfoldable pub cancel_handler : HttpHandler S
  cancel_handler r s =
      if str_eq r.id ""
      then (write_error 400 code_invalid_argument (text "payout id is required"), s)
      else let (result, s') = client.cancel_payout r.request_id r.id s in
        (cancel_response r.request_id result, s')
