-- ===== src/Api/Types.antt =====
-- What the HTTP handlers share: the error codes (libs/errors/codes.go), requests and responses, the
-- client of the orchestrator and `writeError` (services/api/internal/http/router.go).
use payment_orchestrator.Base.{ℕ, String, Bool, Option, none, some}
use payment_orchestrator.Base.Int.{ℤ}
use payment_orchestrator.Service.Types.{Code, Message}
use payment_orchestrator.Service.Create.{CreatePayoutRequest, CreatePayoutResponse}
use payment_orchestrator.Service.Get.{GetPayoutResponse}

abbrev pub code_idempotency_conflict : String
code_idempotency_conflict = "IDEMPOTENCY_CONFLICT"

abbrev pub code_invalid_argument : String
code_invalid_argument = "INVALID_ARGUMENT"

abbrev pub code_invalid_state : String
code_invalid_state = "INVALID_STATE"

abbrev pub code_invalid_uuid : String
code_invalid_uuid = "INVALID_UUID"

abbrev pub code_not_found : String
code_not_found = "NOT_FOUND"

abbrev pub code_internal : String
code_internal = "INTERNAL"

-- An error of a call: a status with one of the codes that the payout service returns, another
-- status (of gRPC itself), or no status.
pub data ClientError : Type 0 where
  status : Code → Message → ClientError
  other_status : ClientError
  no_status : ClientError

pub data CallResult (A : Type 0) : Type 0 where
  responded : A → CallResult A
  call_failed : ClientError → CallResult A

-- The interface `PayoutClient`. The first argument of a call is the request id that the context
-- carries; `S` is the state of what is behind the client.
pub record PayoutClient (S : Type 0) : Type 0 where
  pub create_payout : String → CreatePayoutRequest → S → CallResult CreatePayoutResponse × S
  pub get_payout : String → String → S → CallResult GetPayoutResponse × S
  pub cancel_payout : String → String → S → CallResult Bool × S

-- What the service reads of a request: the method and the path, the id that the middleware gave it, the header
-- `Idempotency-Key` (empty if it is missing), the body, and the parameter `id` of the path.
pub record HttpRequest : Type 0 where
  pub method : String
  pub path : String
  pub request_id : String
  pub idempotency_key : String
  pub body : String
  pub id : String

-- `getPayoutResponse`. An empty external id is left out.
pub record PayoutBody : Type 0 where
  pub payout_id : String
  pub status : String
  pub amount : ℤ
  pub currency : String
  pub rail : String
  pub provider : String
  pub external_id : Option String

pub data ResponseBody : Type 0 where
  error_body : String → Message → ResponseBody
  accepted_body : String → String → ResponseBody
  payout_body : PayoutBody → ResponseBody
  success_body : Bool → ResponseBody
  health_body : ResponseBody
  limited_body : ResponseBody
  metrics_body : String → ResponseBody
  no_body : ResponseBody

-- The status, the headers `X-Request-Id` and `Retry-After` if they are set, and the body.
pub record HttpResponse : Type 0 where
  pub code : ℕ
  pub request_id : Option String
  pub retry_after : Option String
  pub body : ResponseBody

abbrev pub HttpHandler : Type 0 → Type 0
HttpHandler S = HttpRequest → S → HttpResponse × S

-- `writeError`
abbrev pub write_error : ℕ → String → Message → HttpResponse
write_error code error_code message = record {
  code = code;
  request_id = none;
  retry_after = none;
  body = error_body error_code message;
}

abbrev pub write_body : ℕ → String → ResponseBody → HttpResponse
write_body code request_id body = record {
  code = code;
  request_id = some request_id;
  retry_after = none;
  body = body;
}
