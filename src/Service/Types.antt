-- ===== src/Service/Types.antt =====
-- What the handlers of the payout service share: statuses, answers and the state of the service
-- (services/orchestrator/internal/grpc/payout_service.go).
use payment_orchestrator.Base.{String}
use payment_orchestrator.Persistence.Result.{Err}
use payment_orchestrator.Persistence.Queries.{Db}
use payment_orchestrator.Provider.SuccessTracker.{SuccessTracker}

-- The status codes that the service returns.
pub data Code : Type 0 where
  invalid_argument not_found already_exists failed_precondition internal : Code

-- A message: a fixed text, or a format with what is put into it.
pub data Message : Type 0 where
  text : String → Message
  with_err : String → Err → Message
  with_text : String → String → Message

-- An answer, an error status, or the panic of a routing that indexes out of range.
pub data Reply (A : Type 0) : Type 0 where
  reply : A → Reply A
  status : Code → Message → Reply A
  crashed : Reply A

pub record World (E : Type 0) : Type 0 where
  pub db : Db
  pub tracker : SuccessTracker
  pub env : E

abbrev pub Handler : Type 0 → Type 0 → Type 0
Handler E A = World E → Reply A × World E

abbrev pub with_db : {E : Type 0} → World E → Db → World E
with_db w db = record w { db = db }
