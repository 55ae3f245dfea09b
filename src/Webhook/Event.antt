-- ===== src/Webhook/Event.antt =====
-- The normalized provider events (services/webhook/internal/domain/event.go). The raw payload, which
-- nothing sets, is left out.
use payment_orchestrator.Base.{String, Bool, true, false}
use payment_orchestrator.Domain.{Time}

pub data EventType : Type 0 where
  payout_succeeded payout_failed payout_canceled : EventType

-- `string(event.Type)`
unfoldable pub event_type_string : EventType → String
event_type_string payout_succeeded = "payout_succeeded"
event_type_string payout_failed = "payout_failed"
event_type_string payout_canceled = "payout_canceled"

pub data EventStatus : Type 0 where
  received processing processed failed : EventStatus

pub record ProviderEvent : Type 0 where
  pub provider : String
  pub external_id : String
  pub event_id : String
  pub type : EventType
  pub status : EventStatus
  pub occurred_at : Time
  pub error_code : String
  pub error_message : String

unfoldable pub is_processed : ProviderEvent → Bool
is_processed e = elim e.status [ processed ↦ true | _ ↦ false ]

unfoldable pub is_failure : ProviderEvent → Bool
is_failure e = elim e.type [ payout_failed ↦ true | _ ↦ false ]
