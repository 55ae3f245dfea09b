-- ===== src/Domain.antt =====
-- The domain types (services/orchestrator/internal/domain/payout.go).
--
-- `PayoutState` is a Go string type; the values are its eight constants, which are all that the
-- service writes, and the empty text of the zero value `Payout{}`. `Rail` and `Provider` stay
-- texts: a rail comes from the request as it is, and the empty provider means that none is set yet.
use payment_orchestrator.Base.{ℕ, String, Option, Bool, true, false}
use payment_orchestrator.Base.Int.{ℤ}

-- A 128-bit identifier, which the program only compares, prints and parses.
abbrev pub Uuid : Type 0
Uuid = ℕ

-- A point in time, which the program only stores.
abbrev pub Time : Type 0
Time = ℕ

pub data PayoutState : Type 0 where
  created queued pending processing completed sent failed canceled unset : PayoutState

-- `string(state)`
unfoldable pub state_string : PayoutState → String
state_string created = "created"
state_string queued = "queued"
state_string pending = "pending"
state_string processing = "processing"
state_string completed = "completed"
state_string sent = "sent"
state_string failed = "failed"
state_string canceled = "canceled"
state_string unset = ""

-- `a == b` on states.
abbrev pub state_eq : PayoutState → PayoutState → Bool
state_eq created created = true
state_eq queued queued = true
state_eq pending pending = true
state_eq processing processing = true
state_eq completed completed = true
state_eq sent sent = true
state_eq failed failed = true
state_eq canceled canceled = true
state_eq unset unset = true
state_eq _ _ = false

abbrev pub Rail : Type 0
Rail = String

abbrev pub rail_card : Rail
rail_card = "card"

abbrev pub rail_crypto : Rail
rail_crypto = "crypto"

abbrev pub Provider : Type 0
Provider = String

abbrev pub provider_stripe : Provider
provider_stripe = "stripe"

abbrev pub provider_crypto_sim : Provider
provider_crypto_sim = "crypto_sim"

abbrev pub provider_mock_card : Provider
provider_mock_card = "mock_card"

-- The weight is Go's signed `int`.
pub record ProviderMeta : Type 0 where
  pub provider : Provider
  pub is_active : Bool
  pub weight : ℤ

pub record Payout : Type 0 where
  pub id : Uuid
  pub state : PayoutState
  pub amount_cents : ℤ
  pub currency : String
  pub rail : Rail
  pub provider : Provider
  pub external_id : Option String
  pub created_at : Time
  pub updated_at : Time

pub record IdempotencyKey : Type 0 where
  pub key : String
  pub request_hash : String
  pub payout_id : Uuid
  pub created_at : Time

pub record CreatePayoutParams : Type 0 where
  pub state : PayoutState
  pub amount_cents : ℤ
  pub currency : String
  pub rail : Rail
  pub provider : Provider
  pub external_id : Option String

pub record UpdatePayoutParams : Type 0 where
  pub state : PayoutState
  pub external_id : Option String
  pub provider : Provider
