-- ===== src/Service/Get.antt =====
-- `GetPayout` (services/orchestrator/internal/grpc/payout_service.go).
pub mod Reads
use payment_orchestrator.Base.{
  ℕ, String, Bool, true, false, not, ◌&&◌, Option, none, some, List, [], ◌∷◌, str_eq, if◌then◌else◌,
}
use payment_orchestrator.Base.Int.{ℤ}
use payment_orchestrator.Domain.{
  Uuid, Time, PayoutState, created, queued, pending, completed, sent, failed, canceled, unset,
  state_eq, state_string, Provider, Payout, IdempotencyKey, CreatePayoutParams, UpdatePayoutParams,
}
use payment_orchestrator.Persistence.Result.{
  Err, idempotency_key_exists, is_not_found, is_key_exists, Result, ok, err,
}
use payment_orchestrator.Persistence.Queries.{Db, Statement, is_in}
use payment_orchestrator.Persistence.Repo
use payment_orchestrator.Persistence.Repo.{Outcome, run_in_tx}
use payment_orchestrator.Service.Types.{
  Code, invalid_argument, not_found, already_exists, failed_precondition, internal, Message, text,
  with_err, with_text, Reply, reply, status, crashed, World, Handler, with_db,
}

pub record GetPayoutResponse : Type 0 where
  pub payout_id : String
  pub status : String
  pub amount : ℤ
  pub currency : String
  pub provider : String
  pub rail : String
  pub external_id : String

module _ (uuid_string : Uuid → String) (parse_uuid : String → Option Uuid) {E : Type 0} where
  abbrev pub get_reply : World E → Result Payout × Db → Reply GetPayoutResponse × World E
  get_reply w (err e, db) =
      if is_not_found e
      then (status not_found (text "NOT_FOUND"), with_db w db)
      else (status internal (with_err "get payout: %v" e), with_db w db)
  get_reply w (ok payout, db) = (
    reply (record {
      payout_id = uuid_string payout.id;
      status = state_string payout.state;
      amount = payout.amount_cents;
      currency = payout.currency;
      provider = payout.provider;
      rail = payout.rail;
      external_id = Repo.or_empty payout.external_id;
    }),
    with_db w db,
  )

  unfoldable pub get_payout : String → Handler E GetPayoutResponse
  get_payout payout_id w =
      if str_eq payout_id ""
      then (status invalid_argument (text "payout_id is required"), w)
      else elim (parse_uuid payout_id) [
        | none ↦ (status invalid_argument (text "INVALID_UUID"), w)
        | some id ↦ get_reply w (Repo.get_payout id w.db)
      ]
