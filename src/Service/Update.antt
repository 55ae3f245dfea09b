-- ===== src/Service/Update.antt =====
-- `ApplyProviderUpdate` (services/orchestrator/internal/grpc/payout_service.go).
pub mod Valid
pub mod Found
pub mod Effect
pub mod Why
use payment_orchestrator.Base.{
  ℕ, String, Bool, true, false, not, ◌&&◌, Option, none, some, List, [], ◌∷◌, str_eq, if◌then◌else◌,
}
use payment_orchestrator.Base.Int.{ℤ}
use payment_orchestrator.Domain.{
  Uuid, Time, PayoutState, created, queued, pending, completed, sent, failed, canceled, unset,
  state_eq, state_string, Provider, Payout, IdempotencyKey, CreatePayoutParams, UpdatePayoutParams,
}
use payment_orchestrator.Persistence.Result.{
  Err, idempotency_key_exists, is_not_found, is_key_exists, Result, ok, err,
}
use payment_orchestrator.Persistence.Queries.{Db, Statement, is_in}
use payment_orchestrator.Persistence.Repo
use payment_orchestrator.Persistence.Repo.{Outcome, run_in_tx}
use payment_orchestrator.Service.Types.{
  Code, invalid_argument, not_found, already_exists, failed_precondition, internal, Message, text,
  with_err, with_text, Reply, reply, status, crashed, World, Handler, with_db,
}

pub record ApplyProviderUpdateRequest : Type 0 where
  pub payout_id : String
  pub provider_status : String
  pub provider_reference : String

-- `mapProviderStatusToState`
unfoldable pub map_provider_status_to_state : String → Option PayoutState
map_provider_status_to_state provider_status =
    if str_eq provider_status "payout_succeeded"
    then some completed
    else if str_eq provider_status "payout_failed"
    then some failed
    else if str_eq provider_status "payout_canceled"
    then some canceled
    else none

module _ (parse_uuid : String → Option Uuid) where
  abbrev pub found_by_id : String → Result Payout × Db → Reply Payout × Db
  found_by_id ref (ok payout, db) = (reply payout, db)
  found_by_id ref (err e, db) =
      if is_not_found e
      then (status not_found (with_text "payout %s not found" ref), db)
      else (status internal (with_err "get payout: %v" e), db)

  abbrev pub found_by_external_id : String → Result Payout × Db → Reply Payout × Db
  found_by_external_id ref (ok payout, db) = (reply payout, db)
  found_by_external_id ref (err _, db) = elim (parse_uuid ref) [
    | none ↦ (status not_found (with_text "payout %s not found" ref), db)
    | some id ↦ found_by_id ref (Repo.get_payout id db)
  ]

  unfoldable pub find_payout_by_external_id_or_id : String → Db → Reply Payout × Db
  find_payout_by_external_id_or_id ref db =
      found_by_external_id ref (Repo.find_by_external_id ref db)

module _ (parse_uuid : String → Option Uuid) {E : Type 0} where
  abbrev pub update_reply : World E → Result Payout × Db → Reply Bool × World E
  update_reply w (err e, db) =
      (status internal (with_err "update payout state: %v" e), with_db w db)
  update_reply w (ok _, db) = (reply true, with_db w db)

  abbrev pub apply_found :
      ApplyProviderUpdateRequest → World E → Reply Payout × Db → Reply Bool × World E
  apply_found req w (crashed, db) = (crashed, with_db w db)
  apply_found req w (status c m, db) = (status c m, with_db w db)
  apply_found req w (reply payout, db) = elim (map_provider_status_to_state req.provider_status) [
    | none ↦ (
      status invalid_argument (with_text "unknown provider status: %s" req.provider_status),
      with_db w db,
    )
    | some new_state ↦ update_reply w (
        Repo.update_payout_state payout.id
          (record {
            state = new_state;
            external_id = payout.external_id;
            provider = payout.provider;
          })
          db)
  ]

  unfoldable pub apply_provider_update : ApplyProviderUpdateRequest → Handler E Bool
  unfolding find_payout_by_external_id_or_id map_provider_status_to_state
  apply_provider_update req w =
      if str_eq req.payout_id ""
      then (status invalid_argument (text "payout_id is required"), w)
      else apply_found req w (find_payout_by_external_id_or_id parse_uuid req.payout_id w.db)
