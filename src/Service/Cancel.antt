-- ===== src/Service/Cancel.antt =====
-- `CancelPayout` (services/orchestrator/internal/grpc/payout_service.go).
pub mod Valid
pub mod Effect
pub mod Why
use payment_orchestrator.Base.{
  ℕ, String, Bool, true, false, not, ◌&&◌, Option, none, some, List, [], ◌∷◌, str_eq, if◌then◌else◌,
}
use payment_orchestrator.Base.Int.{ℤ}
use payment_orchestrator.Domain.{
  Uuid, Time, PayoutState, created, queued, pending, completed, sent, failed, canceled, unset,
  state_eq, state_string, Provider, Payout, IdempotencyKey, CreatePayoutParams, UpdatePayoutParams,
}
use payment_orchestrator.Persistence.Result.{
  Err, idempotency_key_exists, is_not_found, is_key_exists, Result, ok, err,
}
use payment_orchestrator.Persistence.Queries.{Db, Statement, is_in}
use payment_orchestrator.Persistence.Repo
use payment_orchestrator.Persistence.Repo.{Outcome, run_in_tx}
use payment_orchestrator.Provider.Registry.{Registry, RailEntry}
use payment_orchestrator.Provider.SuccessTracker.{SuccessTracker, Float64}
use payment_orchestrator.Provider.Orchestrator
use payment_orchestrator.Provider.Orchestrator.{
  Orchestrator, SendPayoutResult, send_payout_with_fallback,
}
use payment_orchestrator.Service.Types.{
  Code, invalid_argument, not_found, already_exists, failed_precondition, internal, Message, text,
  with_err, with_text, Reply, reply, status, crashed, World, Handler, with_db,
}

-- `cancelableStates`
abbrev pub cancelable_states : List PayoutState
cancelable_states = created ∷ queued ∷ sent ∷ pending ∷ []

module _ {E : Type 0} (iteration : Registry E → List (RailEntry E))
    (parse_uuid : String → Option Uuid) (server : Option (Orchestrator E)) where
  -- The provider is asked to cancel if one is set; its error is logged and dropped.
  abbrev pub ask_provider : Payout → World E → World E
  ask_provider payout w = elim server [
    | none ↦ w
    | some o ↦
        if not (str_eq payout.provider "")
        then record w { env = (Orchestrator.cancel_payout iteration o payout w.env).1 }
        else w
  ]

  abbrev pub cancel_reply : World E → Result Payout × Db → Reply Bool × World E
  cancel_reply w (err e, db) = (status internal (with_err "cancel payout: %v" e), with_db w db)
  cancel_reply w (ok _, db) = (reply true, with_db w db)

  -- What `CancelPayout` does with the payout that it read.
  abbrev pub cancel_found : Uuid → Result Payout → World E → Reply Bool × World E
  cancel_found id (err e) w =
      if is_not_found e
      then (status not_found (text "NOT_FOUND"), w)
      else (status internal (with_err "get payout: %v" e), w)
  cancel_found id (ok payout) w =
      if not (is_in payout.state cancelable_states)
      then (
        status failed_precondition (
            with_text "INVALID_STATE: payout cannot be canceled in state %q"
              (state_string payout.state)),
        w,
      )
      else let w' = ask_provider payout w in
        cancel_reply w' (Repo.cancel_payout id cancelable_states w'.db)

  unfoldable pub cancel_payout : String → Handler E Bool
  cancel_payout payout_id w =
      if str_eq payout_id ""
      then (status invalid_argument (text "payout_id is required"), w)
      else elim (parse_uuid payout_id) [
        | none ↦ (status invalid_argument (text "INVALID_UUID"), w)
        | some id ↦
            let (found, db) = Repo.get_payout id w.db in cancel_found id found (with_db w db)
      ]
