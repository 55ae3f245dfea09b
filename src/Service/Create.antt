-- ===== src/Service/Create.antt =====
-- `CreatePayout` and `sendPayoutWithOrchestrator`
-- (services/orchestrator/internal/grpc/payout_service.go).
pub mod Valid
pub mod Transaction
pub mod Cases
pub mod Replay
pub mod Unlisted
pub mod Repeat
pub mod Answers
pub mod Fresh
use payment_orchestrator.Base.{
  ℕ, String, Bool, true, false, not, ◌&&◌, Option, none, some, List, [], ◌∷◌, str_eq, if◌then◌else◌,
}
use payment_orchestrator.Base.Int.{ℤ}
use payment_orchestrator.Domain.{
  Uuid, Time, PayoutState, created, queued, pending, completed, sent, failed, canceled, unset,
  state_eq, state_string, Provider, Payout, IdempotencyKey, CreatePayoutParams, UpdatePayoutParams,
}
use payment_orchestrator.Persistence.Result.{
  Err, idempotency_key_exists, is_not_found, is_key_exists, Result, ok, err,
}
use payment_orchestrator.Persistence.Queries.{Db, Statement, is_in}
use payment_orchestrator.Persistence.Repo
use payment_orchestrator.Persistence.Repo.{Outcome, run_in_tx}
use payment_orchestrator.Provider.Registry.{Registry, RailEntry}
use payment_orchestrator.Provider.SuccessTracker.{SuccessTracker, Float64}
use payment_orchestrator.Provider.Orchestrator
use payment_orchestrator.Provider.Orchestrator.{
  Orchestrator, SendPayoutResult, send_payout_with_fallback,
}
use payment_orchestrator.Service.Types.{
  Code, invalid_argument, not_found, already_exists, failed_precondition, internal, Message, text,
  with_err, with_text, Reply, reply, status, crashed, World, Handler, with_db,
}

pub record CreatePayoutRequest : Type 0 where
  pub idempotency_key : String
  pub request_hash : String
  pub amount : ℤ
  pub currency : String
  pub rail : String

pub record CreatePayoutResponse : Type 0 where
  pub payout_id : String
  pub status : String

-- The zero values `Payout{}` and `IdempotencyKey{}`.
abbrev pub no_payout : Payout
no_payout = record {
  id = 0;
  state = unset;
  amount_cents = ℤ.pos 0;
  currency = "";
  rail = "";
  provider = "";
  external_id = none;
  created_at = 0;
  updated_at = 0;
}

abbrev pub no_key : IdempotencyKey
no_key = record { key = ""; request_hash = ""; payout_id = 0; created_at = 0 }

-- `txResult`
pub record TxResult : Type 0 where
  pub new_payout : Payout
  pub existing_key : IdempotencyKey
  pub inserted : Bool

abbrev pub no_tx_result : TxResult
no_tx_result = record { new_payout = no_payout; existing_key = no_key; inserted = false }

-- The end of the closure of `CreatePayout`: the outcome of the insertion of the key.
abbrev pub key_outcome : Payout → Result (IdempotencyKey × Bool) × Db → Outcome TxResult × Db
key_outcome payout (err e, db) = ((no_tx_result, some e), db)
key_outcome payout (ok (key, inserted), db) = (
  (
    record { new_payout = payout; existing_key = key; inserted = inserted },
    if not inserted then some idempotency_key_exists else none,
  ),
  db,
)

abbrev pub payout_outcome : CreatePayoutRequest → Result Payout × Db → Outcome TxResult × Db
payout_outcome req (err e, db) = ((no_tx_result, some e), db)
payout_outcome req (ok payout, db) =
    key_outcome payout
      (Repo.try_insert_idempotency_key req.idempotency_key req.request_hash payout.id db)

-- The closure that `CreatePayout` runs in a transaction.
unfoldable pub create_in_tx : CreatePayoutRequest → Db → Outcome TxResult × Db
create_in_tx req db = payout_outcome req (
    Repo.create_payout
      (record {
        state = created;
        amount_cents = req.amount;
        currency = req.currency;
        rail = req.rail;
        provider = "";
        external_id = none;
      })
      db)

-- `result.TriedProviders[len(result.TriedProviders)-1]`, if there is one.
abbrev pub last_or_empty : List Provider → Provider
last_or_empty [] = ""
last_or_empty (p ∷ []) = p
last_or_empty (p ∷ q ∷ ps) = last_or_empty (q ∷ ps)

-- What the caller keeps if the update of the state fails: the payout as it was.
abbrev pub or_keep : Payout → Result Payout → Payout
or_keep payout (ok updated) = updated
or_keep payout (err _) = payout

abbrev pub mark_sent : Payout → SendPayoutResult → Statement Payout
mark_sent payout result = Repo.update_payout_state payout.id (record {
  state = sent;
  external_id = some result.external_id;
  provider = result.used_provider;
})

abbrev pub mark_failed : Payout → Provider → Statement Payout
mark_failed payout provider =
    Repo.update_payout_state payout.id
      (record { state = failed; external_id = none; provider = provider })

-- What `sendPayoutWithOrchestrator` does with the result of the sending.
abbrev pub store_result : Payout → SendPayoutResult → Statement Payout
store_result payout result db =
    if result.success
    then mark_sent payout result db
    else mark_failed payout (last_or_empty result.tried_providers) db

module _ (fl : Float64) (intn : ℕ → ℕ) (now : Time) (uuid_string : Uuid → String) {E : Type 0}
    (server : Option (Orchestrator E)) where
  abbrev pub after_sending :
      Payout → World E → Option (SendPayoutResult × SuccessTracker × E) → Option Payout × World E
  after_sending payout w none = (none, w)
  after_sending payout w (some (result, tracker, env)) =
      let (updated, db) = store_result payout result w.db in
      (some (or_keep payout updated), record { db = db; tracker = tracker; env = env })

  -- `none` is a panic of the router.
  unfoldable pub send_payout_with_orchestrator : Payout → World E → Option Payout × World E
  send_payout_with_orchestrator payout w = elim server [
    | none ↦
        let (updated, db) = mark_failed payout "" w.db in
        (some (or_keep no_payout updated), with_db w db)
    | some o ↦
        after_sending payout w (send_payout_with_fallback fl intn now o payout w.tracker w.env)
  ]

  abbrev pub created_reply : Option Payout × World E → Reply CreatePayoutResponse × World E
  created_reply (none, w) = (crashed, w)
  created_reply (some payout, w) =
      (reply (record { payout_id = uuid_string payout.id; status = state_string payout.state }), w)

  abbrev pub existing_reply : World E → Result Payout × Db → Reply CreatePayoutResponse × World E
  existing_reply w (err e, db) =
      (status internal (with_err "fetch existing payout: %v" e), with_db w db)
  existing_reply w (ok existing, db) = (
    reply (record { payout_id = uuid_string existing.id; status = state_string existing.state }),
    with_db w db,
  )

  -- The `switch` of `CreatePayout` on the error of the transaction.
  abbrev pub after_tx :
      CreatePayoutRequest → World E → Outcome TxResult × Db → Reply CreatePayoutResponse × World E
  after_tx req w ((result, none), db) =
      created_reply (send_payout_with_orchestrator result.new_payout (with_db w db))
  after_tx req w ((result, some e), db) =
      if is_key_exists e
      then (if not (str_eq result.existing_key.request_hash req.request_hash)
          then (status already_exists (text "IDEMPOTENCY_CONFLICT"), with_db w db)
          else existing_reply w (Repo.get_payout result.existing_key.payout_id db))
      else (status internal (with_err "create payout: %v" e), with_db w db)

  unfoldable pub create_payout : CreatePayoutRequest → Handler E CreatePayoutResponse
  unfolding create_in_tx
  create_payout req w =
      if str_eq req.idempotency_key ""
      then (status invalid_argument (text "idempotency_key is required"), w)
      else if str_eq req.request_hash ""
      then (status invalid_argument (text "request_hash is required"), w)
      else after_tx req w (run_in_tx no_tx_result (create_in_tx req) w.db)
