-- ===== src/Service/Create/Valid.antt =====
-- The tables under `CreatePayout`.
use payment_orchestrator.Base.{
  ℕ, ◌≡◌, refl, ◌≢◌, String, Bool, Option, none, some, str_eq, Bool-cases, Option-cases, inl, inr,
  sym, ap, ◌∙◌,
}
use mathlib.Core.Path.{subst}
use payment_orchestrator.Domain.{Uuid, Time, Payout, IdempotencyKey}
use payment_orchestrator.Persistence.Result.{Result, ok, err, is_key_exists}
use payment_orchestrator.Persistence.Queries.{Db, find_payout}
use payment_orchestrator.Persistence.Queries.Valid.{IsValid, IsValidDb}
use payment_orchestrator.Persistence.Repo
use payment_orchestrator.Persistence.Repo.{Outcome, run_in_tx}
use payment_orchestrator.Persistence.Repo.Valid
use payment_orchestrator.Provider.SuccessTracker.{SuccessTracker, Float64}
use payment_orchestrator.Provider.Orchestrator.{Orchestrator, SendPayoutResult}
use payment_orchestrator.Service.Types.{World, with_db}
use payment_orchestrator.Service.Create
use payment_orchestrator.Service.Create.{
  CreatePayoutRequest, TxResult, no_tx_result, create_in_tx, payout_outcome, key_outcome,
  store_result, after_sending, created_reply, existing_reply, after_tx,
  send_payout_with_orchestrator,
}
use payment_orchestrator.Service.Valid.{IsValidWorld}

key_outcome_tables :
    (p : Payout) (o : Result (IdempotencyKey × Bool) × Db) → (key_outcome p o).1 ≡ o.1
key_outcome_tables p (ok k, db) = refl
key_outcome_tables p (err e, db) = refl

payout_outcome-IsValid :
    (req : CreatePayoutRequest) (o : Result Payout × Db)
    → ((p : Payout) → o.0 ≡ ok p → find_payout p.id o.1.tables.payouts ≢ none)
    → IsValidDb o.1
    → IsValidDb (payout_outcome req o).1
payout_outcome-IsValid req (err e, db) known v = v
payout_outcome-IsValid req (ok p, db) known v = rw (key_outcome_tables p _) (
    Valid.try_insert_idempotency_key-IsValid req.idempotency_key req.request_hash p.id db v
      (known p refl))

pub create_in_tx-IsValid :
    (req : CreatePayoutRequest) (db : Db) → IsValidDb db → IsValidDb (create_in_tx req db).1
unfolding create_in_tx
create_in_tx-IsValid req db v =
    payout_outcome-IsValid req (Repo.create_payout _ db) (Valid.create_payout_row _ db)
      (Valid.create_payout-IsValid _ db v)

store_result-IsValid :
    (p : Payout) (r : SendPayoutResult) (db : Db) → IsValidDb db → IsValidDb (store_result p r db).1
store_result-IsValid p r db v = elim (Bool-cases r.success) [
  | inl sent ↦ rw sent (Valid.update_payout_state-IsValid p.id _ db v)
  | inr not_sent ↦ rw not_sent (Valid.update_payout_state-IsValid p.id _ db v)
]

module _ (fl : Float64) (intn : ℕ → ℕ) (now : Time) (uuid_string : Uuid → String) {E : Type 0}
    (server : Option (Orchestrator E)) where
  after_sending-IsValid :
      (p : Payout) (w : World E) (o : Option (SendPayoutResult × SuccessTracker × E))
      → IsValidWorld w
      → IsValidWorld (after_sending fl intn now uuid_string server p w o).1
  after_sending-IsValid p w none v = v
  after_sending-IsValid p w (some (r, t, e)) v = store_result-IsValid p r w.db v

  send-IsValid :
      (p : Payout) (w : World E)
      → IsValidWorld w
      → IsValidWorld (send_payout_with_orchestrator fl intn now uuid_string server p w).1
  unfolding send_payout_with_orchestrator
  send-IsValid p w v = elim (Option-cases server) [
    | inl absent ↦
        rw (absent, send_payout_with_orchestrator) (Valid.update_payout_state-IsValid p.id _ w.db v)
    | inr (o, present) ↦ rw (present, send_payout_with_orchestrator) (after_sending-IsValid p w _ v)
  ]

  created_reply_world :
      (o : Option Payout × World E) → (created_reply fl intn now uuid_string server o).1 ≡ o.1
  created_reply_world (none, w) = refl
  created_reply_world (some p, w) = refl

  existing_reply_db :
      (w : World E) (o : Result Payout × Db)
      → (existing_reply fl intn now uuid_string server w o).1.db ≡ o.1
  existing_reply_db w (err e, db) = refl
  existing_reply_db w (ok p, db) = refl

  after_tx-IsValid :
      (req : CreatePayoutRequest) (w : World E) (o : Outcome TxResult × Db)
      → IsValidDb o.1
      → IsValidWorld (after_tx fl intn now uuid_string server req w o).1
  after_tx-IsValid req w ((r, none), db) v =
      rw
        (created_reply_world (
          send_payout_with_orchestrator fl intn now uuid_string server r.new_payout (with_db w db)))
        (send-IsValid r.new_payout (with_db w db) v)
  after_tx-IsValid req w ((r, some e), db) v = elim (Bool-cases (is_key_exists e)) [
    | inr other ↦ rw other v
    | inl exists ↦ elim (Bool-cases (str_eq r.existing_key.request_hash req.request_hash)) [
      | inr conflict ↦ rw (exists, conflict) v
      | inl replay ↦
          let found = Repo.get_payout r.existing_key.payout_id db in
          let same =
            ap (λ (d : Db). d.tables) (existing_reply_db w found)
            ∙ Valid.get_payout_tables r.existing_key.payout_id db in
          rw (exists, replay) (subst IsValid (sym same) v)
    ]
  ]

  -- If the tables are valid before `CreatePayout`, they are valid after it, whatever the request,
  -- the faults of the database and the answers of the providers: every row meets the CHECK
  -- constraints, ids, external ids and idempotency keys are unique, and every idempotency key
  -- belongs to a stored payout.
  pub create_payout-IsValidWorld :
      (req : CreatePayoutRequest) (w : World E)
      → IsValidWorld w
      → IsValidWorld (Create.create_payout fl intn now uuid_string server req w).1
  unfolding Create.create_payout
  create_payout-IsValidWorld req w v = elim (Bool-cases (str_eq req.idempotency_key "")) [
    | inl no_key ↦ rw no_key v
    | inr key ↦ elim (Bool-cases (str_eq req.request_hash "")) [
      | inl no_hash ↦ rw (key, no_hash) v
      | inr hash ↦
          rw (key, hash)
            (after_tx-IsValid req w (run_in_tx no_tx_result (create_in_tx req) w.db) (
              Valid.run_in_tx-IsValid no_tx_result (create_in_tx req) w.db
                (create_in_tx-IsValid req) v))
    ]
  ]
