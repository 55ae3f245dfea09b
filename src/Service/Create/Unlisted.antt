-- ===== src/Service/Create/Unlisted.antt =====
-- `CreatePayout` with a provider that the CHECK constraint of the table does not list.
use payment_orchestrator.Base.{
  ◌≡◌, refl, ◌≢◌, true, false, arith, Bool-cases, Option-cases, inl, inr,
}
use payment_orchestrator.Domain.{Uuid, Payout, UpdatePayoutParams}
use payment_orchestrator.Persistence.Result.{Result, ok, err}
use payment_orchestrator.Persistence.Queries
use payment_orchestrator.Persistence.Queries.{
  Db, row_allowed, provider_allowed, state_allowed, next_fails, PayoutRow, find_payout,
}
use payment_orchestrator.Persistence.Repo
use payment_orchestrator.Provider.Orchestrator.{SendPayoutResult}
use payment_orchestrator.Service.Create.{store_result, or_keep}

row_refused : (r : PayoutRow) → provider_allowed r.provider ≡ false → row_allowed r ≡ false
unfolding row_allowed
row_refused r h = ground arith

update_refused :
    (id : Uuid) (params : UpdatePayoutParams) (db : Db)
    → provider_allowed (Repo.nullable params.provider) ≡ false
    → let o = Repo.update_payout_state id params db in
      ((p : Payout) → o.0 ≢ ok p) × (o.1.tables ≡ db.tables)
unfolding Repo.update_payout_state Queries.update_payout_state
update_refused id params db h = elim (Bool-cases (next_fails db.faults)) [
  | inl fails ↦ rw fails (λ p h. ground arith, refl)
  | inr runs ↦ elim (Option-cases (find_payout id db.tables.payouts)) [
    | inl absent ↦ rw (runs, absent) (λ p h. ground arith, refl)
    | inr (old, found) ↦
        rw
          (
            runs,
            found,
            row_refused
                (record old {
                  state = params.state;
                  external_id = params.external_id;
                  provider = Repo.nullable params.provider;
                  updated_at = db.now;
                })
                h,
          )
          (λ p h. ground arith, refl)
  ]
]

-- A payout that a provider outside the CHECK constraint of the table accepted, as `mock_card` is,
-- is not stored as sent: no table changes, and the caller keeps the payout as it was created.
pub store_result-unlisted :
    (p : Payout) (r : SendPayoutResult) (db : Db)
    → r.success ≡ true
    → provider_allowed (Repo.nullable r.used_provider) ≡ false
    → let o = store_result p r db in (o.1.tables ≡ db.tables) × (or_keep p o.0 ≡ p)
store_result-unlisted p r db accepted unlisted =
    let (no_ok, same) = update_refused p.id _ db unlisted in rw accepted (same, kept p _ no_ok)
  where
    kept : (p : Payout) (o : Result Payout) → ((q : Payout) → o ≢ ok q) → or_keep p o ≡ p
    kept p (ok q) no_ok = absurd (no_ok q refl)
    kept p (err e) no_ok = refl
