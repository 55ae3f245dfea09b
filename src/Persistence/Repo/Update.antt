-- ===== src/Persistence/Repo/Update.antt =====
-- What the statements that update one payout do to the table.
use payment_orchestrator.Base.{
  ◌≡◌, refl, true, false, not, ◌&&◌, Option, none, some, List, arith, Bool-cases, inl, inr, ◌⊎◌,
  ◌∙◌, ==_refl, ◌==◌,
}
use payment_orchestrator.Domain.{Uuid, PayoutState, UpdatePayoutParams}
use payment_orchestrator.Persistence.Result.{
  Err, no_rows, constraint_violation, connection_failure, ok, err,
}
use payment_orchestrator.Persistence.Queries
use payment_orchestrator.Persistence.Queries.{
  PayoutRow, Tables, Db, find_payout, is_in, if_in, next_fails, advance, canceled_row, replace_row,
  update_row, update_found, updated_row, row_allowed, any_row, clashes_other, UpdateRowParams,
}
use payment_orchestrator.Persistence.Queries.Rows.{find_payout-id, find_payout-replace_row}
use payment_orchestrator.Persistence.Repo
use payment_orchestrator.Persistence.Repo.{to_domain_payout, payout_result, as_not_found, nullable}

abbrev pub with_payouts : Tables → List PayoutRow → Tables
with_payouts t rows = record t { payouts = rows }

-- The row `old` of `id` became `new`, and no other row or key changed.
abbrev pub Became : Uuid → PayoutRow → PayoutRow → Tables → Tables → Type 0
Became id old new t t' =
    (find_payout id t.payouts ≡ some old)
    × (find_payout id t'.payouts ≡ some new)
    × ((other : Uuid)
        → (other == id) ≡ false
        → find_payout other t'.payouts ≡ find_payout other t.payouts)
    × (t'.idempotency_keys ≡ t.idempotency_keys)

replaced :
    (id : Uuid) (old new : PayoutRow) (db : Db)
    → find_payout id db.tables.payouts ≡ some old
    → new.id ≡ old.id
    → Became id old new db.tables (with_payouts db.tables (replace_row new db.tables.payouts))
replaced id old new db found same =
    let is_id : new.id ≡ id = same ∙ find_payout-id id db.tables.payouts old found in
    (
      found,
      ground (arith, find_payout-replace_row new id db.tables.payouts, ==_refl id),
      λ other apart. ground (arith, find_payout-replace_row new other db.tables.payouts),
      refl,
    )

update_row_cases :
    (new : PayoutRow) (db : Db)
    → let o = update_row new db in
      ((e : Err) × (o.0 ≡ err e) × (o.1.tables ≡ db.tables))
      ⊎ ((o.0 ≡ ok new) × (o.1.tables ≡ with_payouts db.tables (replace_row new db.tables.payouts)))
update_row_cases new db =
    elim (Bool-cases (row_allowed new && not (any_row (clashes_other new) db.tables.payouts))) [
      | inl allowed ↦ inr (rw allowed refl, rw allowed refl)
      | inr rejected ↦ inl (constraint_violation, rw rejected refl, rw rejected refl)
    ]

update_found_cases :
    (found : Option PayoutRow) (change : PayoutRow → PayoutRow) (db : Db)
    → let o = update_found found change db in
      ((e : Err) × (o.0 ≡ err e) × (o.1.tables ≡ db.tables))
      ⊎ ((old : PayoutRow) × (found ≡ some old)
          × (o.0 ≡ ok (change old))
          × (o.1.tables ≡ with_payouts db.tables (replace_row (change old) db.tables.payouts)))
update_found_cases none change db = inl (no_rows, refl, refl)
update_found_cases (some old) change db = elim (update_row_cases (change old) db) [
  | inl (e, failed, same) ↦ inl (e, failed, same)
  | inr (done, stored) ↦ inr (old, refl, done, stored)
]

-- The update of the state fails and leaves the tables, or gives the row of `id` the new state,
-- external id and provider.
pub update_payout_state_cases :
    (id : Uuid) (params : UpdatePayoutParams) (db : Db)
    → let o = Repo.update_payout_state id params db in
      let row_params : UpdateRowParams = record {
        id = id;
        state = params.state;
        external_id = params.external_id;
        provider = nullable params.provider;
      } in
      ((e : Err) × (o.0 ≡ err e) × (o.1.tables ≡ db.tables))
      ⊎ ((old : PayoutRow) × (o.0 ≡ ok (to_domain_payout (updated_row row_params db.now old)))
          × Became id old (updated_row row_params db.now old) db.tables o.1.tables)
unfolding Repo.update_payout_state Queries.update_payout_state
update_payout_state_cases id params db = elim (Bool-cases (next_fails db.faults)) [
  | inl fails ↦ inl (connection_failure, rw fails refl, rw fails refl)
  | inr runs ↦
      let row_params : UpdateRowParams = record {
        id = id;
        state = params.state;
        external_id = params.external_id;
        provider = nullable params.provider;
      } in
      elim (update_found_cases (find_payout id db.tables.payouts) (updated_row row_params db.now)
        (advance db)) [
          | inl (e, failed, same) ↦ inl (as_not_found e, rw (runs, failed) refl, rw runs same)
          | inr (old, found, done, stored) ↦ inr (
            old,
            rw (runs, done) refl,
            rw (runs, stored) (replaced id old (updated_row row_params db.now old) db found refl),
          )
        ]
]

if_in-some :
    (states : List PayoutState) (o : Option PayoutRow) (r : PayoutRow)
    → if_in states o ≡ some r
    → (o ≡ some r) × (is_in r.state states ≡ true)
if_in-some states none r h = ground arith
if_in-some states (some x) r h = ground arith

-- The cancellation fails and leaves the tables, or cancels the row of `id`, which was in one of
-- the states.
pub cancel_payout_cases :
    (id : Uuid) (states : List PayoutState) (db : Db)
    → let o = Repo.cancel_payout id states db in
      ((e : Err) × (o.0 ≡ err e) × (o.1.tables ≡ db.tables))
      ⊎ ((old : PayoutRow) × (is_in old.state states ≡ true)
          × (o.0 ≡ ok (to_domain_payout (canceled_row db.now old)))
          × Became id old (canceled_row db.now old) db.tables o.1.tables)
unfolding Repo.cancel_payout Queries.cancel_payout_if_cancelable
cancel_payout_cases id states db = elim (Bool-cases (next_fails db.faults)) [
  | inl fails ↦ inl (connection_failure, rw fails refl, rw fails refl)
  | inr runs ↦
      elim (update_found_cases (if_in states (find_payout id db.tables.payouts))
        (canceled_row db.now) (advance db)) [
          | inl (e, failed, same) ↦ inl (as_not_found e, rw (runs, failed) refl, rw runs same)
          | inr (old, found, done, stored) ↦
              let (here, cancelable) = if_in-some states _ old found in
              inr (
                old,
                cancelable,
                rw (runs, done) refl,
                rw (runs, stored) (replaced id old (canceled_row db.now old) db here refl),
              )
        ]
]
