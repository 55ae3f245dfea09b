-- ===== src/Persistence/Repo/Cases.antt =====
-- How the statements that `CreatePayout` runs in its transaction can end.
use payment_orchestrator.Base.{
  ◌+◌, ◌≡◌, refl, String, true, false, not, ◌&&◌, none, some, ◌∷◌, arith, Bool-cases, Option-cases,
  inl, inr, ◌⊎◌,
}
use payment_orchestrator.Domain.{Uuid, Payout, CreatePayoutParams, UpdatePayoutParams}
use payment_orchestrator.Persistence.Result.{
  Err, constraint_violation, connection_failure, Result, ok, err, is_key_exists,
}
use payment_orchestrator.Persistence.Queries
use payment_orchestrator.Persistence.Queries.{
  PayoutRow, KeyRow, Tables, Db, next_fails, advance, find_payout, find_key, insert_row, new_row,
  CreateRowParams, row_allowed, any_row, clashes,
}
use payment_orchestrator.Persistence.Queries.Rows.{find_payout-id}
use payment_orchestrator.Persistence.Repo
use payment_orchestrator.Persistence.Repo.{
  Outcome, to_domain_idempotency_key, to_domain_payout, run_in_tx, finish,
}
use payment_orchestrator.Persistence.Repo.Valid.{key_row, with_key}

-- A statement that failed with another error than the sentinel of the payout service.
abbrev pub Refused : {A : Type 0} → Tables → Result A × Db → Type 0
Refused t (r, db) = (e : Err) × (r ≡ err e) × (is_key_exists e ≡ false) × (db.tables ≡ t)

abbrev pub with_payout : PayoutRow → Tables → Tables
with_payout r t = record t { payouts = r ∷ t.payouts }

insert_row_cases :
    (r : PayoutRow) (db : Db)
    → let (o, db') = insert_row r db in
      ((e : Err) × (o ≡ err e) × (is_key_exists e ≡ false) × (db'.tables ≡ db.tables))
      ⊎ ((o ≡ ok r) × (db'.tables ≡ with_payout r db.tables) × (db'.now ≡ db.now))
insert_row_cases r db =
    elim (Bool-cases (row_allowed r && not (any_row (clashes r) db.tables.payouts))) [
      | inl allowed ↦ inr (rw allowed refl, rw allowed refl, rw allowed refl)
      | inr rejected ↦ inl (constraint_violation, rw rejected refl, refl, rw rejected refl)
    ]

-- The insertion of a payout fails and leaves the tables, or adds one row.
pub create_payout_cases :
    (params : CreatePayoutParams) (db : Db)
    → let o = Repo.create_payout params db in
      Refused db.tables o
      ⊎ ((row : PayoutRow) × (o.0 ≡ ok (to_domain_payout row))
          × (o.1.tables ≡ with_payout row db.tables)
          × (o.1.now ≡ db.now))
unfolding Repo.create_payout Queries.create_payout
create_payout_cases params db = elim (Bool-cases (next_fails db.faults)) [
  | inl fails ↦ inl (connection_failure, rw fails refl, refl, rw fails refl)
  | inr runs ↦
      let params' : CreateRowParams = record {
        state = params.state;
        amount_cents = params.amount_cents;
        currency = params.currency;
        rail = params.rail;
        provider = Repo.nullable params.provider;
        external_id = params.external_id;
      } in
      let db' : Db = record (advance db) { drawn = db.drawn + 1 } in
      elim (insert_row_cases (new_row params' (advance db)) db') [
        | inl (e, failed, other, same) ↦ inl (e, rw (runs, failed) refl, other, rw runs same)
        | inr (added, grown, clock) ↦
            inr (new_row params' (advance db), rw (runs, added) refl, rw runs grown, rw runs clock)
      ]
]

-- The insertion of an idempotency key fails, or finds the key taken, or stores it.
pub insert_key_cases :
    (key request_hash : String) (payout_id : Uuid) (db : Db)
    → let o = Repo.try_insert_idempotency_key key request_hash payout_id db in
      let k = key_row key request_hash payout_id db in
      let found = find_key key db.tables.idempotency_keys in
      Refused db.tables o
      ⊎ (((old : KeyRow) × (found ≡ some old)
            × (o.0 ≡ ok (to_domain_idempotency_key old, false))
            × (o.1.tables ≡ db.tables))
          ⊎ ((found ≡ none)
              × (o.0 ≡ ok (to_domain_idempotency_key k, true))
              × (o.1.tables ≡ with_key k db.tables)))
unfolding Repo.try_insert_idempotency_key Queries.try_insert_idempotency_key
    Queries.get_idempotency_key
insert_key_cases key request_hash payout_id db = elim (Bool-cases (next_fails db.faults)) [
  | inl fails ↦ inl (connection_failure, rw fails refl, refl, rw fails refl)
  | inr runs ↦ elim (Option-cases (find_key key db.tables.idempotency_keys)) [
    | inl free ↦ inr (
        inr (
          free,
          rw (runs, free, Queries.try_insert_idempotency_key) refl,
          rw (runs, free, Queries.try_insert_idempotency_key) refl,
        ))
    | inr (old, taken) ↦ elim (Bool-cases (next_fails (advance db).faults)) [
      | inl fails ↦
          inl (connection_failure, rw (runs, taken, fails) refl, refl, rw (runs, taken, fails) refl)
      | inr again ↦ inr (inl (old, taken, ground arith, ground arith))
    ]
  ]
]

-- A payout that was read has the id that was asked for.
pub get_payout_id :
    (id : Uuid) (db : Db) (p : Payout) → (Repo.get_payout id db).0 ≡ ok p → p.id ≡ id
unfolding Repo.get_payout Queries.get_payout to_domain_payout
get_payout_id id db p h = elim (Option-cases (find_payout id db.tables.payouts)) [
  | inl absent ↦ ground arith
  | inr (r, found) ↦ ground (arith, find_payout-id id db.tables.payouts r found)
]

-- A payout that was updated has the id that was asked for.
pub update_payout_state_id :
    (id : Uuid) (params : UpdatePayoutParams) (db : Db) (p : Payout)
    → (Repo.update_payout_state id params db).0 ≡ ok p
    → p.id ≡ id
unfolding Repo.update_payout_state Queries.update_payout_state to_domain_payout
update_payout_state_id id params db p h = elim (Option-cases (find_payout id db.tables.payouts)) [
  | inl absent ↦ ground arith
  | inr (r, found) ↦ ground (arith, find_payout-id id db.tables.payouts r found)
]

-- An update of a payout leaves the idempotency keys.
pub update_payout_state_keys :
    (id : Uuid) (params : UpdatePayoutParams) (db : Db)
    → (Repo.update_payout_state id params db).1.tables.idempotency_keys ≡ db.tables.idempotency_keys
unfolding Repo.update_payout_state Queries.update_payout_state
update_payout_state_keys id params db = ground arith
