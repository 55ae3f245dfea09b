-- ===== src/Persistence/Repo/Valid.antt =====
-- The constraints of the tables under the calls of the repositories and under transactions
-- (persistence/postgres).
use payment_orchestrator.Base.{
  ◌≡◌, ◌≢◌, String, true, Option, none, some, List, ◌∷◌, arith, ==_refl, Bool-cases, Option-cases,
  inl, inr, ◌⊎◌,
}
use payment_orchestrator.Domain.{Uuid, PayoutState, Payout, CreatePayoutParams, UpdatePayoutParams}
use payment_orchestrator.Persistence.Result.{Err, ok}
use payment_orchestrator.Persistence.Queries
use payment_orchestrator.Persistence.Queries.{
  PayoutRow, KeyRow, Tables, Db, next_fails, advance, find_payout, find_key, if_in, update_found,
  update_row, insert_row, new_row,
}
use payment_orchestrator.Persistence.Queries.Valid.{
  IsValid, IsValidDb, insert_row-IsValid, update_row-IsValid,
}
use payment_orchestrator.Persistence.Repo
use mathlib.Core.Path.{subst, sym}
use payment_orchestrator.Persistence.Repo.{Outcome, to_domain_idempotency_key, run_in_tx, finish}

update_found-IsValid :
    (o : Option PayoutRow) (change : PayoutRow → PayoutRow) (db : Db)
    → IsValidDb db
    → IsValidDb (update_found o change db).1
update_found-IsValid none change db v = v
update_found-IsValid (some old) change db v = update_row-IsValid (change old) db v

pub update_payout_state-IsValid :
    (id : Uuid) (params : UpdatePayoutParams) (db : Db)
    → IsValidDb db
    → IsValidDb (Repo.update_payout_state id params db).1
unfolding Repo.update_payout_state Queries.update_payout_state
update_payout_state-IsValid id params db v = elim (Bool-cases (next_fails db.faults)) [
  | inl fails ↦ rw fails v
  | inr runs ↦ rw runs (update_found-IsValid _ _ (advance db) v)
]

pub cancel_payout-IsValid :
    (id : Uuid) (states : List PayoutState) (db : Db)
    → IsValidDb db
    → IsValidDb (Repo.cancel_payout id states db).1
unfolding Repo.cancel_payout Queries.cancel_payout_if_cancelable
cancel_payout-IsValid id states db v = elim (Bool-cases (next_fails db.faults)) [
  | inl fails ↦ rw fails v
  | inr runs ↦ rw runs (update_found-IsValid _ _ (advance db) v)
]

pub get_payout_tables : (id : Uuid) (db : Db) → (Repo.get_payout id db).1.tables ≡ db.tables
unfolding Repo.get_payout Queries.get_payout
get_payout_tables id db = ground arith

pub find_by_external_id_tables :
    (x : String) (db : Db) → (Repo.find_by_external_id x db).1.tables ≡ db.tables
unfolding Repo.find_by_external_id Queries.find_payout_by_external_id
find_by_external_id_tables x db = ground arith

-- A payout that was inserted has a row under its id.
pub create_payout_row :
    (params : CreatePayoutParams) (db : Db) (p : Payout)
    → (Repo.create_payout params db).0 ≡ ok p
    → find_payout p.id (Repo.create_payout params db).1.tables.payouts ≢ none
unfolding Repo.create_payout Queries.create_payout
create_payout_row params db p h e = ground (arith, ==_refl p.id)

pub create_payout-IsValid :
    (params : CreatePayoutParams) (db : Db)
    → IsValidDb db
    → IsValidDb (Repo.create_payout params db).1
unfolding Repo.create_payout Queries.create_payout
create_payout-IsValid params db v = elim (Bool-cases (next_fails db.faults)) [
  | inl fails ↦ rw fails v
  | inr runs ↦ rw runs (insert_row-IsValid _ _ v)
]

abbrev pub key_row : String → String → Uuid → Db → KeyRow
key_row key request_hash payout_id db = record {
  key = key;
  request_hash = request_hash;
  payout_id = payout_id;
  created_at = db.now;
}

abbrev pub with_key : KeyRow → Tables → Tables
with_key k t = record t { idempotency_keys = k ∷ t.idempotency_keys }

-- The insertion of a key stores it, if it was free; otherwise the tables stay.
pub try_insert_idempotency_key_cases :
    (key request_hash : String) (payout_id : Uuid) (db : Db)
    → let (r, db') = Repo.try_insert_idempotency_key key request_hash payout_id db in
      let k = key_row key request_hash payout_id db in
      (db'.tables ≡ db.tables)
      ⊎ ((find_key key db.tables.idempotency_keys ≡ none)
          × (db'.tables ≡ with_key k db.tables)
          × (r ≡ ok (to_domain_idempotency_key k, true)))
unfolding Repo.try_insert_idempotency_key Queries.try_insert_idempotency_key
    Queries.get_idempotency_key
try_insert_idempotency_key_cases key request_hash payout_id db =
    elim (Bool-cases (next_fails db.faults)) [
      | inl fails ↦ inl (rw fails)
      | inr runs ↦ elim (Option-cases (find_key key db.tables.idempotency_keys)) [
        | inl free ↦ inr (
          free,
          rw (runs, free, Queries.try_insert_idempotency_key),
          rw (runs, free, Queries.try_insert_idempotency_key),
        )
        | inr (k, taken) ↦ inl (ground arith)
      ]
    ]

pub try_insert_idempotency_key-IsValid :
    (key request_hash : String) (payout_id : Uuid) (db : Db)
    → IsValidDb db
    → find_payout payout_id db.tables.payouts ≢ none
    → IsValidDb (Repo.try_insert_idempotency_key key request_hash payout_id db).1
try_insert_idempotency_key-IsValid key request_hash payout_id db v known =
    elim (try_insert_idempotency_key_cases key request_hash payout_id db) [
      | inl same ↦ subst IsValid (sym same) v
      | inr (free, stored, _) ↦
          subst IsValid (sym stored)
            (record { rows_valid = v.rows_valid; keys_valid = (free, known, v.keys_valid) })
    ]

finish-IsValid :
    {A : Type 0} (before : Db) (o : Outcome A × Db)
    → IsValidDb before
    → IsValidDb o.1
    → IsValidDb (finish before o).1
finish-IsValid before ((a, some e), db) v v' = v
finish-IsValid before ((a, none), db) v v' = elim (Bool-cases (next_fails db.faults)) [
  | inl fails ↦ rw fails v
  | inr runs ↦ rw runs v'
]

-- A transaction over a step that keeps the tables valid keeps them valid, however it ends.
pub run_in_tx-IsValid :
    {A : Type 0} (start : A) (body : Db → Outcome A × Db) (db : Db)
    → ((d : Db) → IsValidDb d → IsValidDb (body d).1)
    → IsValidDb db
    → IsValidDb (run_in_tx start body db).1
unfolding run_in_tx
run_in_tx-IsValid start body db step v = elim (Bool-cases (next_fails db.faults)) [
  | inl fails ↦ rw fails v
  | inr runs ↦ rw runs (finish-IsValid db (body (advance db)) v (step (advance db) v))
]

-- A transaction that ends with an error has changed no table.
pub run_in_tx_error :
    {A : Type 0} (start : A) (body : Db → Outcome A × Db) (db : Db) (e : Err)
    → (run_in_tx start body db).0.1 ≡ some e
    → (run_in_tx start body db).1.tables ≡ db.tables
unfolding run_in_tx
run_in_tx_error start body db e h = ground arith
