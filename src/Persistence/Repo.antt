-- ===== src/Persistence/Repo.antt =====
-- The repositories (persistence/postgres/payout_repo.go) and transactions
-- (persistence/postgres/tx.go).
pub mod Valid
pub mod Cases
pub mod Update
pub mod Find
pub mod Roundtrip
use payment_orchestrator.Base.{
  ℕ, String, Bool, true, false, Option, none, some, List, [], ◌∷◌, str_eq, if◌then◌else◌,
}
use payment_orchestrator.Domain.{
  Uuid, Time, PayoutState, Payout, IdempotencyKey, CreatePayoutParams, UpdatePayoutParams,
}
use payment_orchestrator.Persistence.Result.{
  Err, no_rows, not_found, connection_failure, wrap, is_no_rows, Result, ok, err,
}
use payment_orchestrator.Persistence.Queries
use payment_orchestrator.Persistence.Queries.{
  PayoutRow, KeyRow, Db, Statement, next_fails, rest_of, advance,
}

-- The empty provider is stored as NULL.
abbrev pub nullable : String → Option String
nullable p = if str_eq p "" then none else some p

abbrev pub or_empty : Option String → String
or_empty none = ""
or_empty (some p) = p

unfoldable pub to_domain_payout : PayoutRow → Payout
to_domain_payout p = record {
  id = p.id;
  state = p.state;
  amount_cents = p.amount_cents;
  currency = p.currency;
  rail = p.rail;
  provider = or_empty p.provider;
  external_id = p.external_id;
  created_at = p.created_at;
  updated_at = p.updated_at;
}

unfoldable pub to_domain_idempotency_key : KeyRow → IdempotencyKey
to_domain_idempotency_key k = record {
  key = k.key;
  request_hash = k.request_hash;
  payout_id = k.payout_id;
  created_at = k.created_at;
}

-- `pgx.ErrNoRows` becomes `ErrNotFound`; every other error passes.
abbrev pub as_not_found : Err → Err
as_not_found e = if is_no_rows e then not_found else e

abbrev pub payout_result : Result PayoutRow → Result Payout
payout_result (ok row) = ok (to_domain_payout row)
payout_result (err e) = err (as_not_found e)

abbrev pub created_result : Result PayoutRow → Result Payout
created_result (ok row) = ok (to_domain_payout row)
created_result (err e) = err e

unfoldable pub create_payout : CreatePayoutParams → Statement Payout
unfolding to_domain_payout
create_payout params db =
    let (r, db') =
      Queries.create_payout
        (record {
          state = params.state;
          amount_cents = params.amount_cents;
          currency = params.currency;
          rail = params.rail;
          provider = nullable params.provider;
          external_id = params.external_id;
        })
        db in
    (created_result r, db')

unfoldable pub get_payout : Uuid → Statement Payout
unfolding to_domain_payout
get_payout id db = let (r, db') = Queries.get_payout id db in (payout_result r, db')

unfoldable pub update_payout_state : Uuid → UpdatePayoutParams → Statement Payout
unfolding to_domain_payout
update_payout_state id params db =
    let (r, db') =
      Queries.update_payout_state
        (record {
          id = id;
          state = params.state;
          external_id = params.external_id;
          provider = nullable params.provider;
        })
        db in
    (payout_result r, db')

unfoldable pub cancel_payout : Uuid → List PayoutState → Statement Payout
unfolding to_domain_payout
cancel_payout id states db =
    let (r, db') = Queries.cancel_payout_if_cancelable id states db in (payout_result r, db')

unfoldable pub find_by_external_id : String → Statement Payout
unfolding to_domain_payout
find_by_external_id x db =
    let (r, db') = Queries.find_payout_by_external_id x db in (payout_result r, db')

abbrev pub existing_key : Result KeyRow × Db → Result (IdempotencyKey × Bool) × Db
existing_key (ok row, db) = (ok (to_domain_idempotency_key row, false), db)
existing_key (err e, db) = (err e, db)

abbrev pub inserted_key : String → Result KeyRow × Db → Result (IdempotencyKey × Bool) × Db
inserted_key key (ok row, db) = (ok (to_domain_idempotency_key row, true), db)
inserted_key key (err e, db) =
    let existing = existing_key (Queries.get_idempotency_key key db) in
    if is_no_rows e then existing else (err e, db)

-- The key and whether it was inserted.
unfoldable pub try_insert_idempotency_key :
    String → String → Uuid → Statement (IdempotencyKey × Bool)
unfolding to_domain_idempotency_key
try_insert_idempotency_key key request_hash payout_id db =
    inserted_key key (Queries.try_insert_idempotency_key key request_hash payout_id db)

abbrev pub key_result : Result KeyRow → Result IdempotencyKey
key_result (ok row) = ok (to_domain_idempotency_key row)
key_result (err e) = err (as_not_found e)

unfoldable pub get_idempotency_key : String → Statement IdempotencyKey
unfolding to_domain_idempotency_key
get_idempotency_key key db =
    let (r, db') = Queries.get_idempotency_key key db in (key_result r, db')

-- What the closure of a transaction leaves: the value that it captures, and its error.
abbrev pub Outcome : Type 0 → Type 0
Outcome A = A × Option Err

-- A rollback, and a commit that fails, leave the tables as they were before.
abbrev pub roll_back : Db → Db → Db
roll_back before db = record db { tables = before.tables }

abbrev pub finish : {A : Type 0} → Db → Outcome A × Db → Outcome A × Db
finish before ((a, some e), db) = ((a, some e), roll_back before db)
finish before ((a, none), db) =
    if next_fails db.faults
    then ((a, some (wrap "commit tx" connection_failure)), roll_back before (advance db))
    else ((a, none), advance db)

-- `RunInTx`; `start` is what the captured variable holds before the closure runs.
unfoldable pub run_in_tx : {A : Type 0} → A → (Db → Outcome A × Db) → Db → Outcome A × Db
run_in_tx start body db =
    if next_fails db.faults
    then ((start, some (wrap "begin tx" connection_failure)), advance db)
    else finish db (body (advance db))
