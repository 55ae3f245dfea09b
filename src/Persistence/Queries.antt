-- ===== src/Persistence/Queries.antt =====
-- The tables (persistence/sqlcgen/models.go, db/migrations) and the statements on them
-- (persistence/sqlcgen/queries.sql.go), as PostgreSQL documents them.
--
-- A statement may fail for reasons outside the tables: `faults` says of each coming statement
-- whether it does. `gen` is what `gen_random_uuid()` returns, call by call, and `now` is `now()`.
-- A table is a set of rows, kept as a list with the newest first.
pub mod Rows
pub mod Runs
pub mod Valid
use payment_orchestrator.Base.{
  ℕ, ◌+◌, String, Bool, true, false, not, ◌&&◌, ◌||◌, Option, none, some, List, [], ◌∷◌, ◌==◌,
  str_eq, find?, if◌then◌else◌,
}
use payment_orchestrator.Base.Int.{ℤ, pos, ltb_ℤ}
use payment_orchestrator.Domain.{
  Uuid, Time, PayoutState, created, queued, pending, processing, completed, sent, failed, canceled,
  unset, state_eq,
}
use payment_orchestrator.Persistence.Result.{
  Err, no_rows, constraint_violation, connection_failure, Result, ok, err,
}

-- `sqlcgen.Payout`
pub record PayoutRow : Type 0 where
  pub id : Uuid
  pub state : PayoutState
  pub amount_cents : ℤ
  pub currency : String
  pub rail : String
  pub provider : Option String
  pub external_id : Option String
  pub created_at : Time
  pub updated_at : Time

-- `sqlcgen.IdempotencyKey`
pub record KeyRow : Type 0 where
  pub key : String
  pub request_hash : String
  pub payout_id : Uuid
  pub created_at : Time

pub record Tables : Type 0 where
  pub payouts : List PayoutRow
  pub idempotency_keys : List KeyRow

pub record Db : Type 0 where
  pub tables : Tables
  pub faults : List Bool
  pub gen : ℕ → Uuid
  pub drawn : ℕ
  pub now : Time

-- A statement on the database: its result, and the database after it.
abbrev pub Statement : Type 0 → Type 0
Statement A = Db → Result A × Db

-- The next statement takes its entry off the list; when none is left, nothing fails.
abbrev pub next_fails : List Bool → Bool
next_fails [] = false
next_fails (f ∷ fs) = f

abbrev pub rest_of : List Bool → List Bool
rest_of [] = []
rest_of (f ∷ fs) = fs

abbrev pub advance : Db → Db
advance db = record db { faults = rest_of db.faults }

abbrev pub statement : {A : Type 0} → Statement A → Statement A
statement body db =
    if next_fails db.faults then (err connection_failure, advance db) else body (advance db)

-- The CHECK constraints of `payouts`, as the migrations leave them. A NULL provider passes.
unfoldable pub state_allowed : PayoutState → Bool
state_allowed unset = false
state_allowed created = true
state_allowed queued = true
state_allowed pending = true
state_allowed processing = true
state_allowed completed = true
state_allowed sent = true
state_allowed failed = true
state_allowed canceled = true

unfoldable pub provider_allowed : Option String → Bool
provider_allowed none = true
provider_allowed (some p) = str_eq p "stripe" || str_eq p "crypto_sim"

unfoldable pub row_allowed : PayoutRow → Bool
unfolding state_allowed provider_allowed
row_allowed r =
    state_allowed r.state
    && (ltb_ℤ (pos 0) r.amount_cents
        && ((str_eq r.rail "card" || str_eq r.rail "crypto") && provider_allowed r.provider))

-- The UNIQUE constraint on `external_id`: NULLs are distinct.
unfoldable pub same_external : Option String → Option String → Bool
same_external (some a) (some b) = str_eq a b
same_external _ _ = false

abbrev pub any_row : (PayoutRow → Bool) → List PayoutRow → Bool
any_row p [] = false
any_row p (r ∷ rows) = p r || any_row p rows

-- The row `x` stands in the way of a new row `r`: by its id, or by its external id.
abbrev pub clashes : PayoutRow → PayoutRow → Bool
clashes r x = x.id == r.id || same_external x.external_id r.external_id

-- The row `x` stands in the way of the new version `r` of another row.
abbrev pub clashes_other : PayoutRow → PayoutRow → Bool
clashes_other r x = not (x.id == r.id) && same_external x.external_id r.external_id

abbrev pub replace_row : PayoutRow → List PayoutRow → List PayoutRow
replace_row r [] = []
replace_row r (x ∷ rows) = (if x.id == r.id then r else x) ∷ replace_row r rows

abbrev pub find_payout : Uuid → List PayoutRow → Option PayoutRow
find_payout id [] = none
find_payout id (r ∷ rows) = let rest = find_payout id rows in if r.id == id then some r else rest

abbrev pub find_external : String → List PayoutRow → Option PayoutRow
find_external x [] = none
find_external x (r ∷ rows) =
    let rest = find_external x rows in if same_external r.external_id (some x) then some r else rest

abbrev pub find_key : String → List KeyRow → Option KeyRow
find_key k [] = none
find_key k (r ∷ rows) = let rest = find_key k rows in if str_eq r.key k then some r else rest

abbrev pub put_payouts : Db → List PayoutRow → Db
put_payouts db rows = record db { tables = record (db.tables) { payouts = rows } }

-- `sqlcgen.CreatePayoutParams`
pub record CreateRowParams : Type 0 where
  pub state : PayoutState
  pub amount_cents : ℤ
  pub currency : String
  pub rail : String
  pub provider : Option String
  pub external_id : Option String

abbrev pub new_row : CreateRowParams → Db → PayoutRow
new_row params db = record {
  id = db.gen db.drawn;
  state = params.state;
  amount_cents = params.amount_cents;
  currency = params.currency;
  rail = params.rail;
  provider = params.provider;
  external_id = params.external_id;
  created_at = db.now;
  updated_at = db.now;
}

-- INSERT INTO payouts ... RETURNING *
abbrev pub insert_row : PayoutRow → Db → Result PayoutRow × Db
insert_row r db =
    if row_allowed r && not (any_row (clashes r) db.tables.payouts)
    then (ok r, put_payouts db (r ∷ db.tables.payouts))
    else (err constraint_violation, db)

unfoldable pub create_payout : CreateRowParams → Statement PayoutRow
create_payout params =
    statement (λ db. insert_row (new_row params db) (record db { drawn = db.drawn + 1 }))

unfoldable pub get_payout : Uuid → Statement PayoutRow
get_payout id =
    statement
      (λ db. (elim (find_payout id db.tables.payouts) [ none ↦ err no_rows | some r ↦ ok r ], db))

-- UPDATE payouts SET ... RETURNING *, where `r` is the new version of a row.
abbrev pub update_row : PayoutRow → Db → Result PayoutRow × Db
update_row r db =
    if row_allowed r && not (any_row (clashes_other r) db.tables.payouts)
    then (ok r, put_payouts db (replace_row r db.tables.payouts))
    else (err constraint_violation, db)

-- `sqlcgen.UpdatePayoutStateParams`
pub record UpdateRowParams : Type 0 where
  pub id : Uuid
  pub state : PayoutState
  pub external_id : Option String
  pub provider : Option String

abbrev pub updated_row : UpdateRowParams → Time → PayoutRow → PayoutRow
updated_row params now old = record old {
  state = params.state;
  external_id = params.external_id;
  provider = params.provider;
  updated_at = now;
}

-- The rows that an UPDATE selects by the primary key: one or none.
abbrev pub update_found : Option PayoutRow → (PayoutRow → PayoutRow) → Db → Result PayoutRow × Db
update_found none change db = (err no_rows, db)
update_found (some old) change db = update_row (change old) db

unfoldable pub update_payout_state : UpdateRowParams → Statement PayoutRow
update_payout_state params =
    statement
      (λ db. update_found (find_payout params.id db.tables.payouts) (updated_row params db.now) db)

abbrev pub is_in : PayoutState → List PayoutState → Bool
is_in s [] = false
is_in s (x ∷ xs) = state_eq s x || is_in s xs

abbrev pub if_in : List PayoutState → Option PayoutRow → Option PayoutRow
if_in states none = none
if_in states (some r) = if is_in r.state states then some r else none

abbrev pub canceled_row : Time → PayoutRow → PayoutRow
canceled_row now old = record old { state = canceled; updated_at = now }

unfoldable pub cancel_payout_if_cancelable : Uuid → List PayoutState → Statement PayoutRow
cancel_payout_if_cancelable id states =
    statement (λ db.
      update_found (if_in states (find_payout id db.tables.payouts)) (canceled_row db.now) db)

unfoldable pub find_payout_by_external_id : String → Statement PayoutRow
find_payout_by_external_id x =
    statement
      (λ db. (elim (find_external x db.tables.payouts) [ none ↦ err no_rows | some r ↦ ok r ], db))

-- INSERT INTO idempotency_keys ... ON CONFLICT (key) DO NOTHING RETURNING *
unfoldable pub try_insert_idempotency_key : String → String → Uuid → Statement KeyRow
try_insert_idempotency_key key request_hash payout_id = statement (λ db.
    elim (find_key key db.tables.idempotency_keys) [
      | some _ ↦ (err no_rows, db)
      | none ↦
          let r : KeyRow = record {
            key = key;
            request_hash = request_hash;
            payout_id = payout_id;
            created_at = db.now;
          } in
          (
            ok r,
            record db {
              tables = record (db.tables) { idempotency_keys = r ∷ db.tables.idempotency_keys };
            },
          )
    ])

unfoldable pub get_idempotency_key : String → Statement KeyRow
get_idempotency_key key = statement (λ db.
    (elim (find_key key db.tables.idempotency_keys) [ none ↦ err no_rows | some r ↦ ok r ], db))
