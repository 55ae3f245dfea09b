-- ===== src/Persistence/Result.antt =====
-- Errors of the persistence layer as values, and statements as functions on the database's state.
use payment_orchestrator.Base.{String, Bool, true, false}

-- `pgx.ErrNoRows`, `postgres.ErrNotFound`, the sentinel of the payout service, an error of the
-- database (a violated constraint, a lost connection), and an error that wraps another.
pub data Err : Type 0 where
  no_rows not_found idempotency_key_exists constraint_violation connection_failure : Err
  wrap : String → Err → Err

-- `errors.Is(err, pgx.ErrNoRows)`
abbrev pub is_no_rows : Err → Bool
is_no_rows no_rows = true
is_no_rows not_found = false
is_no_rows idempotency_key_exists = false
is_no_rows constraint_violation = false
is_no_rows connection_failure = false
is_no_rows (wrap _ e) = is_no_rows e

-- `errors.Is(err, postgres.ErrNotFound)`
abbrev pub is_not_found : Err → Bool
is_not_found no_rows = false
is_not_found not_found = true
is_not_found idempotency_key_exists = false
is_not_found constraint_violation = false
is_not_found connection_failure = false
is_not_found (wrap _ e) = is_not_found e

-- `errors.Is(err, errIdempotencyKeyExists)`
abbrev pub is_key_exists : Err → Bool
is_key_exists no_rows = false
is_key_exists not_found = false
is_key_exists idempotency_key_exists = true
is_key_exists constraint_violation = false
is_key_exists connection_failure = false
is_key_exists (wrap _ e) = is_key_exists e

pub data Result (A : Type 0) : Type 0 where
  ok : A → Result A
  err : Err → Result A
