-- ===== src/Service/Create/Transaction.antt =====
-- How the transaction of `CreatePayout` can end.
use payment_orchestrator.Base.{
  ◌≡◌, refl, String, false, none, some, arith, Bool-cases, inl, inr, ◌⊎◌, ap, ◌∙◌,
}
use payment_orchestrator.Domain.{CreatePayoutParams, created}
use payment_orchestrator.Persistence.Result.{
  Err, idempotency_key_exists, connection_failure, wrap, is_key_exists,
}
use payment_orchestrator.Persistence.Queries.{
  PayoutRow, KeyRow, Tables, Db, next_fails, advance, find_key,
}
use payment_orchestrator.Persistence.Repo
use payment_orchestrator.Persistence.Repo.{
  Outcome, to_domain_idempotency_key, to_domain_payout, run_in_tx, finish,
}
use payment_orchestrator.Persistence.Repo.Valid.{key_row, with_key}
use payment_orchestrator.Persistence.Repo.Cases.{with_payout, create_payout_cases, insert_key_cases}
use payment_orchestrator.Service.Create.{
  CreatePayoutRequest, TxResult, no_tx_result, create_in_tx, payout_outcome, key_outcome,
}

-- An error other than the taken key; the tables are `t`.
abbrev pub IsFailed : Tables → Outcome TxResult × Db → Type 0
IsFailed t ((r, o), db) = (e : Err) × (o ≡ some e) × (is_key_exists e ≡ false) × (db.tables ≡ t)

-- The key was taken by `old`; the tables are `t`.
abbrev pub IsTaken : String → Tables → Tables → Outcome TxResult × Db → Type 0
IsTaken key t t' ((r, o), db) =
    (old : KeyRow) × (find_key key t.idempotency_keys ≡ some old)
    × (r.existing_key ≡ to_domain_idempotency_key old)
    × (o ≡ some idempotency_key_exists)
    × (db.tables ≡ t')

-- The tables `t` got the row of a payout and the key `k` of that payout.
abbrev pub IsCreated : CreatePayoutRequest → Tables → Outcome TxResult × Db → Type 0
IsCreated req t ((r, o), db) =
    (row : PayoutRow) × (k : KeyRow) × (find_key req.idempotency_key t.idempotency_keys ≡ none)
    × (k.key ≡ req.idempotency_key)
    × (k.request_hash ≡ req.request_hash)
    × (k.payout_id ≡ row.id)
    × (r.new_payout ≡ to_domain_payout row)
    × (o ≡ none)
    × (db.tables ≡ with_key k (with_payout row t))

-- Before the transaction ends, a taken key leaves the new row in the tables.
abbrev BodyCases : CreatePayoutRequest → Tables → Outcome TxResult × Db → Type 0
BodyCases req t o =
    ((e : Err) × (o.0.1 ≡ some e) × (is_key_exists e ≡ false))
    ⊎ (IsTaken req.idempotency_key t o.1.tables o ⊎ IsCreated req t o)

key_cases :
    (req : CreatePayoutRequest) (row : PayoutRow) (t : Tables) (db : Db)
    → db.tables ≡ with_payout row t
    → BodyCases req t (
        key_outcome
          (to_domain_payout row)
          (Repo.try_insert_idempotency_key req.idempotency_key req.request_hash row.id db))
key_cases req row t db grown =
    let o = Repo.try_insert_idempotency_key req.idempotency_key req.request_hash row.id db in
    elim (insert_key_cases req.idempotency_key req.request_hash row.id db) [
      | inl (e, failed, other, _) ↦ inl (e, rw (failed, key_outcome) refl, other)
      | inr (inl (old, taken, answer, _)) ↦ inr (
          inl (
            old,
            rw grown at taken,
            rw (answer, key_outcome) refl,
            rw (answer, key_outcome) refl,
            refl,
          ))
      | inr (inr (free, answer, stored)) ↦ inr (
          inr (
            row,
            key_row req.idempotency_key req.request_hash row.id db,
            rw grown at free,
            refl,
            refl,
            refl,
            rw (answer, key_outcome) refl,
            rw (answer, key_outcome) refl,
            rw (answer, key_outcome)
                (stored
                  ∙ ap (with_key (key_row req.idempotency_key req.request_hash row.id db)) grown),
          ))
    ]

body_cases : (req : CreatePayoutRequest) (db : Db) → BodyCases req db.tables (create_in_tx req db)
unfolding create_in_tx to_domain_payout
body_cases req db =
    let params : CreatePayoutParams = record {
      state = created;
      amount_cents = req.amount;
      currency = req.currency;
      rail = req.rail;
      provider = "";
      external_id = none;
    } in
    elim (create_payout_cases params db) [
      | inl (e, failed, other, _) ↦ inl (e, rw (failed, payout_outcome) refl, other)
      | inr (row, added, grown, _) ↦
          rw (added, payout_outcome)
            (key_cases req row db.tables (Repo.create_payout params db).1 grown)
    ]

finish_cases :
    (req : CreatePayoutRequest) (before : Db) (o : Outcome TxResult × Db)
    → BodyCases req before.tables o
    → IsFailed before.tables (finish before o)
      ⊎ (IsTaken req.idempotency_key before.tables before.tables (finish before o)
          ⊎ IsCreated req before.tables (finish before o))
finish_cases req before ((r, some e), db) (inl (e', failed, other)) = inl (e', failed, other, refl)
finish_cases req before ((r, none), db) (inl (e', failed, other)) = ground arith
finish_cases req before ((r, some e), db) (inr (inl (old, taken, answer, exists, _))) =
    inr (inl (old, taken, answer, exists, refl))
finish_cases req before ((r, none), db) (inr (inl (old, taken, answer, exists, _))) = ground arith
finish_cases req before ((r, some e), db) (inr (inr (row, k, free, a, b, c, d, none', t))) =
    ground arith
finish_cases req before ((r, none), db) (inr (inr (row, k, free, a, b, c, d, none', t))) =
    elim (Bool-cases (next_fails db.faults)) [
      | inl fails ↦ inl (wrap "commit tx" connection_failure, rw fails refl, refl, rw fails refl)
      | inr runs ↦ inr (inr (row, k, free, a, b, c, rw runs d, rw runs refl, rw runs t))
    ]

-- The transaction fails and leaves the tables, or finds the key taken and leaves the tables, or
-- adds the row of a payout and its key.
pub create_tx_cases :
    (req : CreatePayoutRequest) (db : Db)
    → let o = run_in_tx no_tx_result (create_in_tx req) db in
      IsFailed db.tables o
      ⊎ (IsTaken req.idempotency_key db.tables db.tables o ⊎ IsCreated req db.tables o)
unfolding run_in_tx
create_tx_cases req db = elim (Bool-cases (next_fails db.faults)) [
  | inl fails ↦ inl (wrap "begin tx" connection_failure, rw fails refl, refl, rw fails refl)
  | inr runs ↦
      rw runs (finish_cases req db (create_in_tx req (advance db)) (body_cases req (advance db)))
]
