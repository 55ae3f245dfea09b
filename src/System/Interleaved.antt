-- ===== src/System/Interleaved.antt =====
-- The transactions and statements that the database sees of calls that overlap, one after the other,
-- and what a single one of them does.
use payment_orchestrator.Base.{
  ℕ, ◌+◌, ◌≡◌, refl, String, Bool, true, false, ◌&&◌, none, some, List, ◌∷◌, arith, Bool-cases, inl,
  inr, ◌⊎◌, sym, ap, str_eq, str_eq_iff, if◌then◌else◌,
}
use payment_orchestrator.Domain.{Uuid, UpdatePayoutParams}
use payment_orchestrator.Persistence.Queries.{PayoutRow, KeyRow, Tables, Db, find_key}
use payment_orchestrator.Persistence.Repo
use payment_orchestrator.Persistence.Repo.{Outcome, run_in_tx, to_domain_payout}
use payment_orchestrator.Persistence.Repo.Valid.{with_key}
use payment_orchestrator.Persistence.Repo.Cases.{with_payout}
use payment_orchestrator.Persistence.Repo.Update.{update_payout_state_cases, cancel_payout_cases}
use payment_orchestrator.Service.Create.{CreatePayoutRequest, TxResult, no_tx_result, create_in_tx}
use payment_orchestrator.Service.Create.Transaction.{IsFailed, IsTaken, IsCreated, create_tx_cases}
use payment_orchestrator.Service.Cancel.{cancelable_states}
use payment_orchestrator.System.Asked.{committed}

-- The transaction of `CreatePayout`, an update of a payout's state (after the sending, or for an
-- update of the provider), the update of `CancelPayout`; and a read, or a change of all but the
-- tables.
pub data Piece (db : Db) : Db → Type 0 where
  creates : (req : CreatePayoutRequest) → Piece db (run_in_tx no_tx_result (create_in_tx req) db).1
  updates :
      (id : Uuid) (params : UpdatePayoutParams) → Piece db (Repo.update_payout_state id params db).1
  cancels : (id : Uuid) → Piece db (Repo.cancel_payout id cancelable_states db).1
  drifts : (db' : Db) → db'.tables ≡ db.tables → Piece db db'

-- Whether the transaction of the request commits a new payout under the key. Only then does its
-- call go on to the providers.
unfoldable pub commits : String → CreatePayoutRequest → Db → Bool
commits key req db =
    str_eq req.idempotency_key key && committed (run_in_tx no_tx_result (create_in_tx req) db).0.1

abbrev pub commits_of : {d e : Db} → String → Piece d e → ℕ
commits_of {d} key (creates req) = if commits key req d then 1 else 0
commits_of key (updates id params) = 0
commits_of key (cancels id) = 0
commits_of key (drifts db' same) = 0

-- The key is stored once a transaction committed it.
abbrev pub StoredAfter : String → Tables → ℕ → Type 0
StoredAfter key t n =
    (n ≡ 0) ⊎ ((n ≡ 1) × (k : KeyRow) × (find_key key t.idempotency_keys ≡ some k))

pub same_keys :
    (key : String) (t t' : Tables) (n : ℕ)
    → t'.idempotency_keys ≡ t.idempotency_keys
    → StoredAfter key t n
    → StoredAfter key t' (n + 0)
same_keys key t t' n same (inl zero_sent) = inl (omega arith)
same_keys key t t' n same (inr (one_sent, k, stored)) = inr (omega arith, k, rw same stored)

grown_keys :
    (key : String) (k : KeyRow) (t : Tables) (n : ℕ)
    → find_key k.key t.idempotency_keys ≡ none
    → StoredAfter key t n
    → (rows : List PayoutRow)
    → StoredAfter key
        (record { payouts = rows; idempotency_keys = k ∷ t.idempotency_keys })
        (n + (if str_eq k.key key then 1 else 0))
grown_keys key k t n free (inl zero_sent) rows = elim (Bool-cases (str_eq k.key key)) [
  | inl same ↦ rw same (inr (omega arith, k, refl))
  | inr other ↦ rw other (inl (omega arith))
]
grown_keys key k t n free (inr (one_sent, old, stored)) rows =
    elim (Bool-cases (str_eq k.key key)) [
      | inl same ↦ ground (arith, str_eq_iff k.key key)
      | inr other ↦ rw other (inr (omega arith, old, stored))
    ]

refused_StoredAfter :
    (key : String) (t t' : Tables) (n : ℕ) (b : Bool)
    → t' ≡ t
    → StoredAfter key t n
    → StoredAfter key t' (n + (if b && false then 1 else 0))
refused_StoredAfter key t t' n true same once = same_keys key t t' n (rw same refl) once
refused_StoredAfter key t t' n false same once = same_keys key t t' n (rw same refl) once

and_true : (b : Bool) → (b && true) ≡ b
and_true true = refl
and_true false = refl

created_StoredAfter :
    (key given : String) (row : PayoutRow) (k : KeyRow) (t t' : Tables) (n : ℕ)
    → find_key given t.idempotency_keys ≡ none
    → k.key ≡ given
    → t' ≡ with_key k (with_payout row t)
    → StoredAfter key t n
    → StoredAfter key t' (n + (if str_eq given key && true then 1 else 0))
created_StoredAfter key given row k t t' n free same stored once =
    rw (sym same, and_true (str_eq k.key key), stored)
      (grown_keys key k t n (rw same free) once (row ∷ t.payouts))

pub creates_StoredAfter :
    (key : String) (req : CreatePayoutRequest) (t : Tables) (n : ℕ) (o : Outcome TxResult × Db)
    → IsFailed t o ⊎ (IsTaken req.idempotency_key t t o ⊎ IsCreated req t o)
    → StoredAfter key t n
    → StoredAfter key o.1.tables
        (n + (if str_eq req.idempotency_key key && committed o.0.1 then 1 else 0))
creates_StoredAfter key req t n ((r, none), db) (inl (_, failed, _, _)) once = ground arith
creates_StoredAfter key req t n ((r, some e), db) (inl (_, _, _, same)) once =
    refused_StoredAfter key t db.tables n (str_eq req.idempotency_key key) same once
creates_StoredAfter key req t n ((r, none), db) (inr (inl (_, _, _, exists, _))) once = ground arith
creates_StoredAfter key req t n ((r, some e), db) (inr (inl (_, _, _, _, same))) once =
    refused_StoredAfter key t db.tables n (str_eq req.idempotency_key key) same once
creates_StoredAfter key req t n ((r, some e), db) (inr (inr (_, _, _, _, _, _, _, failed, _)))
      once =
    ground arith
creates_StoredAfter key req t n ((r, none), db) (inr (inr (row, k, free, same, _, _, _, _, stored)))
      once =
    created_StoredAfter key req.idempotency_key row k t db.tables n free same stored once

pub updates_keys :
    (id : Uuid) (params : UpdatePayoutParams) (db : Db)
    → (Repo.update_payout_state id params db).1.tables.idempotency_keys ≡ db.tables.idempotency_keys
updates_keys id params db = elim (update_payout_state_cases id params db) [
  | inl (_, _, same) ↦ ap (λ t. t.idempotency_keys) same
  | inr (_, _, (_, _, _, keys)) ↦ keys
]

cancels_keys :
    (id : Uuid) (db : Db)
    → (Repo.cancel_payout id cancelable_states db).1.tables.idempotency_keys
      ≡ db.tables.idempotency_keys
cancels_keys id db = elim (cancel_payout_cases id cancelable_states db) [
  | inl (_, _, same) ↦ ap (λ t. t.idempotency_keys) same
  | inr (_, _, _, (_, _, _, keys)) ↦ keys
]

pub Piece-StoredAfter :
    {d e : Db} (key : String) (n : ℕ) (s : Piece d e)
    → StoredAfter key d.tables n
    → StoredAfter key e.tables (n + commits_of key s)
unfolding commits
Piece-StoredAfter {d} key n (creates req) once =
    creates_StoredAfter key req d.tables n (run_in_tx no_tx_result (create_in_tx req) d)
      (create_tx_cases req d) once
Piece-StoredAfter {d} {e} key n (updates id params) once =
    same_keys key d.tables e.tables n (updates_keys id params d) once
Piece-StoredAfter {d} {e} key n (cancels id) once =
    same_keys key d.tables e.tables n (cancels_keys id d) once
Piece-StoredAfter {d} key n (drifts db' same) once =
    same_keys key d.tables db'.tables n (ap (λ t. t.idempotency_keys) same) once
