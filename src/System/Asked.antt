-- ===== src/System/Asked.antt =====
-- Which calls of `CreatePayout` ask a provider, and what they do to the tables.
use payment_orchestrator.Base.{
  ℕ, ◌≡◌, refl, String, Bool, true, false, Option, none, some, ◌∷◌, arith, ◌==◌, Bool-cases, inl,
  inr, ◌⊎◌, ap, ◌∙◌, str_eq, str_eq_iff, str_eq_refl, if◌then◌else◌,
}
use mathlib.Core.Path.{subst}
use payment_orchestrator.Domain.{Uuid, Time, Payout, UpdatePayoutParams}
use payment_orchestrator.Persistence.Result.{Err, Result, ok, err, is_key_exists}
use payment_orchestrator.Persistence.Queries.{PayoutRow, KeyRow, Tables, Db, find_payout, find_key}
use payment_orchestrator.Persistence.Queries.Valid.{IsValid, RowsValid}
use payment_orchestrator.Persistence.Repo
use payment_orchestrator.Persistence.Repo.{Outcome, to_domain_payout, run_in_tx}
use payment_orchestrator.Persistence.Repo.Valid.{get_payout_tables, with_key, run_in_tx-IsValid}
use payment_orchestrator.Persistence.Repo.Cases.{with_payout}
use payment_orchestrator.Persistence.Repo.Update.{update_payout_state_cases}
use payment_orchestrator.Provider.SuccessTracker.{SuccessTracker, Float64}
use payment_orchestrator.Provider.Orchestrator.{Orchestrator, SendPayoutResult}
use payment_orchestrator.Service.Types.{Reply, World, with_db}
use payment_orchestrator.Service.Create.{
  CreatePayoutRequest, CreatePayoutResponse, TxResult, no_tx_result, create_in_tx, store_result,
  after_sending, send_payout_with_orchestrator, created_reply, existing_reply, after_tx,
  create_payout,
}
use payment_orchestrator.Service.Create.Transaction.{IsFailed, IsTaken, IsCreated, create_tx_cases}
use payment_orchestrator.Service.Create.Cases.{Untouched}
use payment_orchestrator.Service.Create.Valid.{create_in_tx-IsValid}
use payment_orchestrator.Service.Valid.{IsValidWorld}
use payment_orchestrator.System.Follows.{Follows, IsVersionOf-refl, new_row_other}

abbrev pub committed : Option Err → Bool
committed none = true
committed (some _) = false

-- Whether the call commits a new payout, which it then sends to the providers.
unfoldable pub asks : {E : Type 0} → CreatePayoutRequest → World E → Bool
asks req w =
    if str_eq req.idempotency_key ""
    then false
    else if str_eq req.request_hash ""
    then false
    else committed (run_in_tx no_tx_result (create_in_tx req) w.db).0.1

-- The keys, and every payout but one, are as they were.
abbrev OthersKept : Uuid → Tables → Tables → Type 0
OthersKept id t t' =
    (t'.idempotency_keys ≡ t.idempotency_keys)
    × ((other : Uuid)
        → (other == id) ≡ false
        → find_payout other t'.payouts ≡ find_payout other t.payouts)

update_payout_state_others :
    (id : Uuid) (params : UpdatePayoutParams) (db : Db)
    → OthersKept id db.tables (Repo.update_payout_state id params db).1.tables
update_payout_state_others id params db = elim (update_payout_state_cases id params db) [
  | inl (_, _, same) ↦ rw same (refl, λ other apart. refl)
  | inr (_, _, (_, _, others, keys)) ↦ (keys, others)
]

store_result_others :
    (p : Payout) (r : SendPayoutResult) (db : Db)
    → OthersKept p.id db.tables (store_result p r db).1.tables
store_result_others p r db = elim (Bool-cases r.success) [
  | inl sent ↦ rw sent (update_payout_state_others p.id _ db)
  | inr not_sent ↦ rw not_sent (update_payout_state_others p.id _ db)
]

-- The new payout and its key are there, and all others stay.
created_Follows :
    (row : PayoutRow) (k : KeyRow) (t t' : Tables)
    → RowsValid (row ∷ t.payouts)
    → find_key k.key t.idempotency_keys ≡ none
    → OthersKept row.id (with_key k (with_payout row t)) t'
    → Follows t t' × (find_key k.key t'.idempotency_keys ≡ some k)
created_Follows row k t t' v free (keys, others) = (
  record {
    keys_kept = λ key r h. rw keys (ground (arith, str_eq_iff k.key key));
    rows_kept = λ id old h.
        let apart : (row.id == id) ≡ false = new_row_other row t.payouts id old v h in
        (old, others id (ground arith) ∙ ground arith, IsVersionOf-refl old);
  },
  rw keys (ground (arith, str_eq_refl k.key)),
)

module _ (fl : Float64) (intn : ℕ → ℕ) (now : Time) (uuid_string : Uuid → String) {E : Type 0}
    (o : Orchestrator E) where
  created_reply_world :
      (s : Option Payout × World E) → (created_reply fl intn now uuid_string (some o) s).1 ≡ s.1
  created_reply_world (none, w) = refl
  created_reply_world (some p, w) = refl

  existing_reply_tables :
      (w : World E) (found : Result Payout × Db)
      → found.1.tables ≡ w.db.tables
      → Untouched w (existing_reply fl intn now uuid_string (some o) w found)
  existing_reply_tables w (err e, db) same = (same, refl, refl)
  existing_reply_tables w (ok p, db) same = (same, refl, refl)

  after_error :
      (req : CreatePayoutRequest) (w : World E) (r : TxResult) (e : Err) (db : Db)
      → db.tables ≡ w.db.tables
      → Untouched w (after_tx fl intn now uuid_string (some o) req w ((r, some e), db))
  after_error req w r e db same = elim (Bool-cases (is_key_exists e)) [
    | inr other ↦ rw other (same, refl, refl)
    | inl taken ↦ elim (Bool-cases (str_eq r.existing_key.request_hash req.request_hash)) [
      | inr conflict ↦ rw (taken, conflict) (same, refl, refl)
      | inl replay ↦
          rw (taken, replay)
            (existing_reply_tables w (Repo.get_payout r.existing_key.payout_id db)
              (get_payout_tables r.existing_key.payout_id db ∙ same))
    ]
  ]

  after_sending_others :
      (p : Payout) (w : World E) (s : Option (SendPayoutResult × SuccessTracker × E))
      → OthersKept p.id w.db.tables
          (after_sending fl intn now uuid_string (some o) p w s).1.db.tables
  after_sending_others p w none = (refl, λ other apart. refl)
  after_sending_others p w (some (r, t, e)) = store_result_others p r w.db

  send_others :
      (p : Payout) (w : World E)
      → OthersKept p.id w.db.tables
          (send_payout_with_orchestrator fl intn now uuid_string (some o) p w).1.db.tables
  unfolding send_payout_with_orchestrator
  send_others p w = after_sending_others p w _

  -- A call that asks no provider changes nothing; one that does found its key free, keeps every
  -- other payout and key, and leaves its key stored.
  abbrev pub Asked :
      CreatePayoutRequest → World E → Bool → Reply CreatePayoutResponse × World E → Type 0
  Asked req w asked a =
      ((asked ≡ false) × Untouched w a)
      ⊎ ((asked ≡ true)
          × (find_key req.idempotency_key w.db.tables.idempotency_keys ≡ none)
          × Follows w.db.tables a.1.db.tables
          × ((k : KeyRow) × (find_key req.idempotency_key a.1.db.tables.idempotency_keys ≡ some k)))

  after_tx-Asked :
      (req : CreatePayoutRequest) (w : World E) (t : Outcome TxResult × Db)
      → IsValid t.1.tables
      → IsFailed w.db.tables t
        ⊎ (IsTaken req.idempotency_key w.db.tables w.db.tables t ⊎ IsCreated req w.db.tables t)
      → Asked req w (committed t.0.1) (after_tx fl intn now uuid_string (some o) req w t)
  unfolding to_domain_payout
  after_tx-Asked req w ((r, none), db) v (inl (_, failed, _, _)) = ground arith
  after_tx-Asked req w ((r, some e), db) v (inl (_, _, _, same)) =
      inl (refl, after_error req w r e db same)
  after_tx-Asked req w ((r, none), db) v (inr (inl (_, _, _, exists, _))) = ground arith
  after_tx-Asked req w ((r, some e), db) v (inr (inl (_, _, _, _, same))) =
      inl (refl, after_error req w r e db same)
  after_tx-Asked req w ((r, some e), db) v (inr (inr (_, _, _, _, _, _, _, no_error, _))) =
      ground arith
  after_tx-Asked req w ((r, none), db) v (inr (inr (row, k, free, key, _, _, payout, _, t))) =
      let sent =
        send_payout_with_orchestrator fl intn now uuid_string (some o) r.new_payout
          (with_db w db) in
      let id : r.new_payout.id ≡ row.id = ap (λ (p : Payout). p.id) payout in
      let others =
        subst (λ i. OthersKept i (with_key k (with_payout row w.db.tables)) sent.1.db.tables) id
          (subst (λ d. OthersKept r.new_payout.id d sent.1.db.tables) t
            (send_others r.new_payout (with_db w db))) in
      let (follows, stored) =
        created_Follows row k w.db.tables sent.1.db.tables (subst IsValid t v).rows_valid
          (rw key free) others in
      rw (created_reply_world sent) (
        inr (
          refl,
          free,
          follows,
          (k, subst (λ x. find_key x sent.1.db.tables.idempotency_keys ≡ some k) key stored),
        ))

  pub create_payout-Asked :
      (req : CreatePayoutRequest) (w : World E)
      → IsValidWorld w
      → Asked req w (asks req w) (create_payout fl intn now uuid_string (some o) req w)
  unfolding create_payout asks
  create_payout-Asked req w v = elim (Bool-cases (str_eq req.idempotency_key "")) [
    | inl no_key ↦ rw no_key (inl (refl, (refl, refl, refl)))
    | inr key ↦ elim (Bool-cases (str_eq req.request_hash "")) [
      | inl no_hash ↦ rw (key, no_hash) (inl (refl, (refl, refl, refl)))
      | inr hash ↦
          let t = run_in_tx no_tx_result (create_in_tx req) w.db in
          rw (key, hash)
            (after_tx-Asked req w t
              (run_in_tx-IsValid no_tx_result (create_in_tx req) w.db (create_in_tx-IsValid req) v)
              (create_tx_cases req w.db))
    ]
  ]
