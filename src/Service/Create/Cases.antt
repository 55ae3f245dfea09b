-- ===== src/Service/Create/Cases.antt =====
-- How `CreatePayout` can end, as far as its idempotency key goes.
use payment_orchestrator.Base.{
  ℕ, ◌≡◌, ◌≢◌, refl, String, Option, none, some, arith, Bool-cases, inl, inr, ◌⊎◌, sym, ap, ◌∙◌,
  str_eq, str_eq_iff,
}
use payment_orchestrator.Domain.{Uuid, Time, Payout, IdempotencyKey}
use payment_orchestrator.Persistence.Result.{Result, ok, err, is_key_exists}
use payment_orchestrator.Persistence.Queries.{KeyRow, Tables, Db, find_key}
use payment_orchestrator.Persistence.Repo
use payment_orchestrator.Persistence.Repo.{
  Outcome, to_domain_idempotency_key, to_domain_payout, run_in_tx, finish,
}
use payment_orchestrator.Persistence.Repo.Valid
use payment_orchestrator.Persistence.Repo.Cases.{
  get_payout_id, update_payout_state_id, update_payout_state_keys,
}
use payment_orchestrator.Provider.SuccessTracker.{SuccessTracker, Float64}
use payment_orchestrator.Provider.Orchestrator.{Orchestrator, SendPayoutResult}
use payment_orchestrator.Service.Types.{
  Code, Message, Reply, reply, status, crashed, World, with_db,
}
use payment_orchestrator.Service.Create.{
  CreatePayoutRequest, CreatePayoutResponse, TxResult, no_tx_result, create_in_tx, store_result,
  after_sending, send_payout_with_orchestrator, created_reply, existing_reply, after_tx,
  create_payout, or_keep,
}
use payment_orchestrator.Service.Create.Transaction.{IsFailed, IsTaken, IsCreated, create_tx_cases}

-- The tables, the providers and the tracker are as they were.
abbrev pub Untouched : {E A : Type 0} → World E → Reply A × World E → Type 0
Untouched w (r, w') = (w'.db.tables ≡ w.db.tables) × (w'.env ≡ w.env) × (w'.tracker ≡ w.tracker)

-- The tables hold the key of the request, with its hash and the payout that the answer names.
abbrev pub IsAnswerOf :
    (Uuid → String) → CreatePayoutRequest → Tables → CreatePayoutResponse → Type 0
IsAnswerOf uuid_string req t r =
    (k : KeyRow) × (find_key req.idempotency_key t.idempotency_keys ≡ some k)
    × (k.request_hash ≡ req.request_hash)
    × (r.payout_id ≡ uuid_string k.payout_id)

pub store_result_keys :
    (p : Payout) (r : SendPayoutResult) (db : Db)
    → (store_result p r db).1.tables.idempotency_keys ≡ db.tables.idempotency_keys
store_result_keys p r db = elim (Bool-cases r.success) [
  | inl sent ↦ rw sent (update_payout_state_keys p.id _ db)
  | inr not_sent ↦ rw not_sent (update_payout_state_keys p.id _ db)
]

or_keep_id :
    (p : Payout) (r : Result Payout)
    → ((q : Payout) → r ≡ ok q → q.id ≡ p.id)
    → (or_keep p r).id ≡ p.id
or_keep_id p (ok q) same = same q refl
or_keep_id p (err e) same = refl

store_result_id :
    (p : Payout) (r : SendPayoutResult) (db : Db) (q : Payout)
    → (store_result p r db).0 ≡ ok q
    → q.id ≡ p.id
store_result_id p r db q h = elim (Bool-cases r.success) [
  | inl sent ↦ update_payout_state_id p.id _ db q (rw sent at h)
  | inr not_sent ↦ update_payout_state_id p.id _ db q (rw not_sent at h)
]

abbrev or_zero : Option Payout → Uuid
or_zero none = 0
or_zero (some p) = p.id

abbrev replied_id : Reply CreatePayoutResponse → String
replied_id (reply a) = a.payout_id
replied_id (status c m) = ""
replied_id crashed = ""

module _ (fl : Float64) (intn : ℕ → ℕ) (now : Time) (uuid_string : Uuid → String) {E : Type 0}
    (o : Orchestrator E) where
  -- What is left of the sending: the keys as they were, and the payout that was sent, or a panic.
  abbrev IsSent : Payout → Db → Option Payout × World E → Type 0
  IsSent p db (r, w) =
      (w.db.tables.idempotency_keys ≡ db.tables.idempotency_keys)
      × ((q : Payout) → r ≡ some q → q.id ≡ p.id)

  after_sending-IsSent :
      (p : Payout) (w : World E) (r : Option (SendPayoutResult × SuccessTracker × E))
      → IsSent p w.db (after_sending fl intn now uuid_string (some o) p w r)
  after_sending-IsSent p w none = (refl, λ q h. ground arith)
  after_sending-IsSent p w (some (r, t, e)) = (
    store_result_keys p r w.db,
    λ q h.
        let same = or_keep_id p (store_result p r w.db).0 (store_result_id p r w.db) in
        ap or_zero (sym h) ∙ same,
  )

  send-IsSent :
      (p : Payout) (w : World E)
      → IsSent p w.db (send_payout_with_orchestrator fl intn now uuid_string (some o) p w)
  unfolding send_payout_with_orchestrator
  send-IsSent p w = after_sending-IsSent p w _

  -- The request was refused, failed or repeated, with nothing changed; or it stored its key.
  abbrev pub Cases : CreatePayoutRequest → World E → Reply CreatePayoutResponse × World E → Type 0
  Cases req w (r, w') =
      (Untouched w (r, w')
        × ((a : CreatePayoutResponse) → r ≡ reply a → IsAnswerOf uuid_string req w'.db.tables a))
      ⊎ ((find_key req.idempotency_key w.db.tables.idempotency_keys ≡ none)
          × ((a : CreatePayoutResponse) → r ≡ reply a → IsAnswerOf uuid_string req w'.db.tables a)
          × ((c : Code) (m : Message) → r ≢ status c m))

  created-Cases :
      (req : CreatePayoutRequest) (w : World E) (p : Payout) (k : KeyRow)
      (s : Option Payout × World E)
      → find_key req.idempotency_key w.db.tables.idempotency_keys ≡ none
      → find_key req.idempotency_key s.1.db.tables.idempotency_keys ≡ some k
      → k.request_hash ≡ req.request_hash
      → k.payout_id ≡ p.id
      → ((q : Payout) → s.0 ≡ some q → q.id ≡ p.id)
      → Cases req w (created_reply fl intn now uuid_string (some o) s)
  created-Cases req w p k (none, w') free stored hash owner same =
      inr (free, λ a h. ground arith, λ c m h. ground arith)
  created-Cases req w p k (some q, w') free stored hash owner same = inr (
    free,
    λ a h. (k, stored, hash, ap replied_id (sym h) ∙ ap uuid_string (same q refl ∙ sym owner)),
    λ c m h. ground arith,
  )

  existing-Cases :
      (req : CreatePayoutRequest) (w : World E) (old : KeyRow) (found : Result Payout × Db)
      → find_key req.idempotency_key w.db.tables.idempotency_keys ≡ some old
      → old.request_hash ≡ req.request_hash
      → found.1.tables ≡ w.db.tables
      → ((p : Payout) → found.0 ≡ ok p → p.id ≡ old.payout_id)
      → Cases req w (existing_reply fl intn now uuid_string (some o) w found)
  existing-Cases req w old (err e, db) taken hash kept same =
      inl ((kept, refl, refl), λ a h. ground arith)
  existing-Cases req w old (ok p, db) taken hash kept same = inl (
    (kept, refl, refl),
    λ a h. (old, rw kept taken, hash, ap replied_id (sym h) ∙ ap uuid_string (same p refl)),
  )

  after_tx-Cases :
      (req : CreatePayoutRequest) (w : World E) (t : Outcome TxResult × Db)
      → IsFailed w.db.tables t
        ⊎ (IsTaken req.idempotency_key w.db.tables w.db.tables t ⊎ IsCreated req w.db.tables t)
      → Cases req w (after_tx fl intn now uuid_string (some o) req w t)
  unfolding to_domain_payout to_domain_idempotency_key
  after_tx-Cases req w ((r, none), db) (inl (e, failed, other, kept)) = ground arith
  after_tx-Cases req w ((r, some e), db) (inl (e', failed, other, kept)) =
      inl (rw (failed', other) ((kept, refl, refl), λ a h. ground arith))
    where
      failed' : e ≡ e'
      failed' = ground arith
  after_tx-Cases req w ((r, none), db) (inr (inl (old, taken, answer, exists, kept))) = ground arith
  after_tx-Cases req w ((r, some e), db) (inr (inl (old, taken, answer, exists, kept))) =
      elim (Bool-cases (is_key_exists e)) [
        | inr other ↦ ground arith
        | inl is_taken ↦ elim (Bool-cases (str_eq r.existing_key.request_hash req.request_hash)) [
          | inr conflict ↦ rw (is_taken, conflict) (inl ((kept, refl, refl), λ a h. ground arith))
          | inl replay ↦
              rw (is_taken, replay)
                (existing-Cases req w old (Repo.get_payout r.existing_key.payout_id db) taken
                  (sym (ap (λ (k : IdempotencyKey). k.request_hash) answer)
                    ∙ (str_eq_iff _ _).0 replay)
                  (Valid.get_payout_tables r.existing_key.payout_id db ∙ kept)
                  (λ p h.
                    get_payout_id r.existing_key.payout_id db p h
                    ∙ ap (λ (k : IdempotencyKey). k.payout_id) answer))
        ]
      ]
  after_tx-Cases req w ((r, some e), db) (inr (inr (row, k, free, a, b, c, d, none', t))) =
      ground arith
  after_tx-Cases req w ((r, none), db) (inr (inr (row, k, free, a, b, c, d, none', t))) =
      let (keys, same) = send-IsSent r.new_payout (with_db w db) in
      created-Cases req w r.new_payout k
        (send_payout_with_orchestrator fl intn now uuid_string (some o) r.new_payout (with_db w db))
        free (rw (keys, t) ground (arith, str_eq_iff k.key req.idempotency_key)) b
        (c ∙ ap (λ (p : Payout). p.id) (sym d)) same

  pub create_payout-Cases :
      (req : CreatePayoutRequest) (w : World E)
      → Cases req w (create_payout fl intn now uuid_string (some o) req w)
  unfolding create_payout
  create_payout-Cases req w = elim (Bool-cases (str_eq req.idempotency_key "")) [
    | inl no_key ↦ rw no_key (inl ((refl, refl, refl), λ a h. ground arith))
    | inr key ↦ elim (Bool-cases (str_eq req.request_hash "")) [
      | inl no_hash ↦ rw (key, no_hash) (inl ((refl, refl, refl), λ a h. ground arith))
      | inr hash ↦
          rw (key, hash)
            (after_tx-Cases req w (run_in_tx no_tx_result (create_in_tx req) w.db)
              (create_tx_cases req w.db))
    ]
  ]
