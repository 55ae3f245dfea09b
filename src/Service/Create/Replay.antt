-- ===== src/Service/Create/Replay.antt =====
-- `CreatePayout` and its idempotency keys.
use payment_orchestrator.Base.{ℕ, ◌≡◌, String, Option, some, arith, inl, inr, sym, ap, ◌∙◌}
use payment_orchestrator.Domain.{Uuid, Time}
use payment_orchestrator.Persistence.Queries.{KeyRow, find_key}
use payment_orchestrator.Provider.SuccessTracker.{Float64}
use payment_orchestrator.Provider.Orchestrator.{Orchestrator}
use payment_orchestrator.Service.Types.{Code, Message, reply, status, World}
use payment_orchestrator.Service.Create.{CreatePayoutRequest, CreatePayoutResponse, create_payout}
use payment_orchestrator.Service.Create.Cases.{Untouched, IsAnswerOf, create_payout-Cases}

some_eq : {x y : KeyRow} → ◌≡◌ {A = Option KeyRow} (some x) (some y) → x ≡ y
some_eq h = ground arith

module _ (fl : Float64) (intn : ℕ → ℕ) (now : Time) (uuid_string : Uuid → String) {E : Type 0}
    (o : Orchestrator E) where
  -- In a service with an orchestrator, when `CreatePayout` answers, the tables hold the
  -- idempotency key of the request with the hash of the request, and the answer names the payout
  -- of that key. This holds for any faults of the database and any behaviour of the providers.
  pub create_payout-IsAnswerOf :
      (req : CreatePayoutRequest) (w : World E) (a : CreatePayoutResponse)
      → (create_payout fl intn now uuid_string (some o) req w).0 ≡ reply a
      → IsAnswerOf uuid_string req
          (create_payout fl intn now uuid_string (some o) req w).1.db.tables
          a
  create_payout-IsAnswerOf req w a h = elim (create_payout-Cases fl intn now uuid_string o req w) [
    | inl (_, answer) ↦ answer a h
    | inr (_, answer, _) ↦ answer a h
  ]

  -- In a service with an orchestrator, a `CreatePayout` that returns an error status has changed
  -- no table, has asked no provider and has counted nothing, for any faults of the database.
  pub create_payout-status :
      (req : CreatePayoutRequest) (w : World E) (c : Code) (m : Message)
      → (create_payout fl intn now uuid_string (some o) req w).0 ≡ status c m
      → Untouched w (create_payout fl intn now uuid_string (some o) req w)
  create_payout-status req w c m h = elim (create_payout-Cases fl intn now uuid_string o req w) [
    | inl (untouched, _) ↦ untouched
    | inr (_, _, no_status) ↦ absurd (no_status c m h)
  ]

  -- A request whose key is stored changes no table, asks no provider and counts nothing; if it is
  -- answered, the answer names the payout of the key, and the request has the hash of the key.
  pub create_payout-stored :
      (again : CreatePayoutRequest) (later : World E) (k : KeyRow)
      → find_key again.idempotency_key later.db.tables.idempotency_keys ≡ some k
      → Untouched later (create_payout fl intn now uuid_string (some o) again later)
        × ((b : CreatePayoutResponse)
            → (create_payout fl intn now uuid_string (some o) again later).0 ≡ reply b
            → (b.payout_id ≡ uuid_string k.payout_id) × (again.request_hash ≡ k.request_hash))
  create_payout-stored again later k taken =
      elim (create_payout-Cases fl intn now uuid_string o again later) [
        | inr (free, _, _) ↦ ground arith
        | inl (untouched, answer) ↦ (
          untouched,
          λ b second.
              let (k', found, hash', named') = answer b second in
              let same : k' ≡ k = some_eq (sym (rw untouched.0 at found) ∙ taken) in
              (
                named' ∙ ap (λ (x : KeyRow). uuid_string x.payout_id) same,
                sym hash' ∙ ap (λ (x : KeyRow). x.request_hash) same,
              ),
        )
      ]

  -- In a service with an orchestrator, a second `CreatePayout` with a key that a first one
  -- answered, in any later state in which the key is still stored as the first one left it,
  -- changes no table, asks no provider and counts nothing; if it answers, it names the payout of
  -- the first answer and came with the hash of the first request.
  pub create_payout-idempotent :
      (req again : CreatePayoutRequest) (w later : World E) (a : CreatePayoutResponse)
      → again.idempotency_key ≡ req.idempotency_key
      → (create_payout fl intn now uuid_string (some o) req w).0 ≡ reply a
      → find_key req.idempotency_key later.db.tables.idempotency_keys
        ≡ find_key req.idempotency_key
            (create_payout fl intn now uuid_string (some o) req w).1.db.tables.idempotency_keys
      → Untouched later (create_payout fl intn now uuid_string (some o) again later)
        × ((b : CreatePayoutResponse)
            → (create_payout fl intn now uuid_string (some o) again later).0 ≡ reply b
            → (b.payout_id ≡ a.payout_id) × (again.request_hash ≡ req.request_hash))
  create_payout-idempotent req again w later a same_key first kept =
      let (k, stored, hash, named) = create_payout-IsAnswerOf req w a first in
      let (untouched, answers) = create_payout-stored again later k (rw same_key (kept ∙ stored)) in
      (
        untouched,
        λ b second. let (named', hash') = answers b second in (named' ∙ sym named, hash' ∙ hash),
      )
