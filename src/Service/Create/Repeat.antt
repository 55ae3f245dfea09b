-- ===== src/Service/Create/Repeat.antt =====
-- `CreatePayout` repeated with a stored key, on a database that works.
use payment_orchestrator.Base.{
  ℕ, ◌≡◌, arith, String, true, false, not, ◌&&◌, Option, none, some, [], str_eq,
}
use payment_orchestrator.Domain.{Uuid, Time, created, state_string}
use payment_orchestrator.Persistence.Queries
use payment_orchestrator.Persistence.Queries.{
  PayoutRow, KeyRow, Tables, Db, row_allowed, any_row, clashes, find_key, find_payout,
}
use payment_orchestrator.Persistence.Repo
use payment_orchestrator.Persistence.Repo.{run_in_tx, to_domain_payout, to_domain_idempotency_key}
use payment_orchestrator.Provider.SuccessTracker.{SuccessTracker, Float64}
use payment_orchestrator.Provider.Orchestrator.{Orchestrator}
use payment_orchestrator.Service.Types.{reply}
use payment_orchestrator.Service.Create.{CreatePayoutRequest, create_in_tx, create_payout}

-- The row that the request would insert.
abbrev pub requested_row : CreatePayoutRequest → Uuid → Time → PayoutRow
requested_row req id now = record {
  id = id;
  state = created;
  amount_cents = req.amount;
  currency = req.currency;
  rail = req.rail;
  provider = none;
  external_id = none;
  created_at = now;
  updated_at = now;
}

-- A database on which no statement fails.
abbrev pub working : Tables → (ℕ → Uuid) → ℕ → Time → Db
working t gen drawn now = record { tables = t; faults = []; gen = gen; drawn = drawn; now = now }

module _ (fl : Float64) (intn : ℕ → ℕ) (now : Time) (uuid_string : Uuid → String) {E : Type 0}
    (server : Option (Orchestrator E)) where
  -- On a database that works, a request whose row would meet the constraints, and whose key is
  -- stored with its hash and belongs to a stored payout, is answered with that payout and the
  -- state in which it is now.
  pub create_payout-repeated :
      (req : CreatePayoutRequest) (t : Tables) (gen : ℕ → Uuid) (drawn : ℕ)
      (tracker : SuccessTracker) (env : E) (k : KeyRow) (row : PayoutRow)
      → str_eq req.idempotency_key "" ≡ false
      → str_eq req.request_hash "" ≡ false
      → (row_allowed (requested_row req (gen drawn) now)
          && not (any_row (clashes (requested_row req (gen drawn) now)) t.payouts))
        ≡ true
      → find_key req.idempotency_key t.idempotency_keys ≡ some k
      → str_eq k.request_hash req.request_hash ≡ true
      → find_payout k.payout_id t.payouts ≡ some row
      → (create_payout fl intn now uuid_string server req
          (record { db = working t gen drawn now; tracker = tracker; env = env })).0
        ≡ reply (record { payout_id = uuid_string row.id; status = state_string row.state })
  unfolding create_payout create_in_tx Repo.create_payout Queries.create_payout
      Repo.try_insert_idempotency_key Queries.try_insert_idempotency_key Queries.get_idempotency_key
      Repo.get_payout Queries.get_payout run_in_tx to_domain_payout to_domain_idempotency_key
  create_payout-repeated req t gen drawn tracker env k row key hash allowed taken same found =
      ground (arith, allowed, taken, same, found)
