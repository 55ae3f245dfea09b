-- ===== src/Service/Create/Fresh.antt =====
-- `CreatePayout` with a key that is not stored, on a database that works.
use payment_orchestrator.Base.{
  ℕ, ◌≡◌, arith, String, true, false, not, ◌&&◌, none, some, ◌∷◌, str_eq, if◌then◌else◌, ==_refl,
  str_eq_refl, Bool-cases, inl, inr,
}
use payment_orchestrator.Domain.{Uuid, Time, sent, failed, state_string}
use payment_orchestrator.Persistence.Queries
use payment_orchestrator.Persistence.Queries.{
  PayoutRow, KeyRow, Tables, Db, row_allowed, any_row, clashes, clashes_other, find_key,
  find_payout, updated_row,
}
use payment_orchestrator.Persistence.Repo
use payment_orchestrator.Persistence.Repo.{
  run_in_tx, to_domain_payout, to_domain_idempotency_key, nullable,
}
use payment_orchestrator.Provider.SuccessTracker.{SuccessTracker, Float64}
use payment_orchestrator.Provider.Orchestrator.{
  Orchestrator, SendPayoutResult, send_payout_with_fallback,
}
use payment_orchestrator.Service.Types.{Reply, reply, World}
use payment_orchestrator.Service.Create.{
  CreatePayoutRequest, CreatePayoutResponse, create_in_tx, create_payout,
  send_payout_with_orchestrator, last_or_empty,
}
use payment_orchestrator.Service.Create.Repeat.{requested_row, working}

-- The row after the sending.
abbrev pub resulting_row : CreatePayoutRequest → Uuid → Time → SendPayoutResult → PayoutRow
resulting_row req id now result = record (requested_row req id now) {
  state = if result.success then sent else failed;
  external_id = if result.success then some result.external_id else none;
  provider =
      nullable
        (if result.success then result.used_provider else last_or_empty result.tried_providers);
}

module _ (fl : Float64) (intn : ℕ → ℕ) (now : Time) (uuid_string : Uuid → String) {E : Type 0}
    (o : Orchestrator E) where
  -- The answer names the new payout and its state; its row and its key are stored, and the
  -- tracker and the providers are as the sending left them.
  pub record IsFresh (req : CreatePayoutRequest) (id : Uuid) (result : SendPayoutResult)
      (tracker : SuccessTracker) (env : E) (a : Reply CreatePayoutResponse × World E) : Type 0 where
    pub answer :
        a.0
        ≡ reply (record {
          payout_id = uuid_string id;
          status = if result.success then "sent" else "failed";
        })
    pub row_stored : find_payout id a.1.db.tables.payouts ≡ some (resulting_row req id now result)
    pub key_stored :
        find_key req.idempotency_key a.1.db.tables.idempotency_keys
        ≡ some (record {
          key = req.idempotency_key;
          request_hash = req.request_hash;
          payout_id = id;
          created_at = now;
        })
    pub tracker_left : a.1.tracker ≡ tracker
    pub env_left : a.1.env ≡ env

  -- On a database that works, a request whose key is not stored and whose row would meet the
  -- constraints, as would the row after the sending, is answered with a new payout in state sent
  -- or failed, as the sending to the providers came out; the row and the key are stored.
  pub create_payout-IsFresh :
      (req : CreatePayoutRequest) (t : Tables) (gen : ℕ → Uuid) (drawn : ℕ)
      (tracker tracker' : SuccessTracker) (env env' : E) (result : SendPayoutResult)
      → str_eq req.idempotency_key "" ≡ false
      → str_eq req.request_hash "" ≡ false
      → (row_allowed (requested_row req (gen drawn) now)
          && not (any_row (clashes (requested_row req (gen drawn) now)) t.payouts))
        ≡ true
      → find_key req.idempotency_key t.idempotency_keys ≡ none
      → send_payout_with_fallback fl intn now o
          (to_domain_payout (requested_row req (gen drawn) now))
          tracker
          env
        ≡ some (result, tracker', env')
      → (row_allowed (resulting_row req (gen drawn) now result)
          && not (
              any_row
                (clashes_other (resulting_row req (gen drawn) now result))
                (requested_row req (gen drawn) now ∷ t.payouts)))
        ≡ true
      → IsFresh req (gen drawn) result tracker' env' (
          create_payout fl intn now uuid_string
            (some o)
            req
            (record { db = working t gen drawn now; tracker = tracker; env = env }))
  unfolding create_payout create_in_tx Repo.create_payout Queries.create_payout
      Repo.try_insert_idempotency_key Queries.try_insert_idempotency_key Queries.get_idempotency_key
      Repo.get_payout Queries.get_payout run_in_tx to_domain_payout to_domain_idempotency_key
      send_payout_with_orchestrator Repo.update_payout_state Queries.update_payout_state
      state_string
  create_payout-IsFresh req t gen drawn tracker tracker' env env' result key hash allowed free
        sending stored =
      let same = ==_refl (gen drawn) in
      let keyed = str_eq_refl req.idempotency_key in
      elim (Bool-cases result.success) [
        | inl success ↦ record {
          answer = ground (arith, allowed, free, sending, stored, same, success);
          row_stored = ground (arith, allowed, free, sending, stored, same, success);
          key_stored = ground (arith, allowed, free, sending, stored, same, success, keyed);
          tracker_left = ground (arith, allowed, free, sending, stored, same, success);
          env_left = ground (arith, allowed, free, sending, stored, same, success);
        }
        | inr failure ↦ record {
          answer = ground (arith, allowed, free, sending, stored, same, failure);
          row_stored = ground (arith, allowed, free, sending, stored, same, failure);
          key_stored = ground (arith, allowed, free, sending, stored, same, failure, keyed);
          tracker_left = ground (arith, allowed, free, sending, stored, same, failure);
          env_left = ground (arith, allowed, free, sending, stored, same, failure);
        }
      ]
