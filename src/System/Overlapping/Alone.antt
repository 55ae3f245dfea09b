-- ===== src/System/Overlapping/Alone.antt =====
-- A call of `CreatePayout` that runs alone, as moves of calls that overlap.
use mathlib.Core.Path.{subst}
use payment_orchestrator.Base.{
  ℕ, ◌≡◌, refl, String, true, false, some, none, [], ◌∷◌, ◌++◌, arith, str_eq, sym,
}
use payment_orchestrator.Domain.{Uuid, Time}
use payment_orchestrator.Persistence.Queries.{Db}
use payment_orchestrator.Persistence.Repo.{Outcome, run_in_tx}
use payment_orchestrator.Provider.SuccessTracker.{SuccessTracker, Float64}
use payment_orchestrator.Provider.Orchestrator.{
  Orchestrator, SendPayoutResult, send_payout_with_fallback,
}
use payment_orchestrator.Service.Types.{World}
use payment_orchestrator.Service.Create.{
  CreatePayoutRequest, TxResult, no_tx_result, create_in_tx, store_result, after_tx, create_payout,
  send_payout_with_orchestrator,
}
use payment_orchestrator.System.Asked.{committed}
use payment_orchestrator.System.Overlapping
use payment_orchestrator.System.Overlapping.{
  Call, Shared, to_send, to_store, begun, Moves, begins, sends, stores,
}

module _ (fl : Float64) (intn : ℕ → ℕ) (now : Time) (uuid_string : Uuid → String) {E : Type 0}
    (o : Orchestrator E) where
  after_sent :
      (req : CreatePayoutRequest) (w : World E) (t : Outcome TxResult × Db)
      (result : SendPayoutResult) (tracker : SuccessTracker) (env : E)
      → committed t.0.1 ≡ true
      → send_payout_with_fallback fl intn now o t.0.0.new_payout w.tracker w.env
        ≡ some (result, tracker, env)
      → (after_tx fl intn now uuid_string (some o) req w t).1
        ≡ record { db = (store_result t.0.0.new_payout result t.1).1; tracker = tracker; env = env }
  unfolding send_payout_with_orchestrator
  after_sent req w ((r, none), db) result tracker env done sent = ground (arith, sent)
  after_sent req w ((r, some e), db) result tracker env done sent = ground arith

  -- A call of `CreatePayout` that commits a payout, run on its own, leaves the world as its three
  -- moves do: it begins, sends the payout that it committed, and stores the result.
  create_payout-Moves :
      (req : CreatePayoutRequest) (w : World E) (result : SendPayoutResult)
      (tracker : SuccessTracker) (env : E)
      → str_eq req.idempotency_key "" ≡ false
      → str_eq req.request_hash "" ≡ false
      → let t = run_in_tx no_tx_result (create_in_tx req) w.db in
        committed t.0.1 ≡ true
        → send_payout_with_fallback fl intn now o t.0.0.new_payout w.tracker w.env
          ≡ some (result, tracker, env)
        → Moves fl o
            (record { world = w; calls = [] })
            (record {
              world = (create_payout fl intn now uuid_string (some o) req w).1;
              calls = [];
            })
  unfolding create_payout
  create_payout-Moves req w result tracker env key hash done sent =
      let t = run_in_tx no_tx_result (create_in_tx req) w.db in
      let start : Shared E = record { world = w; calls = [] } in
      let p = t.0.0.new_payout in
      let one : (begun req start).calls ≡ [] ++ to_send req.idempotency_key p ∷ [] = rw done refl in
      rw (key, hash)
        (subst (λ v. Moves fl o start (record { world = v; calls = [] }))
          (sym (after_sent req w t result tracker env done sent))
          (Overlapping.next
            (Overlapping.next (Overlapping.next Overlapping.here (begins req))
              (sends intn now [] [] req.idempotency_key p result tracker env one sent))
            (stores [] [] req.idempotency_key p result refl)))
