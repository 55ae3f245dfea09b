-- ===== src/Service/Create/Answers.antt =====
-- `CreatePayout` comes to an answer: neither the routing nor the sending panics.
use payment_orchestrator.Base.{
  ℕ, ◌<◌, ◌≡◌, ◌≢◌, refl, String, Option, none, some, arith, Bool-cases, inl, inr, ◌⊎◌, List,
  str_eq, not,
}
use payment_orchestrator.Domain.{Uuid, Time, Payout}
use payment_orchestrator.Persistence.Result.{Result, ok, err, is_key_exists}
use payment_orchestrator.Persistence.Queries.{Db}
use payment_orchestrator.Persistence.Repo
use payment_orchestrator.Persistence.Repo.{Outcome, run_in_tx}
use payment_orchestrator.Provider.SuccessTracker.{SuccessTracker, Float64}
use payment_orchestrator.Provider.SuccessRate.Order.{GtLaws}
use payment_orchestrator.Provider.Registry.{ProviderWithMeta}
use payment_orchestrator.Provider.Router.{
  Selection, selected, no_providers, panicked, select_providers,
}
use payment_orchestrator.Provider.Router.Laws.{Covers, select_providers-Covers}
use payment_orchestrator.Provider.Orchestrator.{
  Orchestrator, SendPayoutResult, send_payout_with_fallback,
}
use payment_orchestrator.Service.Types.{crashed, World, with_db}
use payment_orchestrator.Service.Create.{
  CreatePayoutRequest, TxResult, no_tx_result, create_in_tx, after_sending,
  send_payout_with_orchestrator, created_reply, existing_reply, after_tx, create_payout,
}

Covers-panicked :
    {E : Type 0} (active : List (ProviderWithMeta E)) (s : Selection E)
    → Covers active s
    → s ≢ panicked
Covers-panicked active (selected ps) covers h = ground arith
Covers-panicked active no_providers covers h = ground arith
Covers-panicked active panicked covers h = covers

Selection-cases :
    {E : Type 0} (s : Selection E)
    → (s ≡ panicked) ⊎ ((s ≡ no_providers) ⊎ ((ps : List (ProviderWithMeta E)) × (s ≡ selected ps)))
Selection-cases (selected ps) = inr (inr (ps, refl))
Selection-cases no_providers = inr (inl refl)
Selection-cases panicked = inl refl

module _ (fl : Float64) (intn : ℕ → ℕ) (now : Time) (uuid_string : Uuid → String) {E : Type 0}
    (o : Orchestrator E) where
  send-ne-none :
      (p : Payout) (t : SuccessTracker) (e : E)
      → ((n : ℕ) → 0 < n → intn n < n)
      → GtLaws fl
      → send_payout_with_fallback fl intn now o p t e ≢ none
  unfolding send_payout_with_fallback
  send-ne-none p t e lawful laws h =
      elim (Selection-cases
        (select_providers fl intn t o.min_samples o.registry p.rail o.routing_algo)) [
          | inl broken ↦
              Covers-panicked _ _
                (select_providers-Covers fl intn t o.min_samples o.registry p.rail o.routing_algo
                  lawful laws)
                broken
          | inr (inl no_active) ↦ ground (arith, rw (no_active, send_payout_with_fallback) at h)
          | inr (inr (ps, found)) ↦ ground (arith, rw (found, send_payout_with_fallback) at h)
        ]

  existing_reply-answers :
      (w : World E) (r : Result Payout × Db)
      → (existing_reply fl intn now uuid_string (some o) w r).0 ≢ crashed
  existing_reply-answers w (err e, db) h = ground arith
  existing_reply-answers w (ok p, db) h = ground arith

  after_sending-answers :
      (p : Payout) (w : World E) (s : Option (SendPayoutResult × SuccessTracker × E))
      → s ≢ none
      → (created_reply fl intn now uuid_string
          (some o)
          (after_sending fl intn now uuid_string (some o) p w s)).0
        ≢ crashed
  after_sending-answers p w none sent h = sent refl
  after_sending-answers p w (some (r, t, e)) sent h = ground arith

  after_tx-answers :
      (req : CreatePayoutRequest) (w : World E) (tx : Outcome TxResult × Db)
      → ((n : ℕ) → 0 < n → intn n < n)
      → GtLaws fl
      → (after_tx fl intn now uuid_string (some o) req w tx).0 ≢ crashed
  unfolding send_payout_with_orchestrator
  after_tx-answers req w ((r, none), db) lawful laws =
      after_sending-answers r.new_payout (with_db w db) _
        (send-ne-none r.new_payout w.tracker w.env lawful laws)
  after_tx-answers req w ((r, some e), db) lawful laws = elim (Bool-cases (is_key_exists e)) [
    | inr other ↦ rw other (λ h. ground arith)
    | inl exists ↦ elim (Bool-cases (not (str_eq r.existing_key.request_hash req.request_hash))) [
      | inl differs ↦ rw (exists, differs) (λ h. ground arith)
      | inr agrees ↦
          rw (exists, agrees)
            (existing_reply-answers w (Repo.get_payout r.existing_key.payout_id db))
    ]
  ]

  -- In a service with an orchestrator, with draws that stay below their bound and a comparison of
  -- rates that is asymmetric and whose negation is transitive, `CreatePayout` always comes to an
  -- answer or an error status, whatever the database and the providers do.
  pub create_payout-answers :
      (req : CreatePayoutRequest) (w : World E)
      → ((n : ℕ) → 0 < n → intn n < n)
      → GtLaws fl
      → (create_payout fl intn now uuid_string (some o) req w).0 ≢ crashed
  unfolding create_payout
  create_payout-answers req w lawful laws = elim (Bool-cases (str_eq req.idempotency_key "")) [
    | inl keyless ↦ rw keyless (λ h. ground arith)
    | inr keyed ↦ elim (Bool-cases (str_eq req.request_hash "")) [
      | inl no_hash ↦ rw (keyed, no_hash) (λ h. ground arith)
      | inr hashed ↦
          rw (keyed, hashed)
            (after_tx-answers req w (run_in_tx no_tx_result (create_in_tx req) w.db) lawful laws)
    ]
  ]
