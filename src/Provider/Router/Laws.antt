-- ===== src/Provider/Router/Laws.antt =====
-- What `SelectProviders` (provider/router.go) selects, over all algorithms.
use mathlib.Core.List.{Perm}
use mathlib.Core.List.Perm
use payment_orchestrator.Base.{ℕ, ◌<◌, ◌≡◌, ◌≢◌, refl, List, [], ◌∷◌, str_eq, Bool-cases, inl, inr}
use payment_orchestrator.Domain.{Rail}
use payment_orchestrator.Provider.Registry.{ProviderWithMeta, Registry, get_providers}
use payment_orchestrator.Provider.SuccessTracker.{SuccessTracker, Float64}
use payment_orchestrator.Provider.Weights.Select.{select_by_weight-perm}
use payment_orchestrator.Provider.SuccessRate.Order.{GtLaws, select_by_success_rate-IsOrdered}
use payment_orchestrator.Provider.Router.{
  RoutingAlgorithm, routing_weighted, routing_success_based, Selection, selected, no_providers,
  panicked, route, select_providers,
}

-- A selection is right for a list of providers: an error if there are none, else all of them.
abbrev pub Covers : {E : Type 0} → List (ProviderWithMeta E) → Selection E → Type 0
Covers active (selected ps) = Perm ps active × (active ≢ [])
Covers active no_providers = active ≡ []
Covers active panicked = ⊥

module _ (fl : Float64) (intn : ℕ → ℕ) (t : SuccessTracker) (min_samples : ℕ) {E : Type 0} where
  route-Covers :
      (rail : Rail) (algo : RoutingAlgorithm) (ps : List (ProviderWithMeta E))
      → ((n : ℕ) → 0 < n → intn n < n)
      → GtLaws fl
      → Covers ps (route fl intn t min_samples rail algo ps)
  unfolding route
  route-Covers rail algo [] lawful g = refl
  route-Covers rail algo (p ∷ ps) lawful g = elim (Bool-cases (str_eq algo routing_weighted)) [
    | inl weighted ↦
        let (result, found, same) = select_by_weight-perm intn (p ∷ ps) lawful in
        rw (weighted, found) (same, λ e. cc)
    | inr other ↦ elim (Bool-cases (str_eq algo routing_success_based)) [
      | inl by_rate ↦
          rw (other, by_rate)
            ((select_by_success_rate-IsOrdered fl t min_samples rail (p ∷ ps) g).0, λ e. cc)
      | inr priority ↦ rw (other, priority) (Perm.rfl, λ e. cc)
    ]
  ]

  -- With draws that stay below their bound and a comparison of rates that is asymmetric and whose
  -- negation is transitive, whatever the algorithm, the router never panics; it reports that there
  -- are no providers exactly when the rail has no active one, and otherwise returns every active
  -- provider of the rail once.
  pub select_providers-Covers :
      (registry : Registry E) (rail : Rail) (algo : RoutingAlgorithm)
      → ((n : ℕ) → 0 < n → intn n < n)
      → GtLaws fl
      → Covers
          (get_providers registry rail)
          (select_providers fl intn t min_samples registry rail algo)
  unfolding select_providers
  select_providers-Covers registry rail algo lawful g =
      route-Covers rail algo (get_providers registry rail) lawful g
