-- ===== src/Provider/Router.antt =====
-- The router (provider/router.go: `SelectProviders`): which providers are tried for a rail, in
-- which order. A routing algorithm is a text, and every text but two means configured order.
pub mod Laws
use payment_orchestrator.Base.{
  ℕ, String, Bool, Option, none, some, List, [], ◌∷◌, str_eq, if◌then◌else◌,
}
use payment_orchestrator.Domain.{Rail}
use payment_orchestrator.Provider.Registry.{ProviderWithMeta, Registry, get_providers}
use payment_orchestrator.Provider.SuccessTracker.{SuccessTracker, Float64}
use payment_orchestrator.Provider.Weights.{select_by_weight}
use payment_orchestrator.Provider.SuccessRate.{select_by_success_rate}

abbrev pub RoutingAlgorithm : Type 0
RoutingAlgorithm = String

abbrev pub routing_priority : RoutingAlgorithm
routing_priority = "priority"

abbrev pub routing_weighted : RoutingAlgorithm
routing_weighted = "weighted"

abbrev pub routing_success_based : RoutingAlgorithm
routing_success_based = "success_based"

-- The providers in order, `ErrNoProviders`, or the panic of an index that is out of range.
pub data Selection (E : Type 0) : Type 0 where
  selected : List (ProviderWithMeta E) → Selection E
  no_providers : Selection E
  panicked : Selection E

abbrev pub or_panic : {E : Type 0} → Option (List (ProviderWithMeta E)) → Selection E
or_panic none = panicked
or_panic (some ps) = selected ps

module _ (fl : Float64) (intn : ℕ → ℕ) (t : SuccessTracker) (min_samples : ℕ) where
  -- The `switch` of `SelectProviders`, on the providers of the rail.
  unfoldable pub route :
      {E : Type 0} → Rail → RoutingAlgorithm → List (ProviderWithMeta E) → Selection E
  route rail algo [] = no_providers
  route rail algo (p ∷ ps) =
      if str_eq algo routing_weighted
      then or_panic (select_by_weight intn (p ∷ ps))
      else if str_eq algo routing_success_based
      then selected (select_by_success_rate fl t min_samples rail (p ∷ ps))
      else selected (p ∷ ps)

  unfoldable pub select_providers :
      {E : Type 0} → Registry E → Rail → RoutingAlgorithm → Selection E
  unfolding route
  select_providers registry rail algo = route rail algo (get_providers registry rail)
