-- ===== src/Provider/Orchestrator.antt =====
-- Sending with fallback (provider/orchestrator.go). The success tracker and the world outside are
-- threaded through the attempts; `now` is the time at which the attempts are recorded.
pub mod Fallback
use payment_orchestrator.Base.{
  ℕ, String, Bool, true, false, not, Option, none, some, List, [], ◌∷◌, ◌++◌, if◌then◌else◌,
}
use payment_orchestrator.Domain.{Time, Provider, Payout}
use payment_orchestrator.Provider.Client.{GoError, plain, wrap, Sent, ok, err, is_retryable}
use payment_orchestrator.Provider.Registry.{ProviderWithMeta, RailEntry, Registry, get_by_provider}
use payment_orchestrator.Provider.SuccessTracker.{
  SuccessTracker, Float64, record_success, record_failure,
}
use payment_orchestrator.Provider.Router.{
  RoutingAlgorithm, Selection, selected, no_providers, panicked, select_providers,
}

pub record Orchestrator (E : Type 0) : Type 0 where
  pub registry : Registry E
  pub min_samples : ℕ
  pub routing_algo : RoutingAlgorithm

pub record SendPayoutResult : Type 0 where
  pub external_id : String
  pub used_provider : Provider
  pub tried_providers : List Provider
  pub success : Bool

abbrev pub not_sent : List Provider → SendPayoutResult
not_sent tried = record {
  external_id = "";
  used_provider = "";
  tried_providers = tried;
  success = false;
}

module _ (now : Time) {E : Type 0} (payout : Payout) where
  -- The loop over the selected providers.
  unfoldable pub send_loop :
      List (ProviderWithMeta E)
      → List Provider
      → SuccessTracker
      → E
      → SendPayoutResult × SuccessTracker × E
  send_loop [] tried t w = (not_sent tried, t, w)
  send_loop (p ∷ ps) tried t w =
      let name = p.meta.provider in
      let tried' = tried ++ name ∷ [] in
      let (sent, w') = p.client.send_payout payout w in
      let failed = record_failure t now payout.rail name in
      let rest = send_loop ps tried' failed w' in
      elim sent [
        | ok ext_id ↦ (
          record {
            external_id = ext_id;
            used_provider = name;
            tried_providers = tried';
            success = true;
          },
          record_success t now payout.rail name,
          w',
        )
        | err e ↦ if not (is_retryable e) then (not_sent tried', failed, w') else rest
      ]

module _ (fl : Float64) (intn : ℕ → ℕ) (now : Time) {E : Type 0} where
  -- `none` is a panic of the router.
  unfoldable pub send_payout_with_fallback :
      Orchestrator E → Payout → SuccessTracker → E → Option (SendPayoutResult × SuccessTracker × E)
  unfolding send_loop
  send_payout_with_fallback o payout t w =
      elim (select_providers fl intn t o.min_samples o.registry payout.rail o.routing_algo) [
        | panicked ↦ none
        | no_providers ↦ some (not_sent [], t, w)
        | selected ps ↦ some (send_loop now payout ps [] t w)
      ]

-- `iteration` is the order in which `range` visits the registry's map.
module _ {E : Type 0} (iteration : Registry E → List (RailEntry E)) where
  unfoldable pub cancel_payout : Orchestrator E → Payout → E → Option GoError × E
  cancel_payout o payout w = elim (get_by_provider (iteration o.registry) payout.provider) [
    | none ↦ (some (plain "provider: no client registered for provider"), w)
    | some client ↦ client.cancel_payout payout w
  ]
