-- ===== src/Server.antt =====
-- What the orchestrator's server builds of its configuration
-- (services/orchestrator/cmd/server/main.go, services/orchestrator/internal/config/config.go).
pub mod Selects
use payment_orchestrator.Base.{
  ℕ, String, Bool, Option, none, some, List, [], ◌∷◌, ◌==◌, str_eq, if◌then◌else◌,
}
use payment_orchestrator.Base.Int.{ℤ}
use payment_orchestrator.Domain.{
  Uuid, rail_card, rail_crypto, provider_stripe, provider_mock_card, provider_crypto_sim,
}
use payment_orchestrator.Provider.Client.{
  Client, MockProvider, mock_client, StripeSdk, stripe_client,
}
use payment_orchestrator.Provider.Registry.{Registry, new_registry, register_with_meta}
use payment_orchestrator.Provider.Router.{routing_priority}
use payment_orchestrator.Provider.Orchestrator.{Orchestrator}

pub record ProviderEntry : Type 0 where
  pub name : String
  pub active : Bool
  pub weight : ℤ

pub record Providers : Type 0 where
  pub card : List ProviderEntry
  pub crypto : List ProviderEntry

-- The parts of `Config` that the orchestrator is built of.
pub record Config : Type 0 where
  pub providers : Providers
  pub min_samples : ℕ

-- `&mockprovider.Provider{}`
abbrev pub mock_provider : MockProvider
mock_provider = record { send_err = none; cancel_err = none }

-- `sdk` is the Stripe client that `stripeprovider.New` makes of the key, retries and timeout.
module _ (mock_ext : Uuid → String) {E : Type 0} (sdk : StripeSdk E) where
  unfoldable pub register_card : Registry E → List ProviderEntry → Registry E
  register_card registry [] = registry
  register_card registry (p ∷ ps) =
      register_card
        (if str_eq p.name provider_stripe
          then register_with_meta registry rail_card (stripe_client sdk)
              (record { provider = provider_stripe; is_active = p.active; weight = p.weight })
          else if str_eq p.name provider_mock_card
          then register_with_meta registry rail_card (mock_client mock_ext mock_provider)
              (record { provider = provider_mock_card; is_active = p.active; weight = p.weight })
          else registry)
        ps

  unfoldable pub register_crypto : Registry E → List ProviderEntry → Registry E
  register_crypto registry [] = registry
  register_crypto registry (p ∷ ps) =
      register_crypto
        (if str_eq p.name provider_crypto_sim
          then register_with_meta registry rail_crypto (mock_client mock_ext mock_provider)
              (record { provider = provider_crypto_sim; is_active = p.active; weight = p.weight })
          else registry)
        ps

  -- The registry, router and orchestrator of `run`.
  unfoldable pub new_orchestrator : Config → Orchestrator E
  unfolding register_card register_crypto
  new_orchestrator cfg = record {
    registry = register_crypto (register_card new_registry cfg.providers.card) cfg.providers.crypto;
    min_samples = if cfg.min_samples == 0 then 10 else cfg.min_samples;
    routing_algo = routing_priority;
  }
