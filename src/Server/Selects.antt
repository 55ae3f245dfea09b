-- ===== src/Server/Selects.antt =====
-- Which providers the server's orchestrator tries for a rail.
use mathlib.Core.List.{append_assoc, append-nil}
use payment_orchestrator.Base.{
  ℕ, ◌≡◌, refl, String, Bool, true, false, List, [], ◌∷◌, ◌++◌, str_eq, str_eq_iff, if◌then◌else◌,
  Bool-cases, inl, inr, sym, ap, ◌∙◌,
}
use payment_orchestrator.Domain.{
  Uuid, Rail, rail_card, rail_crypto, provider_stripe, provider_mock_card, provider_crypto_sim,
}
use payment_orchestrator.Provider.Client.{StripeSdk, mock_client, stripe_client}
use payment_orchestrator.Provider.Registry.{
  ProviderWithMeta, Registry, new_registry, register_with_meta, get_providers,
}
use payment_orchestrator.Provider.Registry.Laws.{get_providers-register_with_meta}
use payment_orchestrator.Provider.SuccessTracker.{SuccessTracker, Float64}
use payment_orchestrator.Provider.Router.{
  Selection, selected, no_providers, select_providers, route, routing_priority,
}
use payment_orchestrator.Server.{
  ProviderEntry, Config, mock_provider, register_card, register_crypto, new_orchestrator,
}

module _ (mock_ext : Uuid → String) {E : Type 0} (sdk : StripeSdk E) where
  -- What an entry of the configuration stands for: a provider, if it is known and active.
  abbrev pub card_of : ProviderEntry → List (ProviderWithMeta E)
  card_of p =
      if p.active
      then (if str_eq p.name provider_stripe
          then record {
            client = stripe_client sdk;
            meta = record { provider = provider_stripe; is_active = p.active; weight = p.weight };
          }
            ∷ []
          else if str_eq p.name provider_mock_card
          then record {
            client = mock_client mock_ext mock_provider;
            meta = record {
              provider = provider_mock_card;
              is_active = p.active;
              weight = p.weight;
            };
          }
            ∷ []
          else [])
      else []

  abbrev pub crypto_of : ProviderEntry → List (ProviderWithMeta E)
  crypto_of p =
      if p.active
      then (if str_eq p.name provider_crypto_sim
          then record {
            client = mock_client mock_ext mock_provider;
            meta = record {
              provider = provider_crypto_sim;
              is_active = p.active;
              weight = p.weight;
            };
          }
            ∷ []
          else [])
      else []

  abbrev pub all_of :
      (ProviderEntry → List (ProviderWithMeta E)) → List ProviderEntry → List (ProviderWithMeta E)
  all_of one [] = []
  all_of one (p ∷ ps) = one p ++ all_of one ps

  -- The providers of a rail, in the order of the configuration.
  abbrev pub configured : Config → Rail → List (ProviderWithMeta E)
  configured cfg rail =
      if str_eq rail_card rail
      then all_of card_of cfg.providers.card
      else if str_eq rail_crypto rail
      then all_of crypto_of cfg.providers.crypto
      else []

  if_append :
      (b : Bool) (xs ys : List (ProviderWithMeta E))
      → (if b then xs else []) ++ (if b then ys else []) ≡ (if b then xs ++ ys else [])
  if_append true xs ys = refl
  if_append false xs ys = refl

  if_same : (b : Bool) (xs : List (ProviderWithMeta E)) → (if b then xs else xs) ≡ xs
  if_same true xs = refl
  if_same false xs = refl

  kept :
      (b : Bool) (known new : List (ProviderWithMeta E))
      → (if b then known ++ new else known) ≡ known ++ (if b then new else [])
  kept true known new = refl
  kept false known new = sym (append-nil known)

  -- The registration of an entry, or of none.
  registered :
      (r : Registry E) (at_rail rail : Rail) (e : ProviderWithMeta E)
      → get_providers (register_with_meta r at_rail e.client e.meta) rail
        ≡ get_providers r rail
          ++ (if str_eq at_rail rail then (if e.meta.is_active then e ∷ [] else []) else [])
  registered r at_rail rail e =
      get_providers-register_with_meta r at_rail rail e.client e.meta
      ∙ kept (str_eq at_rail rail) (get_providers r rail) (if e.meta.is_active then e ∷ [] else [])

  unregistered :
      (r : Registry E) (rail : Rail) (b : Bool)
      → get_providers r rail ≡ get_providers r rail ++ (if b then [] else [])
  unregistered r rail b = rw (if_same b []) (sym (append-nil (get_providers r rail)))

  abbrev card_step : Registry E → ProviderEntry → Registry E
  card_step r p =
      if str_eq p.name provider_stripe
      then register_with_meta r rail_card (stripe_client sdk)
          (record { provider = provider_stripe; is_active = p.active; weight = p.weight })
      else if str_eq p.name provider_mock_card
      then register_with_meta r rail_card (mock_client mock_ext mock_provider)
          (record { provider = provider_mock_card; is_active = p.active; weight = p.weight })
      else r

  card_step_lem :
      (r : Registry E) (p : ProviderEntry) (rail : Rail)
      → get_providers (card_step r p) rail
        ≡ get_providers r rail ++ (if str_eq rail_card rail then card_of p else [])
  card_step_lem r p rail = elim (Bool-cases (str_eq p.name provider_stripe)) [
    | inl stripe ↦ rw stripe (registered r rail_card rail _)
    | inr other ↦ elim (Bool-cases (str_eq p.name provider_mock_card)) [
      | inl mock ↦ rw (other, mock) (registered r rail_card rail _)
      | inr unknown ↦
          rw (other, unknown, if_same p.active []) (unregistered r rail (str_eq rail_card rail))
    ]
  ]

  joined :
      (b : Bool) (known now later all : List (ProviderWithMeta E))
      → now ≡ known ++ (if b then later else [])
      → now ++ (if b then all else []) ≡ known ++ (if b then later ++ all else [])
  joined b known now later all same =
      rw
        (
          same,
          append_assoc known (if b then later else []) (if b then all else []),
          if_append b later all,
        )
        refl

  register_card_lem :
      (r : Registry E) (ps : List ProviderEntry) (rail : Rail)
      → get_providers (register_card mock_ext sdk r ps) rail
        ≡ get_providers r rail ++ (if str_eq rail_card rail then all_of card_of ps else [])
  unfolding register_card
  register_card_lem r [] rail = unregistered r rail (str_eq rail_card rail)
  register_card_lem r (p ∷ ps) rail =
      register_card_lem (card_step r p) ps rail
      ∙ joined (str_eq rail_card rail) (get_providers r rail) (get_providers (card_step r p) rail)
          (card_of p) (all_of card_of ps) (card_step_lem r p rail)

  abbrev crypto_step : Registry E → ProviderEntry → Registry E
  crypto_step r p =
      if str_eq p.name provider_crypto_sim
      then register_with_meta r rail_crypto (mock_client mock_ext mock_provider)
          (record { provider = provider_crypto_sim; is_active = p.active; weight = p.weight })
      else r

  crypto_step_lem :
      (r : Registry E) (p : ProviderEntry) (rail : Rail)
      → get_providers (crypto_step r p) rail
        ≡ get_providers r rail ++ (if str_eq rail_crypto rail then crypto_of p else [])
  crypto_step_lem r p rail = elim (Bool-cases (str_eq p.name provider_crypto_sim)) [
    | inl known ↦ rw known (registered r rail_crypto rail _)
    | inr unknown ↦
        rw (unknown, if_same p.active []) (unregistered r rail (str_eq rail_crypto rail))
  ]

  register_crypto_lem :
      (r : Registry E) (ps : List ProviderEntry) (rail : Rail)
      → get_providers (register_crypto mock_ext sdk r ps) rail
        ≡ get_providers r rail ++ (if str_eq rail_crypto rail then all_of crypto_of ps else [])
  unfolding register_crypto
  register_crypto_lem r [] rail = unregistered r rail (str_eq rail_crypto rail)
  register_crypto_lem r (p ∷ ps) rail =
      register_crypto_lem (crypto_step r p) ps rail
      ∙ joined (str_eq rail_crypto rail) (get_providers r rail)
          (get_providers (crypto_step r p) rail) (crypto_of p) (all_of crypto_of ps)
          (crypto_step_lem r p rail)

  new_registry_lem : (rail : Rail) → get_providers (new_registry {E = E}) rail ≡ []
  unfolding new_registry get_providers
  new_registry_lem rail = refl

  two_rails :
      (rail : Rail) (xs ys : List (ProviderWithMeta E))
      → (if str_eq rail_card rail then xs else []) ++ (if str_eq rail_crypto rail then ys else [])
        ≡ (if str_eq rail_card rail then xs else if str_eq rail_crypto rail then ys else [])
  two_rails rail xs ys = elim (Bool-cases (str_eq rail_card rail)) [
    | inl same ↦ rw (sym ((str_eq_iff rail_card rail).0 same)) (append-nil xs)
    | inr other ↦ rw other refl
  ]

  -- The providers of a rail are those that the configuration lists, knows and marks as active, in
  -- the order of the configuration.
  pub get_providers-configured :
      (cfg : Config) (rail : Rail)
      → get_providers (new_orchestrator mock_ext sdk cfg).registry rail ≡ configured cfg rail
  unfolding new_orchestrator
  get_providers-configured cfg rail =
      register_crypto_lem _ cfg.providers.crypto rail
      ∙ ap
          (λ xs.
            xs ++ (if str_eq rail_crypto rail then all_of crypto_of cfg.providers.crypto else []))
          (register_card_lem new_registry cfg.providers.card rail
            ∙ ap
                (λ xs.
                  xs ++ (if str_eq rail_card rail then all_of card_of cfg.providers.card else []))
                (new_registry_lem rail))
      ∙ two_rails rail (all_of card_of cfg.providers.card) (all_of crypto_of cfg.providers.crypto)

  abbrev pub selection_of : List (ProviderWithMeta E) → Selection E
  selection_of [] = no_providers
  selection_of (p ∷ ps) = selected (p ∷ ps)

  by_priority :
      (fl : Float64) (intn : ℕ → ℕ) (t : SuccessTracker) (n : ℕ) (rail : Rail)
      (ps : List (ProviderWithMeta E))
      → route fl intn t n rail routing_priority ps ≡ selection_of ps
  unfolding route
  by_priority fl intn t n rail [] = refl
  by_priority fl intn t n rail (p ∷ ps) = refl

  -- Whatever the draws, the statistics and the weights, the server tries for a rail every provider
  -- that the configuration lists, knows and marks as active, in the order of the configuration, and
  -- reports that there are none exactly if none is listed so.
  pub select_providers-configured :
      (fl : Float64) (intn : ℕ → ℕ) (t : SuccessTracker) (cfg : Config) (rail : Rail)
      → let o = new_orchestrator mock_ext sdk cfg in
        select_providers fl intn t o.min_samples o.registry rail o.routing_algo
        ≡ selection_of (configured cfg rail)
  unfolding select_providers new_orchestrator
  select_providers-configured fl intn t cfg rail =
      ap
        (route fl intn t (new_orchestrator mock_ext sdk cfg).min_samples rail
          (new_orchestrator mock_ext sdk cfg).routing_algo)
        (get_providers-configured cfg rail)
      ∙ by_priority fl intn t (new_orchestrator mock_ext sdk cfg).min_samples rail
          (configured cfg rail)
