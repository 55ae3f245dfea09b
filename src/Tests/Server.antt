-- ===== src/Tests/Server.antt =====
-- A configuration of the orchestrator's server, and environments of the API service.
use payment_orchestrator.Base.{
  ℕ, ◌+◌, ◌≡◌, String, true, false, none, [], ◌∷◌, str_eq, if◌then◌else◌,
}
use payment_orchestrator.Base.Int.{pos}
use payment_orchestrator.Domain.{Uuid}
use payment_orchestrator.Provider.Client.{StripeSdk, ok}
use payment_orchestrator.Provider.Router.{select_providers}
use payment_orchestrator.Provider.SuccessTracker.{new_success_tracker}
use payment_orchestrator.Server.{Config, new_orchestrator}
use payment_orchestrator.Server.Selects.{configured, selection_of, select_providers-configured}
use payment_orchestrator.Api.Config.{Environment, load}
use payment_orchestrator.Api.Config.Load.{Loads, first_unreadable, timeout_keys, load-Loads}
use payment_orchestrator.Tests.{percent, last_draw}

abbrev mock_text : Uuid → String
mock_text id = "mock-ext"

abbrev sdk : StripeSdk ℕ
sdk = record { create = λ p w. (ok "pi_1", w + 1); cancel = λ id w. (none, w + 1) }

abbrev two_cards : Config
two_cards = record {
  providers = record {
    card =
        record { name = "mock_card"; active = true; weight = pos 0 }
        ∷ record { name = "paypal"; active = true; weight = pos 90 }
        ∷ record { name = "stripe"; active = true; weight = pos 10 }
        ∷ [];
    crypto = record { name = "crypto_sim"; active = false; weight = pos 0 } ∷ [];
  };
  min_samples = 0;
}

select_providers-configured_example :
    let o = new_orchestrator mock_text sdk two_cards in
    select_providers percent last_draw new_success_tracker o.min_samples o.registry "card"
      o.routing_algo
    ≡ selection_of mock_text sdk (configured mock_text sdk two_cards "card")
select_providers-configured_example =
    select_providers-configured mock_text sdk percent last_draw new_success_tracker two_cards "card"

-- Only the read timeout is set, to a text that is neither a duration nor a number.
abbrev bad_timeout : Environment ℕ
bad_timeout = record {
  getenv = λ key. if str_eq key "API_READ_TIMEOUT" then "soon" else "";
  parse_duration = λ s. none;
  atoi = λ s. none;
  parse_float = λ s. none;
  parse_int = λ s. none;
}

load-Loads_example :
    Loads bad_timeout
      (first_unreadable bad_timeout (timeout_keys bad_timeout))
      (load bad_timeout 10)
load-Loads_example = load-Loads bad_timeout 10
