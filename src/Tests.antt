-- ===== src/Tests.antt =====
-- Concrete inputs for the runs of Tests/Service.antt and Tests/Routing.antt: two providers of the
-- card rail, of which the first is busy and the second accepts, and a database without a row.
pub mod Service
pub mod Routing
pub mod Webhook
pub mod System
pub mod Unary
pub mod Http
pub mod Routes
pub mod Limiter
pub mod Server
use payment_orchestrator.Base.{
  ℕ, ◌+◌, ◌-◌, ◌*◌, ◌/◌, ◌<◌, ◌≡◌, String, true, false, Option, none, some, List, [], ◌∷◌, arith,
  ltb, ◌==◌, str_eq, if◌then◌else◌,
}
use payment_orchestrator.Base.Int.{pos}
use payment_orchestrator.Domain.{Uuid, Payout, created, sent}
use payment_orchestrator.Persistence.Queries.{Db, Tables, PayoutRow, KeyRow}
use payment_orchestrator.Provider.Client.{Client, Sent, ok, err, retryable_error, plain}
use payment_orchestrator.Provider.Registry.{Registry, RailEntry, ProviderWithMeta}
use payment_orchestrator.Provider.SuccessTracker.{SuccessTracker, Float64}
use payment_orchestrator.Provider.SuccessRate.Order.{GtLaws}
use payment_orchestrator.Provider.Orchestrator.{Orchestrator}
use payment_orchestrator.Service.Types.{World}

-- Rates in whole percent.
abbrev pub percent : Float64
percent = record {
  F = ℕ;
  of_int64 = λ n. n;
  div = λ a b. a * 100 / b;
  gt = λ a b. ltb b a;
  default_success_rate = 95;
}

pub percent-GtLaws : GtLaws percent
percent-GtLaws = record { asym = λ a b h. ground arith; trans = λ a b c h k. ground arith }

-- A draw of the largest value.
abbrev pub last_draw : ℕ → ℕ
last_draw n = n - 1

pub last_draw-lt : (n : ℕ) → 0 < n → last_draw n < n
last_draw-lt n h = ground arith

-- The state of the outside counts the requests to providers.
abbrev pub busy_client : Client ℕ
busy_client = record {
  send_payout = λ p w. (err (retryable_error true (plain "busy")), w + 1);
  cancel_payout = λ p w. (none, w + 1);
}

abbrev pub willing_client : Client ℕ
willing_client = record {
  send_payout = λ p w. (ok "ref_1", w + 1);
  cancel_payout = λ p w. (none, w + 1);
}

abbrev pub busy : ProviderWithMeta ℕ
busy = record {
  client = busy_client;
  meta = record { provider = "stripe"; is_active = true; weight = pos 60 };
}

abbrev pub willing : ProviderWithMeta ℕ
willing = record {
  client = willing_client;
  meta = record { provider = "crypto_sim"; is_active = true; weight = pos 0 };
}

abbrev pub card_registry : Registry ℕ
card_registry = record { providers = ("card", busy ∷ willing ∷ []) ∷ [] }

abbrev pub orchestrator : Orchestrator ℕ
orchestrator = record { registry = card_registry; min_samples = 5; routing_algo = "priority" }

abbrev pub no_stats : SuccessTracker
no_stats = record { stats = [] }

abbrev pub show_uuid : Uuid → String
show_uuid id = if id == 7 then "p-7" else "other"

abbrev pub read_uuid : String → Option Uuid
read_uuid s = if str_eq s "p-7" then some 7 else none

abbrev pub in_order : Registry ℕ → List (RailEntry ℕ)
in_order r = r.providers

abbrev pub with_tables : Tables → World ℕ
with_tables t = record {
  db = record { tables = t; faults = []; gen = λ n. n + 7; drawn = 0; now = 5 };
  tracker = no_stats;
  env = 0;
}

abbrev pub empty_world : World ℕ
empty_world = with_tables (record { payouts = []; idempotency_keys = [] })

abbrev pub sent_row : PayoutRow
sent_row = record {
  id = 7;
  state = sent;
  amount_cents = pos 1250;
  currency = "eur";
  rail = "card";
  provider = some "crypto_sim";
  external_id = some "ref_1";
  created_at = 5;
  updated_at = 5;
}

abbrev pub sent_key : KeyRow
sent_key = record { key = "key_1"; request_hash = "hash_1"; payout_id = 7; created_at = 5 }

abbrev pub sent_world : World ℕ
sent_world = with_tables (record { payouts = sent_row ∷ []; idempotency_keys = sent_key ∷ [] })

abbrev pub new_payout : Payout
new_payout = record {
  id = 7;
  state = created;
  amount_cents = pos 1250;
  currency = "eur";
  rail = "card";
  provider = "";
  external_id = none;
  created_at = 5;
  updated_at = 5;
}
