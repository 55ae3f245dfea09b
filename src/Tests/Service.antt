-- ===== src/Tests/Service.antt =====
-- Runs of the payout service.
use payment_orchestrator.Base.{Bool, ℕ, ◌≡◌, refl, true, false, some, [], ◌∷◌, arith}
use payment_orchestrator.Base.Int.{pos}
use payment_orchestrator.Domain.{canceled, state_string}
use payment_orchestrator.Persistence.Queries
use payment_orchestrator.Persistence.Queries.{
  Db, Tables, PayoutRow, KeyRow, row_allowed, state_allowed, provider_allowed, same_external,
}
use payment_orchestrator.Persistence.Repo
use payment_orchestrator.Persistence.Repo.{to_domain_payout, to_domain_idempotency_key, run_in_tx}
use payment_orchestrator.Provider.Client.{is_retryable, as_retryable}
use payment_orchestrator.Provider.Registry.{get_providers}
use payment_orchestrator.Provider.SuccessTracker.{record_success, record_failure}
use payment_orchestrator.Provider.Router.{select_providers, route}
use payment_orchestrator.Provider.Orchestrator.{
  send_payout_with_fallback, send_loop, SendPayoutResult,
}
use payment_orchestrator.Service.Types.{Reply, reply, status, World, invalid_argument, text}
use payment_orchestrator.Service.Valid.{IsValidWorld}
use payment_orchestrator.Service.Create.{
  CreatePayoutRequest, CreatePayoutResponse, create_payout, create_in_tx,
  send_payout_with_orchestrator, store_result, or_keep,
}
use payment_orchestrator.Service.Create.Cases.{Untouched, IsAnswerOf}
use payment_orchestrator.Service.Create.Replay.{create_payout-IsAnswerOf, create_payout-status}
use payment_orchestrator.Service.Create.Unlisted.{store_result-unlisted}
use payment_orchestrator.Service.Create.Repeat.{requested_row, working, create_payout-repeated}
use payment_orchestrator.Persistence.Queries.{any_row, clashes}
use mathlib.Core.Bool.{◌&&◌, not}
use payment_orchestrator.Service.Cancel.{cancel_payout}
use payment_orchestrator.Service.Cancel.Effect.{CancelOutcome, cancel_payout-effect}
use payment_orchestrator.Service.Update.{ApplyProviderUpdateRequest, apply_provider_update}
use payment_orchestrator.Service.Update.Effect.{Applied, apply_provider_update-effect}
use payment_orchestrator.Service.Get.{get_payout}
use payment_orchestrator.Service.Get.Reads.{Reads, get_payout-Reads}
use payment_orchestrator.Tests.{
  percent, last_draw, orchestrator, show_uuid, read_uuid, in_order, empty_world, sent_world,
  new_payout, sent_row, sent_key, with_tables,
}

abbrev pub card_request : CreatePayoutRequest
card_request = record {
  idempotency_key = "key_1";
  request_hash = "hash_1";
  amount = pos 1250;
  currency = "eur";
  rail = "card";
}

abbrev keyless_request : CreatePayoutRequest
keyless_request = record card_request { idempotency_key = "" }

abbrev other_request : CreatePayoutRequest
other_request = record card_request { request_hash = "hash_2" }

abbrev pub run_create : CreatePayoutRequest → World ℕ → Reply CreatePayoutResponse × World ℕ
run_create = create_payout percent last_draw 5 show_uuid (some orchestrator)

abbrev pub card_answer : CreatePayoutResponse
card_answer = record { payout_id = "p-7"; status = "sent" }

pub card_answered : (run_create card_request empty_world).0 ≡ reply card_answer
unfolding create_payout create_in_tx Repo.create_payout Queries.create_payout row_allowed
    state_allowed provider_allowed same_external to_domain_payout Repo.try_insert_idempotency_key
    Queries.try_insert_idempotency_key to_domain_idempotency_key run_in_tx
    send_payout_with_orchestrator send_payout_with_fallback select_providers route get_providers
    send_loop record_success record_failure is_retryable as_retryable Repo.update_payout_state
    Queries.update_payout_state state_string
card_answered = refl

abbrev pub answered_world : World ℕ
answered_world = (run_create card_request empty_world).1

create_payout-IsAnswerOf_example :
    IsAnswerOf show_uuid card_request answered_world.db.tables card_answer
create_payout-IsAnswerOf_example =
    create_payout-IsAnswerOf percent last_draw 5 show_uuid orchestrator card_request empty_world
      card_answer card_answered

keyless_refused :
    (run_create keyless_request empty_world).0
    ≡ status invalid_argument (text "idempotency_key is required")
unfolding create_payout
keyless_refused = refl

create_payout-status_example : Untouched empty_world (run_create keyless_request empty_world)
create_payout-status_example =
    create_payout-status percent last_draw 5 show_uuid orchestrator keyless_request empty_world
      invalid_argument (text "idempotency_key is required") keyless_refused

pub empty_world-IsValid : IsValidWorld empty_world
empty_world-IsValid = record { rows_valid = tt; keys_valid = tt }

pub sent_world-IsValid : IsValidWorld sent_world
unfolding row_allowed state_allowed provider_allowed
sent_world-IsValid = record {
  rows_valid = (refl, refl, tt);
  keys_valid = (refl, λ h. ground arith, tt);
}

abbrev run_cancel : Reply Bool × World ℕ
run_cancel = cancel_payout in_order read_uuid (some orchestrator) "p-7" sent_world

cancel_payout-effect_example :
    CancelOutcome in_order read_uuid (some orchestrator) "p-7" sent_world run_cancel
cancel_payout-effect_example =
    cancel_payout-effect in_order read_uuid (some orchestrator) "p-7" sent_world

abbrev succeeded_update : ApplyProviderUpdateRequest
succeeded_update = record {
  payout_id = "ref_1";
  provider_status = "payout_succeeded";
  provider_reference = "";
}

-- The payout was canceled before the update arrives.
abbrev withdrawn_world : World ℕ
withdrawn_world = with_tables (record {
  payouts = record sent_row { state = canceled } ∷ [];
  idempotency_keys = sent_key ∷ [];
})

withdrawn_world-IsValid : IsValidWorld withdrawn_world
unfolding row_allowed state_allowed provider_allowed
withdrawn_world-IsValid = record {
  rows_valid = (refl, refl, tt);
  keys_valid = (refl, λ h. ground arith, tt);
}

apply_provider_update-effect_example :
    Applied read_uuid succeeded_update withdrawn_world
      (apply_provider_update read_uuid succeeded_update withdrawn_world)
apply_provider_update-effect_example =
    apply_provider_update-effect read_uuid succeeded_update withdrawn_world withdrawn_world-IsValid

get_payout-Reads_example :
    Reads show_uuid read_uuid
      (read_uuid "p-7")
      sent_world
      (get_payout show_uuid read_uuid "p-7" sent_world)
get_payout-Reads_example = get_payout-Reads show_uuid read_uuid "p-7" sent_world

abbrev mock_sent : SendPayoutResult
mock_sent = record {
  external_id = "mock-ext-7";
  used_provider = "mock_card";
  tried_providers = "mock_card" ∷ [];
  success = true;
}

mock_card_unlisted : provider_allowed (some "mock_card") ≡ false
unfolding provider_allowed
mock_card_unlisted = refl

store_result-unlisted_example :
    let o = store_result new_payout mock_sent sent_world.db in
    (o.1.tables ≡ sent_world.db.tables) × (or_keep new_payout o.0 ≡ new_payout)
store_result-unlisted_example =
    store_result-unlisted new_payout mock_sent sent_world.db refl mock_card_unlisted

allowed_again :
    (row_allowed (requested_row card_request 8 5)
      && not (any_row (clashes (requested_row card_request 8 5)) sent_world.db.tables.payouts))
    ≡ true
unfolding row_allowed state_allowed provider_allowed same_external
allowed_again = refl

create_payout-repeated_example :
    (run_create card_request (record {
      db = working sent_world.db.tables sent_world.db.gen 1 5;
      tracker = sent_world.tracker;
      env = 3;
    })).0
    ≡ reply (record { payout_id = "p-7"; status = state_string sent_row.state })
create_payout-repeated_example =
    create_payout-repeated percent last_draw 5 show_uuid (some orchestrator) card_request
      sent_world.db.tables sent_world.db.gen 1 sent_world.tracker 3 sent_key sent_row refl refl
      allowed_again refl refl refl
