-- ===== src/Tests/System.antt =====
-- Sequences of calls of the payout service, and calls that overlap.
use payment_orchestrator.Base.{
  not, ◌&&◌, Bool, ◌+◌, inl, ◌++◌, ℕ, ◌≤◌, ◌≡◌, ◌≢◌, refl, true, false, none, some, [], ◌∷◌,
}
use payment_orchestrator.Base.Int.{pos}
use payment_orchestrator.Domain.{state_string, CreatePayoutParams, created}
use payment_orchestrator.Persistence.Result.{ok}
use payment_orchestrator.Persistence.Queries
use payment_orchestrator.Persistence.Queries.{
  Db, Tables, canceled_row, PayoutRow, find_payout, next_fails, any_row, clashes, clashes_other,
  row_allowed, state_allowed, provider_allowed, same_external,
}
use payment_orchestrator.Persistence.Repo
use payment_orchestrator.Persistence.Repo.{to_domain_payout, to_domain_idempotency_key, run_in_tx}
use payment_orchestrator.Persistence.Repo.Roundtrip.{Carries, get_payout-create_payout}
use payment_orchestrator.Provider.Orchestrator.{
  SendPayoutResult, send_payout_with_fallback, send_loop,
}
use payment_orchestrator.Service.Types.{Reply, reply, crashed, World}
use payment_orchestrator.Service.Valid.{IsValidWorld}
use payment_orchestrator.Service.Create.{
  send_payout_with_orchestrator, CreatePayoutResponse, create_payout, create_in_tx, after_sending,
}
use payment_orchestrator.Service.Create.Cases.{Untouched}
use payment_orchestrator.Service.Create.Answers.{create_payout-answers}
use payment_orchestrator.Service.Cancel.{cancel_payout}
use payment_orchestrator.System.Follows.{Follows}
use payment_orchestrator.System.Trace.{
  Reach, here, next, creates, cancels, Reach-IsValid, Reach-Follows, create_payout-once,
}
use payment_orchestrator.System.Sends.{SendsWithin, sends-le-one}
use payment_orchestrator.System.Overtaken.{sent_version, CanceledThenSent, overtaken_cancel}
use payment_orchestrator.Persistence.Queries.Runs.{is_storable}
use payment_orchestrator.Service.Cancel.Why.{canceled_tables}
use payment_orchestrator.System.Overlapping
use payment_orchestrator.System.Overlapping.{
  Shared, begun, to_send, to_store, Moves, begins, sent_count, sent_count-le-one,
}
use payment_orchestrator.Service.Create.Repeat.{requested_row, working}
use payment_orchestrator.Service.Create.Fresh.{resulting_row, IsFresh, create_payout-IsFresh}
use payment_orchestrator.Provider.Client.{is_retryable, as_retryable}
use payment_orchestrator.Provider.Registry.{get_providers}
use payment_orchestrator.Provider.SuccessTracker.{record_success, record_failure}
use payment_orchestrator.Provider.Router.{select_providers, route}
use payment_orchestrator.Tests.{
  percent, percent-GtLaws, last_draw, last_draw-lt, orchestrator, show_uuid, read_uuid, in_order,
  empty_world, new_payout,
}
use payment_orchestrator.Tests.Service.{
  card_request, run_create, card_answer, card_answered, answered_world, empty_world-IsValid,
}

-- A creation, the same creation again, and a cancellation.
abbrev repeated_world : World ℕ
repeated_world = (run_create card_request answered_world).1

abbrev canceled_world : World ℕ
canceled_world = (cancel_payout in_order read_uuid (some orchestrator) "p-7" repeated_world).1

abbrev three_calls : Reach percent show_uuid read_uuid orchestrator empty_world canceled_world
three_calls =
    next (next (next here (creates last_draw 5 card_request)) (creates last_draw 5 card_request))
      (cancels in_order "p-7")

Reach-IsValid_example : IsValidWorld canceled_world
Reach-IsValid_example =
    Reach-IsValid percent show_uuid read_uuid orchestrator three_calls empty_world-IsValid

Reach-Follows_example : Follows empty_world.db.tables canceled_world.db.tables
Reach-Follows_example =
    Reach-Follows percent show_uuid read_uuid orchestrator three_calls empty_world-IsValid

sends-le-one_example :
    (n : ℕ) × (n ≤ 1) × SendsWithin percent show_uuid read_uuid orchestrator "key_1" three_calls n
sends-le-one_example =
    sends-le-one percent show_uuid read_uuid orchestrator "key_1" three_calls empty_world-IsValid

create_payout-once_example :
    Untouched answered_world
      (create_payout percent last_draw 9 show_uuid (some orchestrator) card_request answered_world)
    × ((b : CreatePayoutResponse)
        → (create_payout percent last_draw 9 show_uuid
            (some orchestrator)
            card_request
            answered_world).0
          ≡ reply b
        → (b.payout_id ≡ "p-7") × (card_request.request_hash ≡ card_request.request_hash))
create_payout-once_example =
    create_payout-once percent show_uuid read_uuid orchestrator last_draw last_draw 5 9 card_request
      card_request empty_world card_answer empty_world-IsValid refl card_answered here

create_payout-answers_example : (run_create card_request empty_world).0 ≢ crashed
create_payout-answers_example =
    create_payout-answers percent last_draw 5 show_uuid orchestrator card_request empty_world
      last_draw-lt percent-GtLaws

-- Two creations with one key begin, and the first then sends its payout.
abbrev idle : Shared ℕ
idle = record { world = empty_world; calls = [] }

abbrev fallen_back : SendPayoutResult
fallen_back = record {
  external_id = "ref_1";
  used_provider = "crypto_sim";
  tried_providers = "stripe" ∷ "crypto_sim" ∷ [];
  success = true;
}

abbrev both_begun : Shared ℕ
both_begun = begun card_request (begun card_request idle)

one_waits : both_begun.calls ≡ [] ++ to_send "key_1" new_payout ∷ []
unfolding create_in_tx Repo.create_payout Queries.create_payout row_allowed state_allowed
    provider_allowed same_external to_domain_payout Repo.try_insert_idempotency_key
    Queries.try_insert_idempotency_key Queries.get_idempotency_key to_domain_idempotency_key
    run_in_tx
one_waits = refl

new_sent :
    send_payout_with_fallback percent last_draw 5 orchestrator new_payout both_begun.world.tracker
      both_begun.world.env
    ≡ some (fallen_back, answered_world.tracker, answered_world.env)
unfolding create_payout create_in_tx Repo.create_payout Queries.create_payout row_allowed
    state_allowed provider_allowed same_external to_domain_payout Repo.try_insert_idempotency_key
    Queries.try_insert_idempotency_key to_domain_idempotency_key run_in_tx
    send_payout_with_orchestrator send_payout_with_fallback select_providers route get_providers
    send_loop record_success record_failure is_retryable as_retryable Repo.update_payout_state
    Queries.update_payout_state state_string
new_sent = refl

abbrev two_begin_one_sends : Moves percent orchestrator idle (record {
  world = record {
    db = both_begun.world.db;
    tracker = answered_world.tracker;
    env = answered_world.env;
  };
  calls = [] ++ to_store "key_1" new_payout fallen_back ∷ [];
})
two_begin_one_sends =
    Overlapping.next
      (Overlapping.next (Overlapping.next Overlapping.here (begins card_request))
        (begins card_request))
      (Overlapping.sends last_draw 5 [] [] "key_1" new_payout fallen_back answered_world.tracker
        answered_world.env one_waits new_sent)

sent_count-le-one_example : sent_count percent orchestrator "key_1" two_begin_one_sends ≤ 1
sent_count-le-one_example = sent_count-le-one percent orchestrator "key_1" two_begin_one_sends refl

allowed_row :
    (row_allowed (requested_row card_request 7 5)
      && not (any_row (clashes (requested_row card_request 7 5)) []))
    ≡ true
unfolding row_allowed state_allowed provider_allowed same_external
allowed_row = refl

allowed_result :
    (row_allowed (resulting_row card_request 7 5 fallen_back)
      && not (
          any_row
            (clashes_other (resulting_row card_request 7 5 fallen_back))
            (requested_row card_request 7 5 ∷ [])))
    ≡ true
unfolding row_allowed state_allowed provider_allowed same_external
allowed_result = refl

sending :
    send_payout_with_fallback percent last_draw 5 orchestrator
      (to_domain_payout (requested_row card_request 7 5))
      empty_world.tracker
      empty_world.env
    ≡ some (fallen_back, answered_world.tracker, answered_world.env)
unfolding create_payout create_in_tx Repo.create_payout Queries.create_payout row_allowed
    state_allowed provider_allowed same_external to_domain_payout Repo.try_insert_idempotency_key
    Queries.try_insert_idempotency_key to_domain_idempotency_key run_in_tx
    send_payout_with_orchestrator send_payout_with_fallback select_providers route get_providers
    send_loop record_success record_failure is_retryable as_retryable Repo.update_payout_state
    Queries.update_payout_state state_string
sending = refl

create_payout-IsFresh_example :
    IsFresh percent last_draw 5 show_uuid orchestrator card_request 7 fallen_back
      answered_world.tracker answered_world.env
      (run_create card_request empty_world)
create_payout-IsFresh_example =
    create_payout-IsFresh percent last_draw 5 show_uuid orchestrator card_request
      empty_world.db.tables empty_world.db.gen 0 empty_world.tracker answered_world.tracker
      empty_world.env answered_world.env fallen_back refl refl allowed_row refl sending
      allowed_result

abbrev card_sent : SendPayoutResult
card_sent = record {
  external_id = "ref_1";
  used_provider = "crypto_sim";
  tried_providers = "crypto_sim" ∷ [];
  success = true;
}

-- The row of the payout while it is being sent, and the world in which it is canceled.
abbrev new_row : PayoutRow
new_row = requested_row card_request 7 5

abbrev new_tables : Tables
new_tables = record { payouts = new_row ∷ []; idempotency_keys = [] }

abbrev canceling : Reply Bool × World ℕ
canceling =
    cancel_payout in_order read_uuid (some orchestrator) "p-7"
      (record { db = working new_tables (λ n. n + 7) 1 5; tracker = empty_world.tracker; env = 0 })

cancel_storable : is_storable (canceled_row 5 new_row) new_tables ≡ true
unfolding row_allowed state_allowed provider_allowed same_external
cancel_storable = refl

sent_storable :
    is_storable (sent_version card_sent 5 new_row) (canceled_tables 5 new_row new_tables) ≡ true
unfolding row_allowed state_allowed provider_allowed same_external
sent_storable = refl

overtaken_cancel_example :
    CanceledThenSent percent last_draw show_uuid read_uuid in_order orchestrator new_payout
      card_sent new_row 5 canceling
      (after_sending percent last_draw 5 show_uuid
        (some orchestrator)
        new_payout
        canceling.1
        (some (card_sent, empty_world.tracker, 1)))
overtaken_cancel_example =
    overtaken_cancel percent last_draw show_uuid read_uuid in_order orchestrator "p-7" new_payout
      card_sent new_row new_tables (λ n. n + 7) 1 5 empty_world.tracker empty_world.tracker 0 1 refl
      refl refl (inl refl) cancel_storable refl sent_storable

abbrev card_params : CreatePayoutParams
card_params = record {
  state = created;
  amount_cents = pos 1250;
  currency = "eur";
  rail = "card";
  provider = "";
  external_id = none;
}

stored_new : (Repo.create_payout card_params empty_world.db).0 ≡ ok new_payout
unfolding Repo.create_payout Queries.create_payout to_domain_payout row_allowed state_allowed
    provider_allowed same_external
stored_new = refl

still_works : next_fails (Repo.create_payout card_params empty_world.db).1.faults ≡ false
unfolding Repo.create_payout Queries.create_payout row_allowed state_allowed provider_allowed
    same_external
still_works = refl

get_payout-create_payout_example :
    Carries card_params new_payout
    × ((Repo.get_payout 7 (Repo.create_payout card_params empty_world.db).1).0 ≡ ok new_payout)
get_payout-create_payout_example =
    get_payout-create_payout card_params empty_world.db new_payout stored_new still_works
