-- ===== src/Tests/Http.antt =====
-- Runs of the HTTP service, over the payout service and over a client that counts its calls.
use payment_orchestrator.Base.{
  ℕ, ◌+◌, ◌≡◌, refl, String, true, Option, none, some, str_eq, if◌then◌else◌, inl,
}
use payment_orchestrator.Base.Int.{pos}
use payment_orchestrator.Domain.{Uuid, state_string}
use payment_orchestrator.Persistence.Queries
use payment_orchestrator.Persistence.Queries.{
  PayoutRow, Tables, find_payout, row_allowed, state_allowed, provider_allowed, same_external,
}
use payment_orchestrator.Persistence.Repo
use payment_orchestrator.Persistence.Repo.{to_domain_payout, to_domain_idempotency_key, run_in_tx}
use payment_orchestrator.Provider.Client.{is_retryable, as_retryable}
use payment_orchestrator.Provider.Registry.{get_providers, get_by_provider}
use payment_orchestrator.Provider.SuccessTracker.{record_success, record_failure}
use payment_orchestrator.Provider.Router.{select_providers, route}
use payment_orchestrator.Provider.Orchestrator
use payment_orchestrator.Provider.Orchestrator.{send_payout_with_fallback, send_loop}
use payment_orchestrator.Service.Types.{World}
use payment_orchestrator.Service.Create.{
  CreatePayoutResponse, create_payout, create_in_tx, send_payout_with_orchestrator,
}
use payment_orchestrator.Service.Create.Cases.{IsAnswerOf}
use payment_orchestrator.Service.Cancel
use payment_orchestrator.Service.Get
use payment_orchestrator.Service.Get.{GetPayoutResponse}
use payment_orchestrator.System.Trace.{here}
use payment_orchestrator.Api.Types.{
  PayoutClient, HttpRequest, HttpResponse, responded, accepted_body, payout_body, PayoutBody,
}
use payment_orchestrator.Api.Canonical.{canonical, canonical_hash}
use payment_orchestrator.Api.Create.{CreateBody, upstream_request, create_handler}
use payment_orchestrator.Api.Get.{get_handler}
use payment_orchestrator.Api.Cancel.{cancel_handler}
use payment_orchestrator.Api.Connection.{delivered, service_client}
use payment_orchestrator.Api.EndToEnd.{
  IsUnchanged, post_payout, post_payout-accepted, post_payout-refused,
}
use payment_orchestrator.Api.Once.{post_payout-once}
use payment_orchestrator.Api.Canceled.{
  IsCanceledRow, ShowsRow, post_cancel, get_http, post_cancel-ok, get_http-ok,
}
use payment_orchestrator.Tests.{
  percent, last_draw, orchestrator, show_uuid, read_uuid, in_order, empty_world, sent_world,
}
use payment_orchestrator.Tests.Service.{empty_world-IsValid}
use payment_orchestrator.Tests.Unary.{unary, unary-FormatLaws}

abbrev two_euros : CreateBody
two_euros = record { amount = pos 2; currency = "eur"; rail = "card" }

abbrev read_body : String → Option CreateBody
read_body s = if str_eq s "two euros" then some two_euros else none

abbrev request_of : String → String → String → HttpRequest
request_of key body id = record {
  method = "POST";
  path = "/v1/payouts";
  request_id = "r-1";
  idempotency_key = key;
  body = body;
  id = id;
}

abbrev good_request : HttpRequest
good_request = request_of "key_1" "two euros" ""

abbrev run_post : HttpRequest → World ℕ → HttpResponse × World ℕ
run_post =
    post_payout percent last_draw 5 show_uuid read_uuid in_order orchestrator unary read_body
      delivered

abbrev posted_world : World ℕ
posted_world = (run_post good_request empty_world).1

accepted : (run_post good_request empty_world).0.code ≡ 202
unfolding create_handler service_client canonical_hash canonical create_payout create_in_tx
    Repo.create_payout Queries.create_payout row_allowed state_allowed provider_allowed
    same_external to_domain_payout Repo.try_insert_idempotency_key
    Queries.try_insert_idempotency_key to_domain_idempotency_key run_in_tx
    send_payout_with_orchestrator send_payout_with_fallback select_providers route get_providers
    send_loop record_success record_failure is_retryable as_retryable Repo.update_payout_state
    Queries.update_payout_state state_string
accepted = refl

accepted_again : (run_post good_request posted_world).0.code ≡ 202
unfolding create_handler service_client canonical_hash canonical create_payout create_in_tx
    Repo.create_payout Queries.create_payout row_allowed state_allowed provider_allowed
    same_external to_domain_payout Repo.try_insert_idempotency_key
    Queries.try_insert_idempotency_key to_domain_idempotency_key run_in_tx
    send_payout_with_orchestrator send_payout_with_fallback select_providers route get_providers
    send_loop record_success record_failure is_retryable as_retryable Repo.update_payout_state
    Queries.update_payout_state state_string Queries.get_idempotency_key Repo.get_payout
    Queries.get_payout
accepted_again = refl

post_payout-accepted_example :
    (b : CreateBody) × (a : CreatePayoutResponse) × (read_body good_request.body ≡ some b)
    × ((run_post good_request empty_world).0.body ≡ accepted_body a.payout_id a.status)
    × IsAnswerOf show_uuid (upstream_request unary good_request b) posted_world.db.tables a
post_payout-accepted_example =
    post_payout-accepted percent last_draw 5 show_uuid read_uuid in_order orchestrator unary
      read_body delivered good_request empty_world accepted

abbrev bad_request : HttpRequest
bad_request = request_of "key_1" "nonsense" ""

refused : (run_post bad_request sent_world).0.code ≡ 400
unfolding create_handler
refused = refl

post_payout-refused_example : IsUnchanged sent_world (run_post bad_request sent_world).1
post_payout-refused_example =
    post_payout-refused percent last_draw 5 show_uuid read_uuid in_order orchestrator unary
      read_body delivered bad_request sent_world (inl refused)

post_payout-once_example :
    (b : CreateBody) × (a a' : CreatePayoutResponse) × (read_body good_request.body ≡ some b)
    × (read_body good_request.body ≡ some b)
    × ((run_post good_request empty_world).0.body ≡ accepted_body a.payout_id a.status)
    × ((run_post good_request posted_world).0.body ≡ accepted_body a'.payout_id a'.status)
    × (a'.payout_id ≡ a.payout_id)
    × IsUnchanged posted_world (run_post good_request posted_world).1
post_payout-once_example =
    post_payout-once percent show_uuid read_uuid in_order orchestrator unary read_body last_draw
      last_draw 5 5 delivered delivered good_request good_request empty_world empty_world-IsValid
      unary-FormatLaws (λ x y same. same) refl accepted here accepted_again

abbrev seven : HttpRequest
seven = request_of "" "" "p-7"

abbrev run_post_cancel : HttpResponse × World ℕ
run_post_cancel =
    post_cancel percent last_draw 5 show_uuid read_uuid in_order orchestrator delivered seven
      sent_world

cancel_ok : run_post_cancel.0.code ≡ 200
unfolding cancel_handler service_client Cancel.cancel_payout Repo.get_payout Queries.get_payout
    to_domain_payout Orchestrator.cancel_payout get_by_provider Repo.cancel_payout
    Queries.cancel_payout_if_cancelable row_allowed state_allowed provider_allowed same_external
cancel_ok = refl

post_cancel-ok_example :
    (u : Uuid) × (read_uuid "p-7" ≡ some u) × IsCanceledRow u sent_world run_post_cancel.1
post_cancel-ok_example =
    post_cancel-ok percent last_draw 5 show_uuid read_uuid in_order orchestrator delivered seven
      sent_world cancel_ok

abbrev run_get : HttpResponse × World ℕ
run_get =
    get_http percent last_draw 5 show_uuid read_uuid in_order orchestrator delivered seven
      sent_world

get_ok : run_get.0.code ≡ 200
unfolding get_handler service_client Get.get_payout Repo.get_payout Queries.get_payout
    to_domain_payout state_string
get_ok = refl

get_http-ok_example :
    (row : PayoutRow) × (b : PayoutBody) × (read_uuid "p-7" ≡ some row.id)
    × (find_payout row.id sent_world.db.tables.payouts ≡ some row)
    × ShowsRow show_uuid row b
    × (run_get.0.body ≡ payout_body b)
    × (run_get.1.db.tables ≡ sent_world.db.tables)
get_http-ok_example =
    get_http-ok percent last_draw 5 show_uuid read_uuid in_order orchestrator delivered seven
      sent_world get_ok

-- A client that counts its calls.
abbrev pub counting : PayoutClient ℕ
counting = record {
  create_payout =
      λ request_id req n. (responded (record { payout_id = "p-1"; status = "sent" }), n + 1);
  get_payout = λ request_id id n. (
    responded (record {
      payout_id = id;
      status = "sent";
      amount = pos 2;
      currency = "eur";
      provider = "stripe";
      rail = "card";
      external_id = "";
    }),
    n + 1,
  );
  cancel_payout = λ request_id id n. (responded true, n + 1);
}
