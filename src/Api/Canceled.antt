-- ===== src/Api/Canceled.antt =====
-- A read and a cancellation over HTTP, joined to the payout service.
use payment_orchestrator.Base.{
  ℕ, ◌≡◌, ◌≢◌, refl, String, Bool, Option, none, some, List, ap, ◌⊎◌, str_eq_iff, arith, inl, inr,
  Bool-cases, str_eq,
}
use payment_orchestrator.Domain.{Uuid, Time, state_string}
use payment_orchestrator.Persistence.Repo.{or_empty}
use payment_orchestrator.Persistence.Queries.{PayoutRow, find_payout, canceled_row}
use payment_orchestrator.Persistence.Repo.Update.{Became}
use payment_orchestrator.Provider.Registry.{Registry, RailEntry}
use payment_orchestrator.Provider.SuccessTracker.{Float64}
use payment_orchestrator.Provider.Orchestrator.{Orchestrator}
use payment_orchestrator.Service.Types.{
  reply, World, invalid_argument, not_found, already_exists, failed_precondition, internal,
}
use payment_orchestrator.Service.Cancel.{cancel_payout}
use payment_orchestrator.Service.Cancel.Why.{Cancelable}
use payment_orchestrator.Service.Cancel.Effect.{cancel_payout-effect}
use payment_orchestrator.Service.Get.{GetPayoutResponse, get_payout}
use payment_orchestrator.Service.Get.Reads.{Shows, get_payout-Reads}
use payment_orchestrator.Api.Types.{
  ClientError, status, other_status, no_status, CallResult, responded, call_failed, HttpRequest,
  HttpResponse, payout_body, PayoutBody,
}
use payment_orchestrator.Api.Get.{body_of, omit_empty, get_error, get_handler, get_response}
use payment_orchestrator.Api.Cancel.{cancel_error, cancel_handler, cancel_response}
use payment_orchestrator.Api.Connection.{Delivery, carried, service_client}
use payment_orchestrator.Api.EndToEnd.{carried-responded}

cancel_error_not_ok : (e : ClientError) → (cancel_error e).code ≢ 200
cancel_error_not_ok (status invalid_argument m) h = ground arith
cancel_error_not_ok (status not_found m) h = ground arith
cancel_error_not_ok (status already_exists m) h = ground arith
cancel_error_not_ok (status failed_precondition m) h = ground arith
cancel_error_not_ok (status internal m) h = ground arith
cancel_error_not_ok other_status h = ground arith
cancel_error_not_ok no_status h = ground arith

get_error_not_ok : (e : ClientError) → (get_error e).code ≢ 200
get_error_not_ok (status invalid_argument m) h = ground arith
get_error_not_ok (status not_found m) h = ground arith
get_error_not_ok (status already_exists m) h = ground arith
get_error_not_ok (status failed_precondition m) h = ground arith
get_error_not_ok (status internal m) h = ground arith
get_error_not_ok other_status h = ground arith
get_error_not_ok no_status h = ground arith

cancel_response_ok :
    (request_id : String) (result : CallResult Bool)
    → (cancel_response request_id result).code ≡ 200
    → (b : Bool) × (result ≡ responded b)
cancel_response_ok request_id (responded b) h = (b, refl)
cancel_response_ok request_id (call_failed e) h = absurd (cancel_error_not_ok e h)

get_response_ok :
    (request_id : String) (result : CallResult GetPayoutResponse)
    → (get_response request_id result).code ≡ 200
    → (a : GetPayoutResponse) × (result ≡ responded a)
      × ((get_response request_id result).body ≡ payout_body (body_of a))
get_response_ok request_id (responded a) h = (a, refl, refl)
get_response_ok request_id (call_failed e) h = absurd (get_error_not_ok e h)

-- The body shows the row; an external id that is missing or empty is left out.
pub record ShowsRow (uuid_string : Uuid → String) (row : PayoutRow) (b : PayoutBody) : Type 0 where
  pub payout_id : b.payout_id ≡ uuid_string row.id
  pub status : b.status ≡ state_string row.state
  pub amount : b.amount ≡ row.amount_cents
  pub currency : b.currency ≡ row.currency
  pub rail : b.rail ≡ row.rail
  pub provider : b.provider ≡ or_empty row.provider
  pub external_id :
      (b.external_id ≡ row.external_id) ⊎ ((b.external_id ≡ none) × (row.external_id ≡ some ""))

omitted :
    (x : Option String)
    → (omit_empty (or_empty x) ≡ x) ⊎ ((omit_empty (or_empty x) ≡ none) × (x ≡ some ""))
omitted none = inl refl
omitted (some x) = elim (Bool-cases (str_eq x "")) [
  | inl empty ↦ inr (rw empty refl, ap (λ (s : String). some s) ((str_eq_iff x "").0 empty))
  | inr given ↦ inl (rw given refl)
]

body_of-ShowsRow :
    (uuid_string : Uuid → String) (row : PayoutRow) (a : GetPayoutResponse)
    → Shows uuid_string row a
    → ShowsRow uuid_string row (body_of a)
body_of-ShowsRow uuid_string row a shown = rw shown (record {
  payout_id = refl;
  status = refl;
  amount = refl;
  currency = refl;
  rail = refl;
  provider = refl;
  external_id = omitted row.external_id;
})

-- The row of `id` was in a cancelable state, and only its state, now canceled, and its time of
-- update changed.
pub record IsCanceledRow {E : Type 0} (id : Uuid) (w w' : World E) : Type 1 where
  pub old : PayoutRow
  pub now : Time
  pub cancelable : Cancelable old.state
  pub became : Became id old (canceled_row now old) w.db.tables w'.db.tables

module _ (fl : Float64) (intn : ℕ → ℕ) (now : Time) (uuid_string : Uuid → String)
    (parse_uuid : String → Option Uuid) {E : Type 0} (iteration : Registry E → List (RailEntry E))
    (o : Orchestrator E) where
  -- `POST /v1/payouts/{id}/cancel` and `GET /v1/payouts/{id}` over the service.
  abbrev pub post_cancel : Delivery → HttpRequest → World E → HttpResponse × World E
  post_cancel d = cancel_handler (service_client fl intn now uuid_string parse_uuid iteration o d)

  abbrev pub get_http : Delivery → HttpRequest → World E → HttpResponse × World E
  get_http d = get_handler (service_client fl intn now uuid_string parse_uuid iteration o d)

  effect_ok :
      (id : String) (w : World E) (b : Bool)
      → (cancel_payout iteration parse_uuid (some o) id w).0 ≡ reply b
      → (u : Uuid) × (parse_uuid id ≡ some u)
        × IsCanceledRow u w (cancel_payout iteration parse_uuid (some o) id w).1
  effect_ok id w b h = elim (cancel_payout-effect iteration parse_uuid (some o) id w) [
    | inl ((_, _, (c, m, refused)), _) ↦ ground (arith, h, refused)
    | inr (inl ((_, (c, m, failed)), _)) ↦ ground (arith, h, failed)
    | inr (inr (u, parsed, (_, (old, at_time, cancelable, became)))) ↦
        (u, parsed, record { old = old; now = at_time; cancelable = cancelable; became = became })
  ]

  -- Whatever the connection loses, when `POST /v1/payouts/{id}/cancel` answers 200, the id parses,
  -- its payout was created, queued, pending or sent, and exactly its row changed: the state to
  -- canceled, and the time of the update.
  pub post_cancel-ok :
      (d : Delivery) (r : HttpRequest) (w : World E)
      → (post_cancel d r w).0.code ≡ 200
      → (u : Uuid) × (parse_uuid r.id ≡ some u) × IsCanceledRow u w (post_cancel d r w).1
  unfolding cancel_handler service_client
  post_cancel-ok d r w done = elim (Bool-cases (str_eq r.id "")) [
    | inl empty ↦ ground (arith, empty, done)
    | inr given ↦
        let h = cancel_payout iteration parse_uuid (some o) r.id in
        let (b, came) = cancel_response_ok r.request_id (carried d h w).0 (rw given at done) in
        let (gave, left) = carried-responded d h w b came in
        rw (given, left) (effect_ok r.id w b gave)
  ]

  -- Whatever the connection loses, when `GET /v1/payouts/{id}` answers 200, the id parses to that of
  -- a stored payout, the body shows its row field by field, without an external id that is empty,
  -- and no table changed.
  pub get_http-ok :
      (d : Delivery) (r : HttpRequest) (w : World E)
      → (get_http d r w).0.code ≡ 200
      → (row : PayoutRow) × (b : PayoutBody) × (parse_uuid r.id ≡ some row.id)
        × (find_payout row.id w.db.tables.payouts ≡ some row)
        × ShowsRow uuid_string row b
        × ((get_http d r w).0.body ≡ payout_body b)
        × ((get_http d r w).1.db.tables ≡ w.db.tables)
  unfolding get_handler service_client
  get_http-ok d r w done = elim (Bool-cases (str_eq r.id "")) [
    | inl empty ↦ ground (arith, empty, done)
    | inr given ↦
        let h = get_payout uuid_string parse_uuid r.id in
        let (a, came, body) = get_response_ok r.request_id (carried d h w).0 (rw given at done) in
        let (gave, left) = carried-responded d h w a came in
        let reads = get_payout-Reads uuid_string parse_uuid r.id w in
        let (row, named, found, shown) = reads.shows_row a gave in
        (
          row,
          body_of a,
          named,
          found,
          body_of-ShowsRow uuid_string row a shown,
          rw given body,
          rw (given, left) reads.tables_kept,
        )
  ]
