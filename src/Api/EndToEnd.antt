-- ===== src/Api/EndToEnd.antt =====
-- The HTTP handlers of a creation and a cancellation over the payout service: what a status code
-- that the client of the API sees says of the payouts, the keys and the providers.
use payment_orchestrator.Base.{ℕ, ◌≡◌, ◌≢◌, refl, String, Option, some, List, arith, inl, inr, ◌⊎◌}
use payment_orchestrator.Domain.{Uuid, Time}
use payment_orchestrator.Provider.Registry.{Registry, RailEntry}
use payment_orchestrator.Provider.SuccessTracker.{Float64}
use payment_orchestrator.Provider.Orchestrator.{Orchestrator}
use payment_orchestrator.Service.Types.{
  Reply, reply, crashed, World, Handler, already_exists, Message,
}
use payment_orchestrator.Service.Types
use payment_orchestrator.Service.Create.{create_payout, CreatePayoutResponse}
use payment_orchestrator.Service.Create.Cases.{IsAnswerOf}
use payment_orchestrator.Service.Create.Replay.{create_payout-IsAnswerOf, create_payout-status}
use payment_orchestrator.Api.Types.{
  status, responded, call_failed, HttpRequest, HttpResponse, accepted_body,
}
use payment_orchestrator.Api.Canonical.{Formats}
use payment_orchestrator.Api.Create.{CreateBody, upstream_request, send_create, create_handler}
use payment_orchestrator.Api.Create.Cases.{IsAcceptable, handler_cases, create_response_cases}
use payment_orchestrator.Api.Connection.{
  Delivery, delivered, request_lost, answer_lost, seen, carried, service_client,
}

seen-responded : {A : Type 0} (r : Reply A) (a : A) → seen r ≡ responded a → r ≡ reply a
seen-responded (reply b) a h = ground arith
seen-responded (Types.status c m) a h = ground arith
seen-responded crashed a h = ground arith

seen-status :
    {A : Type 0} (r : Reply A) (c : Types.Code) (m : Message)
    → seen r ≡ call_failed (status c m)
    → r ≡ Types.status c m
seen-status (reply b) c m h = ground arith
seen-status (Types.status d n) c m h = ground arith
seen-status crashed c m h = ground arith

-- An answer that came was given, and nothing happened after it.
pub carried-responded :
    {E A : Type 0} (d : Delivery) (h : Handler E A) (w : World E) (a : A)
    → (carried d h w).0 ≡ responded a
    → ((h w).0 ≡ reply a) × ((carried d h w).1 ≡ (h w).1)
carried-responded delivered h w a came = (seen-responded (h w).0 a came, refl)
carried-responded request_lost h w a came = ground arith
carried-responded answer_lost h w a came = ground arith

carried-status :
    {E A : Type 0} (d : Delivery) (h : Handler E A) (w : World E) (c : Types.Code) (m : Message)
    → (carried d h w).0 ≡ call_failed (status c m)
    → ((h w).0 ≡ Types.status c m) × ((carried d h w).1 ≡ (h w).1)
carried-status delivered h w c m came = (seen-status (h w).0 c m came, refl)
carried-status request_lost h w c m came = ground arith
carried-status answer_lost h w c m came = ground arith

-- The tables, the providers and the tracker are as they were.
pub record IsUnchanged {E : Type 0} (w w' : World E) : Type 0 where
  pub tables_kept : w'.db.tables ≡ w.db.tables
  pub env_kept : w'.env ≡ w.env
  pub tracker_kept : w'.tracker ≡ w.tracker

module _ (fl : Float64) (intn : ℕ → ℕ) (now : Time) (uuid_string : Uuid → String)
    (parse_uuid : String → Option Uuid) {E : Type 0} (iteration : Registry E → List (RailEntry E))
    (o' : Orchestrator E) (f : Formats) (decode : String → Option CreateBody) where
  -- `POST /v1/payouts` over the service.
  abbrev pub post_payout : Delivery → HttpRequest → World E → HttpResponse × World E
  post_payout d =
      create_handler f decode (service_client fl intn now uuid_string parse_uuid iteration o' d)

  -- The creation that an accepted request made.
  pub record IsCreatedBy (r : HttpRequest) (w : World E) (b : CreateBody) (a : CreatePayoutResponse)
      (o : HttpResponse × World E) : Type 0 where
    pub decoded : decode r.body ≡ some b
    pub gave :
        (create_payout fl intn now uuid_string (some o') (upstream_request f r b) w).0 ≡ reply a
    pub left : o.1 ≡ (create_payout fl intn now uuid_string (some o') (upstream_request f r b) w).1
    pub shows : o.0.body ≡ accepted_body a.payout_id a.status

  send_create-accepted :
      (d : Delivery) (r : HttpRequest) (b : CreateBody) (w : World E)
      → IsAcceptable decode r b
      → let sent =
          send_create f decode
            (service_client fl intn now uuid_string parse_uuid iteration o' d)
            r
            b
            w in
        sent.0.code ≡ 202 → (a : CreatePayoutResponse) × IsCreatedBy r w b a sent
  unfolding service_client
  send_create-accepted d r b w fine accepted =
      let h = create_payout fl intn now uuid_string (some o') (upstream_request f r b) in
      elim (create_response_cases r.request_id (carried d h w).0) [
        | inl (a, came, _, _, shows) ↦
            let (gave, left) = carried-responded d h w a came in
            (a, record { decoded = fine.decoded; gave = gave; left = left; shows = shows })
        | inr (inl (_, _, conflict)) ↦ ground arith
        | inr (inr upstream) ↦ ground arith
      ]

  pub post_payout-created :
      (d : Delivery) (r : HttpRequest) (w : World E)
      → (post_payout d r w).0.code ≡ 202
      → (b : CreateBody) × (a : CreatePayoutResponse) × IsCreatedBy r w b a (post_payout d r w)
  post_payout-created d r w accepted =
      elim (handler_cases f decode
        (service_client fl intn now uuid_string parse_uuid iteration o' d) r w) [
          | inl (b, fine, same) ↦
              let (a, made) = send_create-accepted d r b w fine (rw same at accepted) in
              (b, a, rw same made)
          | inr (_, rejected) ↦ ground (arith, rejected.bad_request, accepted)
        ]

  -- Whatever the connection loses, when `POST /v1/payouts` answers 202, the body was decoded, the
  -- tables hold the idempotency key of the header with the hash of the body, and the answer names
  -- the payout of that key.
  pub post_payout-accepted :
      (d : Delivery) (r : HttpRequest) (w : World E)
      → (post_payout d r w).0.code ≡ 202
      → (b : CreateBody) × (a : CreatePayoutResponse) × (decode r.body ≡ some b)
        × ((post_payout d r w).0.body ≡ accepted_body a.payout_id a.status)
        × IsAnswerOf uuid_string (upstream_request f r b) (post_payout d r w).1.db.tables a
  post_payout-accepted d r w accepted =
      let (b, a, made) = post_payout-created d r w accepted in
      (
        b,
        a,
        made.decoded,
        made.shows,
        rw (made.left) (
            create_payout-IsAnswerOf fl intn now uuid_string o' (upstream_request f r b) w a
              made.gave),
      )

  send_create-conflict :
      (d : Delivery) (r : HttpRequest) (b : CreateBody) (w : World E)
      → let sent =
          send_create f decode
            (service_client fl intn now uuid_string parse_uuid iteration o' d)
            r
            b
            w in
        sent.0.code ≡ 409 → IsUnchanged w sent.1
  unfolding service_client
  send_create-conflict d r b w conflict =
      let h = create_payout fl intn now uuid_string (some o') (upstream_request f r b) in
      elim (create_response_cases r.request_id (carried d h w).0) [
        | inl (_, _, accepted, _, _) ↦ ground arith
        | inr (inl (m, refused, _)) ↦
            let (gave, left) = carried-status d h w already_exists m refused in
            let (tables, env, tracker) =
              create_payout-status fl intn now uuid_string o' (upstream_request f r b) w
                already_exists m gave in
            record {
              tables_kept = rw left tables;
              env_kept = rw left env;
              tracker_kept = rw left tracker;
            }
        | inr (inr upstream) ↦ ground arith
      ]

  send_create-not_bad :
      (d : Delivery) (r : HttpRequest) (b : CreateBody) (w : World E)
      → (send_create f decode
          (service_client fl intn now uuid_string parse_uuid iteration o' d)
          r
          b
          w).0.code
        ≢ 400
  send_create-not_bad d r b w bad =
      elim (create_response_cases r.request_id
        ((service_client fl intn now uuid_string parse_uuid iteration o' d).create_payout
          r.request_id (upstream_request f r b) w).0) [
            | inl (_, _, accepted, _, _) ↦ ground arith
            | inr (inl (_, _, conflict)) ↦ ground arith
            | inr (inr upstream) ↦ ground arith
          ]

  -- Whatever the connection loses, when `POST /v1/payouts` answers 400 or 409, no table changed, no
  -- provider was asked and nothing was counted in the success tracker.
  pub post_payout-refused :
      (d : Delivery) (r : HttpRequest) (w : World E)
      → ((post_payout d r w).0.code ≡ 400) ⊎ ((post_payout d r w).0.code ≡ 409)
      → IsUnchanged w (post_payout d r w).1
  post_payout-refused d r w refused =
      elim (handler_cases f decode
        (service_client fl intn now uuid_string parse_uuid iteration o' d) r w) [
          | inr (_, rejected) ↦ record {
            tables_kept = rw (rejected.uncalled) refl;
            env_kept = rw (rejected.uncalled) refl;
            tracker_kept = rw (rejected.uncalled) refl;
          }
          | inl (b, fine, same) ↦ elim refused [
            | inl bad ↦ absurd (send_create-not_bad d r b w (rw same at bad))
            | inr conflict ↦ rw same (send_create-conflict d r b w (rw same at conflict))
          ]
        ]
