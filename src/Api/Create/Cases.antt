-- ===== src/Api/Create/Cases.antt =====
-- When the handler of a creation calls the orchestrator, and what its status says of the call.
use payment_orchestrator.Base.{
  ◌≡◌, ◌≢◌, refl, String, Bool, true, false, Option, none, some, arith, str_eq, Bool-cases, inl,
  inr, ◌⊎◌, sym, ap, ◌∙◌,
}
use mathlib.Core.Option.{some-injective}
use payment_orchestrator.Base.Int.{pos, ltb_ℤ}
use payment_orchestrator.Service.Types.{
  Message, invalid_argument, not_found, already_exists, failed_precondition, internal, text,
}
use payment_orchestrator.Service.Create.{CreatePayoutRequest, CreatePayoutResponse}
use payment_orchestrator.Api.Types.{
  ClientError, status, other_status, no_status, CallResult, responded, call_failed, PayoutClient,
  HttpRequest, HttpResponse, error_body, accepted_body, code_invalid_argument,
}
use payment_orchestrator.Api.Canonical.{Formats, canonical}
use payment_orchestrator.Api.Create.{
  CreateBody, create_error, create_response, send_create, create_decoded, create_handler,
}

-- The request names a key, and its body has a positive amount and a rail.
pub record IsAcceptable (decode : String → Option CreateBody) (r : HttpRequest) (b : CreateBody)
    : Type 0 where
  pub keyed : str_eq r.idempotency_key "" ≡ false
  pub decoded : decode r.body ≡ some b
  pub positive : ltb_ℤ (pos 0) b.amount ≡ true
  pub railed : str_eq b.rail "" ≡ false

-- The answer is 400 with the code of an invalid argument, and the orchestrator was not called.
pub record IsRejected {S : Type 0} (s : S) (a : HttpResponse × S) : Type 0 where
  pub bad_request : a.0.code ≡ 400
  pub invalid : (m : Message) × (a.0.body ≡ error_body code_invalid_argument m)
  pub uncalled : a.1 ≡ s

unlike :
    (test : CreateBody → Bool) (x y : Bool) (b b' : CreateBody)
    → ◌≡◌ {A = Option CreateBody} (some b) (some b')
    → test b ≡ x
    → test b' ≡ y
    → x ≢ y
    → ⊥
unlike test x y b b' same hb hb' apart = apart (sym hb ∙ ap test (some-injective b b' same) ∙ hb')

create_error_cases :
    (e : ClientError)
    → ((m : Message) × (e ≡ status already_exists m) × ((create_error e).code ≡ 409))
      ⊎ ((create_error e).code ≡ 502)
create_error_cases (status already_exists m) = inl (m, refl, refl)
create_error_cases (status invalid_argument m) = inr refl
create_error_cases (status not_found m) = inr refl
create_error_cases (status failed_precondition m) = inr refl
create_error_cases (status internal m) = inr refl
create_error_cases other_status = inr refl
create_error_cases no_status = inr refl

-- What the answer says of the call: 202 with the payout that was given, 409 for a key that was
-- used for another request, or else 502.
abbrev pub Reports : String → CallResult CreatePayoutResponse → HttpResponse → Type 0
Reports request_id result a =
    ((p : CreatePayoutResponse) × (result ≡ responded p)
      × (a.code ≡ 202)
      × (a.request_id ≡ some request_id)
      × (a.body ≡ accepted_body p.payout_id p.status))
    ⊎ (((m : Message) × (result ≡ call_failed (status already_exists m)) × (a.code ≡ 409))
        ⊎ ((e : ClientError) × (result ≡ call_failed e) × (a.code ≡ 502)))

pub create_response_cases :
    (request_id : String) (result : CallResult CreatePayoutResponse)
    → Reports request_id result (create_response request_id result)
create_response_cases request_id (responded p) = inl (p, refl, refl, refl, refl)
create_response_cases request_id (call_failed e) = elim (create_error_cases e) [
  | inl (m, same, code) ↦ inr (inl (m, rw same refl, code))
  | inr code ↦ inr (inr (e, refl, code))
]

-- The request that goes to the orchestrator: the key of the header, the values of the body, and the
-- hash of their canonical form.
pub record Carries (f : Formats) (r : HttpRequest) (b : CreateBody) (u : CreatePayoutRequest)
    : Type 0 where
  pub key : u.idempotency_key ≡ r.idempotency_key
  pub amount : u.amount ≡ b.amount
  pub currency : u.currency ≡ b.currency
  pub rail : u.rail ≡ b.rail
  pub hash : u.request_hash ≡ f.sha256_hex (canonical f b.amount b.currency b.rail)

module _ (f : Formats) (decode : String → Option CreateBody) {S : Type 0}
    (client : PayoutClient S) where
  decoded-Cases :
      (r : HttpRequest) (o : Option CreateBody) (s : S)
      → decode r.body ≡ o
      → str_eq r.idempotency_key "" ≡ false
      → ((b : CreateBody) × IsAcceptable decode r b
          × (create_decoded f decode client r o s ≡ send_create f decode client r b s))
        ⊎ (((b : CreateBody) → ¬ IsAcceptable decode r b)
            × IsRejected s (create_decoded f decode client r o s))
  decoded-Cases r none s undecoded keyed = inr (
    λ b fine. ground (arith, fine.decoded, undecoded),
    record { bad_request = refl; invalid = (text "invalid request body", refl); uncalled = refl },
  )
  decoded-Cases r (some b) s decoded keyed = elim (Bool-cases (ltb_ℤ (pos 0) b.amount)) [
    | inr small ↦ inr (
      λ b' fine.
          unlike (λ x. ltb_ℤ (pos 0) x.amount) false true b b' (sym decoded ∙ fine.decoded) small
            fine.positive cc,
      record {
        bad_request = rw small refl;
        invalid = (text "amount must be positive", rw small refl);
        uncalled = rw small refl;
      },
    )
    | inl positive ↦ elim (Bool-cases (str_eq b.rail "")) [
      | inl no_rail ↦ inr (
        λ b' fine.
            unlike (λ x. str_eq x.rail "") true false b b' (sym decoded ∙ fine.decoded) no_rail
              fine.railed cc,
        record {
          bad_request = rw (positive, no_rail) refl;
          invalid = (text "rail is required", rw (positive, no_rail) refl);
          uncalled = rw (positive, no_rail) refl;
        },
      )
      | inr railed ↦ inl (
        b,
        record { keyed = keyed; decoded = decoded; positive = positive; railed = railed },
        rw (positive, railed) refl,
      )
    ]
  ]

  -- The orchestrator was called once, with a request of the body, and the answer reports how the
  -- call came out.
  pub record IsSent (r : HttpRequest) (b : CreateBody) (s : S) (a : HttpResponse × S) : Type 0 where
    pub upstream : CreatePayoutRequest
    pub carries : Carries f r b upstream
    pub left : a.1 ≡ (client.create_payout r.request_id upstream s).1
    pub reports : Reports r.request_id (client.create_payout r.request_id upstream s).0 a.0

  pub handler_cases :
      (r : HttpRequest) (s : S)
      → ((b : CreateBody) × IsAcceptable decode r b
          × (create_handler f decode client r s ≡ send_create f decode client r b s))
        ⊎ (((b : CreateBody) → ¬ IsAcceptable decode r b)
            × IsRejected s (create_handler f decode client r s))
  unfolding create_handler
  handler_cases r s = elim (Bool-cases (str_eq r.idempotency_key "")) [
    | inl keyless ↦ inr (
      λ b fine. ground (arith, fine.keyed),
      record {
        bad_request = rw keyless refl;
        invalid = (text "Idempotency-Key header is required", rw keyless refl);
        uncalled = rw keyless refl;
      },
    )
    | inr keyed ↦ rw keyed (decoded-Cases r (decode r.body) s refl keyed)
  ]
