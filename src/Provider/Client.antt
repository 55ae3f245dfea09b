-- ===== src/Provider/Client.antt =====
-- The client interface and its errors (provider/provider.go, provider/errors.go), the mock client
-- (provider/mock/mock.go) and the Stripe client (provider/stripe/stripe.go).
--
-- `E` is the state of the world outside: a call of a provider reads and changes it.
pub mod Laws
use payment_orchestrator.Base.{
  ℕ, String, Bool, true, false, Option, none, some, List, [], ◌∷◌, if◌then◌else◌,
}
use payment_orchestrator.Base.Int.{ℤ}
use payment_orchestrator.Domain.{Uuid, Payout}

-- The error types of Stripe's SDK that the code names, and the others.
pub data StripeErrorType : Type 0 where
  card invalid_request idempotency : StripeErrorType
  other : String → StripeErrorType

-- A Go `error`: the two types that the code looks for, an error that wraps another, any other.
pub data GoError : Type 0 where
  plain : String → GoError
  stripe_error : StripeErrorType → String → GoError
  retryable_error : Bool → GoError → GoError
  wrap : String → GoError → GoError

-- `errors.As(err, &re)` for `*RetryableError`: the first one along `Unwrap`.
unfoldable pub as_retryable : GoError → Option Bool
as_retryable (plain _) = none
as_retryable (stripe_error _ _) = none
as_retryable (retryable_error retryable _) = some retryable
as_retryable (wrap _ err) = as_retryable err

-- `errors.As(err, &stripeErr)` for `*stripe.Error`.
unfoldable pub as_stripe : GoError → Option StripeErrorType
as_stripe (plain _) = none
as_stripe (stripe_error type _) = some type
as_stripe (retryable_error _ err) = as_stripe err
as_stripe (wrap _ err) = as_stripe err

abbrev pub err_cancel_not_supported : GoError
err_cancel_not_supported = plain "provider does not support cancel"

pub data Sent : Type 0 where
  ok : String → Sent
  err : GoError → Sent

-- `provider.Client`; `CancelPayout` returns an error or nil.
pub record Client (E : Type 0) : Type 0 where
  pub send_payout : Payout → E → Sent × E
  pub cancel_payout : Payout → E → Option GoError × E

-- `mock.Provider`
pub record MockProvider : Type 0 where
  pub send_err : Option GoError
  pub cancel_err : Option GoError

module _ (mock_ext : Uuid → String) where
  -- `mock_ext id` is the text `mock-ext-<id>`.
  unfoldable pub mock_send_payout : MockProvider → Payout → Sent
  mock_send_payout p payout = elim p.send_err [ some e ↦ err e | none ↦ ok (mock_ext payout.id) ]

  unfoldable pub mock_client : {E : Type 0} → MockProvider → Client E
  unfolding mock_send_payout
  mock_client p = record {
    send_payout = λ payout w. (mock_send_payout p payout, w);
    cancel_payout = λ _ w. (p.cancel_err, w);
  }

-- `stripe.PaymentIntentCreateParams`, as `SendPayout` fills it.
pub record PaymentIntentCreateParams : Type 0 where
  pub amount : ℤ
  pub currency : String
  pub payment_method_types : List String
  pub payment_method : String
  pub confirm : Bool
  pub off_session : Bool

-- The two calls of Stripe's SDK; the first returns the identifier of the payment intent.
pub record StripeSdk (E : Type 0) : Type 0 where
  pub create : PaymentIntentCreateParams → E → Sent × E
  pub cancel : String → E → Option GoError × E

abbrev classify_type : StripeErrorType → Bool
classify_type (other _) = true
classify_type _ = false

unfoldable pub classify_error : GoError → GoError
unfolding as_stripe
classify_error e = elim (as_stripe e) [
  | some type ↦ retryable_error (classify_type type) e
  | none ↦ e
]

abbrev payment_intent : Payout → PaymentIntentCreateParams
payment_intent payout = record {
  amount = payout.amount_cents;
  currency = payout.currency;
  payment_method_types = "card" ∷ [];
  payment_method = "pm_card_visa";
  confirm = true;
  off_session = true;
}

module _ {E : Type 0} (sdk : StripeSdk E) where
  unfoldable pub stripe_send_payout : Payout → E → Sent × E
  stripe_send_payout payout w =
      let (r, w') = sdk.create (payment_intent payout) w in
      (elim r [ ok id ↦ ok id | err e ↦ err (classify_error e) ], w')

  unfoldable pub stripe_cancel_payout : Payout → E → Option GoError × E
  stripe_cancel_payout payout w = elim payout.external_id [
    | none ↦ (some (retryable_error false (plain "stripe: payout has no external_id to cancel")), w)
    | some id ↦
        let (r, w') = sdk.cancel id w in
        (elim r [ some e ↦ some (classify_error e) | none ↦ none ], w')
  ]

  unfoldable pub stripe_client : Client E
  unfolding stripe_send_payout stripe_cancel_payout
  stripe_client = record { send_payout = stripe_send_payout; cancel_payout = stripe_cancel_payout }

-- `Orchestrator.isRetryable` (provider/orchestrator.go).
unfoldable pub is_retryable : GoError → Bool
unfolding as_retryable
is_retryable e = elim (as_retryable e) [ some retryable ↦ retryable | none ↦ true ]
