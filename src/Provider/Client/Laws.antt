-- ===== src/Provider/Client/Laws.antt =====
-- What the orchestrator makes of a provider's errors (provider/stripe/stripe.go `classifyError`,
-- provider/orchestrator.go `isRetryable`).
use payment_orchestrator.Base.{◌≡◌, ◌↔◌, ◌⊎◌, inl, inr, false, none, some, arith, Option-cases}
use payment_orchestrator.Provider.Client.{
  GoError, StripeErrorType, card, invalid_request, idempotency, as_retryable, as_stripe,
  classify_error, is_retryable,
}

-- Stripe refuses this payment, rather than failing on its own side.
abbrev IsRefusal : StripeErrorType → Type 0
IsRefusal type = (type ≡ card) ⊎ (type ≡ invalid_request) ⊎ (type ≡ idempotency)

-- An error of Stripe's SDK, which holds no verdict yet, stops the fallback exactly when it is a
-- Stripe error of the card, invalid-request or idempotency type. Every other error, one that is
-- not Stripe's included, lets the next provider be tried.
classify_error-stops :
    (e : GoError)
    → as_retryable e ≡ none
    → (is_retryable (classify_error e) ≡ false)
      ↔ ((type : StripeErrorType) × (as_stripe e ≡ some type) × IsRefusal type)
unfolding is_retryable classify_error
classify_error-stops e fresh = elim (Option-cases (as_stripe e)) [
  | inl foreign ↦ ground arith
  | inr (type, h) ↦ (λ stops. (type, h, refusal type h stops), λ refused. ground arith)
]
  where
    refusal :
        (type : StripeErrorType)
        → as_stripe e ≡ some type
        → is_retryable (classify_error e) ≡ false
        → IsRefusal type
    refusal type h stops = ground arith
