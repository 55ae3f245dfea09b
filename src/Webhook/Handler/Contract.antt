-- ===== src/Webhook/Handler/Contract.antt =====
-- What the webhook service forwards, against what `ApplyProviderUpdate` accepts.
use payment_orchestrator.Base.{
  ◌≡◌, refl, String, false, Option, none, some, str_eq, Option-cases, inl, inr, arith, sym, ap, ◌∙◌,
}
use mathlib.Core.Path.{subst}
use payment_orchestrator.Domain.{PayoutState}
use payment_orchestrator.Service.Update.{map_provider_status_to_state}
use payment_orchestrator.Webhook.Event.{
  ProviderEvent, EventType, payout_succeeded, payout_failed, payout_canceled, event_type_string,
}
use payment_orchestrator.Webhook.Parser.{
  StripeEvent, Value, text, object, other, parse, extract_external_id, as_id, look_up,
  map_event_type, if_failed, extract_error_details, error_details,
}

status_known :
    (type : EventType)
    → (state : PayoutState) × (map_provider_status_to_state (event_type_string type) ≡ some state)
unfolding map_provider_status_to_state event_type_string
status_known payout_succeeded = (_, refl)
status_known payout_failed = (_, refl)
status_known payout_canceled = (_, refl)

as_id_given : (v : Option Value) (id : String) → as_id v ≡ some id → str_eq id "" ≡ false
as_id_given none id h = ground arith
as_id_given (some (text s)) id h = ground arith
as_id_given (some (object m)) id h = ground arith
as_id_given (some other) id h = ground arith

external_id_given :
    (event : StripeEvent) (id : String) → extract_external_id event ≡ some id → str_eq id "" ≡ false
unfolding extract_external_id
external_id_given event id h = elim (Option-cases event.data_object) [
  | inl absent ↦ ground arith
  | inr (o, here) ↦ as_id_given (look_up "id" o) id (rw here at h)
]

if_failed_id :
    (type : EventType) (event : StripeEvent) (e : ProviderEvent)
    → (if_failed type event e).external_id ≡ e.external_id
unfolding extract_error_details
if_failed_id payout_succeeded event e = refl
if_failed_id payout_canceled event e = refl
if_failed_id payout_failed event e = elim (Option-cases event.data_object) [
  | inl absent ↦ rw (absent, extract_error_details) refl
  | inr (o, here) ↦
      rw (here, extract_error_details) (error_details_id (look_up "last_payment_error" o) e)
]
  where
    error_details_id :
        (v : Option Value) (e : ProviderEvent) → (error_details v e).external_id ≡ e.external_id
    error_details_id none e = refl
    error_details_id (some (text s)) e = refl
    error_details_id (some (object m)) e = refl
    error_details_id (some other) e = refl

abbrev named : Option ProviderEvent → String
named none = ""
named (some e) = e.external_id

-- An event that parses names a payout by a text that is not empty, and its type, as it is sent to
-- the orchestrator, is a provider status that `ApplyProviderUpdate` knows.
pub parse-accepted :
    (event : StripeEvent) (e : ProviderEvent)
    → parse event ≡ some e
    → (str_eq e.external_id "" ≡ false)
      × ((state : PayoutState) × (map_provider_status_to_state (event_type_string e.type)
            ≡ some state))
unfolding parse
parse-accepted event e h = (given, status_known e.type)
  where
    given : str_eq e.external_id "" ≡ false
    given = elim (Option-cases (extract_external_id event)) [
      | inl absent ↦ ground arith
      | inr (id, here) ↦ elim (Option-cases (map_event_type event.type)) [
        | inl unknown ↦ ground arith
        | inr (type, known) ↦
            let same = sym (if_failed_id type event _) ∙ ap named (rw (here, known, parse) at h) in
            subst (λ x. str_eq x "" ≡ false) same (external_id_given event id here)
      ]
    ]
