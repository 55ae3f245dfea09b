-- ===== src/Webhook/Parser.antt =====
-- Parsing Stripe's events (services/webhook/internal/stripeadapter/parser.go).
use payment_orchestrator.Base.{String, Option, none, some, List, [], ◌∷◌, str_eq, if◌then◌else◌}
use payment_orchestrator.Domain.{Time}
use payment_orchestrator.Webhook.Event.{
  EventType, payout_succeeded, payout_failed, payout_canceled, received, ProviderEvent,
}

-- A value of `map[string]any`, as deep as the parser looks: a text, an object whose values are
-- texts or not, or anything else.
pub data Value : Type 0 where
  text : String → Value
  object : List (String × Option String) → Value
  other : Value

-- `stripe.Event`; `object` is `none` where `Data` or `Data.Object` is nil.
pub record StripeEvent : Type 0 where
  pub id : String
  pub type : String
  pub created : Time
  pub data_object : Option (List (String × Value))

abbrev pub look_up : {V : Type 0} → String → List (String × V) → Option V
look_up k [] = none
look_up k ((key, v) ∷ m) = let rest = look_up k m in if str_eq key k then some v else rest

unfoldable pub map_event_type : String → Option EventType
map_event_type stripe_type =
    if str_eq stripe_type "payment_intent.succeeded"
    then some payout_succeeded
    else if str_eq stripe_type "payment_intent.payment_failed"
    then some payout_failed
    else if str_eq stripe_type "payment_intent.canceled"
    then some payout_canceled
    else none

abbrev pub as_id : Option Value → Option String
as_id none = none
as_id (some (object _)) = none
as_id (some other) = none
as_id (some (text id)) = if str_eq id "" then none else some id

unfoldable pub extract_external_id : StripeEvent → Option String
extract_external_id event = elim event.data_object [ none ↦ none | some o ↦ as_id (look_up "id" o) ]

-- What a text under a key overwrites.
abbrev pub text_or : String → Option (Option String) → String
text_or old none = old
text_or old (some none) = old
text_or old (some (some s)) = s

abbrev pub error_details : Option Value → ProviderEvent → ProviderEvent
error_details none e = e
error_details (some (text _)) e = e
error_details (some other) e = e
error_details (some (object m)) e = record e {
  error_code = text_or e.error_code (look_up "code" m);
  error_message = text_or e.error_message (look_up "message" m);
}

unfoldable pub extract_error_details : StripeEvent → ProviderEvent → ProviderEvent
extract_error_details event e = elim event.data_object [
  | none ↦ e
  | some o ↦ error_details (look_up "last_payment_error" o) e
]

abbrev pub if_failed : EventType → StripeEvent → ProviderEvent → ProviderEvent
if_failed payout_failed event e = extract_error_details event e
if_failed payout_succeeded event e = e
if_failed payout_canceled event e = e

-- `Parse`; `none` is an error.
unfoldable pub parse : StripeEvent → Option ProviderEvent
unfolding extract_error_details
parse event = elim (extract_external_id event) [
  | none ↦ none
  | some external_id ↦ elim (map_event_type event.type) [
    | none ↦ none
    | some event_type ↦ some (
        if_failed event_type event (record {
          provider = "stripe";
          external_id = external_id;
          event_id = event.id;
          type = event_type;
          status = received;
          occurred_at = event.created;
          error_code = "";
          error_message = "";
        }))
  ]
]
