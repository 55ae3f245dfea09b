-- ===== src/Api/Once.antt =====
-- Two creations over HTTP with one idempotency key.
use payment_orchestrator.Base.{ℕ, ◌≡◌, String, Option, some, List, arith, ap, ◌∙◌}
use mathlib.Core.Path.{subst}
use payment_orchestrator.Domain.{Uuid, Time}
use payment_orchestrator.Provider.Registry.{Registry, RailEntry}
use payment_orchestrator.Provider.SuccessTracker.{Float64}
use payment_orchestrator.Provider.Orchestrator.{Orchestrator}
use payment_orchestrator.Service.Types.{World}
use payment_orchestrator.Service.Valid.{IsValidWorld}
use payment_orchestrator.Service.Create.{CreatePayoutResponse}
use payment_orchestrator.System.Trace.{Reach, create_payout-once}
use payment_orchestrator.Api.Types.{HttpRequest, accepted_body}
use payment_orchestrator.Api.Canonical.{
  Formats, FormatLaws, canonical, canonical_hash, canonical-inj,
}
use payment_orchestrator.Api.Create.{CreateBody, upstream_request}
use payment_orchestrator.Api.Connection.{Delivery}
use payment_orchestrator.Api.EndToEnd.{IsUnchanged, post_payout, post_payout-created}

canonical_of :
    (f : Formats) (b c : CreateBody)
    → ((x y : String) → f.sha256_hex x ≡ f.sha256_hex y → x ≡ y)
    → canonical_hash f b.amount b.currency b.rail ≡ canonical_hash f c.amount c.currency c.rail
    → canonical f b.amount b.currency b.rail ≡ canonical f c.amount c.currency c.rail
unfolding canonical_hash
canonical_of f b c apart h = apart _ _ h

body_eq :
    (f : Formats) (b c : CreateBody)
    → FormatLaws f
    → canonical f b.amount b.currency b.rail ≡ canonical f c.amount c.currency c.rail
    → b ≡ c
body_eq f b c laws h =
    let (amounts, currencies, rails) =
      canonical-inj f b.amount c.amount b.currency c.currency b.rail c.rail laws h in
    ground (arith, amounts, currencies, rails)

module _ (fl : Float64) (uuid_string : Uuid → String) (parse_uuid : String → Option Uuid)
    {E : Type 0} (iteration : Registry E → List (RailEntry E)) (o : Orchestrator E) (f : Formats)
    (decode : String → Option CreateBody) where
  -- Over valid tables, after `POST /v1/payouts` answered 202 and after any sequence of calls that
  -- follows it, a second `POST /v1/payouts` with the same key that answers 202 had a body with the
  -- same amount, currency and rail, names the same payout, and changed no table and asked no
  -- provider, if the formats of the canonical form tell their values apart and SHA-256 does not
  -- map two texts to one sum.
  pub post_payout-once :
      (intn intn' : ℕ → ℕ) (now now' : Time) (d d' : Delivery) (r again : HttpRequest) (w : World E)
      {later : World E}
      → IsValidWorld w
      → FormatLaws f
      → ((x y : String) → f.sha256_hex x ≡ f.sha256_hex y → x ≡ y)
      → again.idempotency_key ≡ r.idempotency_key
      → let first = post_payout fl intn now uuid_string parse_uuid iteration o f decode d r w in
        let second =
          post_payout fl intn' now' uuid_string parse_uuid iteration o f decode d' again later in
        first.0.code ≡ 202
        → Reach fl uuid_string parse_uuid o first.1 later
        → second.0.code ≡ 202
        → (b : CreateBody) × (a a' : CreatePayoutResponse) × (decode r.body ≡ some b)
          × (decode again.body ≡ some b)
          × (first.0.body ≡ accepted_body a.payout_id a.status)
          × (second.0.body ≡ accepted_body a'.payout_id a'.status)
          × (a'.payout_id ≡ a.payout_id)
          × IsUnchanged later second.1
  post_payout-once intn intn' now now' d d' r again w {later} v laws apart same_key accepted reach
        repeated =
      let (b, a, made) =
        post_payout-created fl intn now uuid_string parse_uuid iteration o f decode d r w
          accepted in
      let (b', a', made') =
        post_payout-created fl intn' now' uuid_string parse_uuid iteration o f decode d' again later
          repeated in
      let (untouched, answers) =
        create_payout-once fl uuid_string parse_uuid o intn intn' now now' (upstream_request f r b)
          (upstream_request f again b') w a v same_key made.gave
          (subst (λ x. Reach fl uuid_string parse_uuid o x later) made.left reach) in
      let (named, hash) = answers a' made'.gave in
      let same : b' ≡ b = body_eq f b' b laws (canonical_of f b' b apart hash) in
      (
        b,
        a,
        a',
        made.decoded,
        made'.decoded ∙ ap (λ x. some x) same,
        made.shows,
        made'.shows,
        named,
        record {
          tables_kept = rw (made'.left) untouched.0;
          env_kept = rw (made'.left) untouched.1;
          tracker_kept = rw (made'.left) untouched.2;
        },
      )
