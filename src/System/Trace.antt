-- ===== src/System/Trace.antt =====
-- Sequences of calls, and what they keep.
use payment_orchestrator.Base.{ℕ, ◌≡◌, refl, String, Option, some, List, arith, inl, inr, sym, ◌∙◌}
use mathlib.Core.Path.{subst}
use payment_orchestrator.Domain.{Uuid, Time, PayoutState}
use payment_orchestrator.Persistence.Queries.{canceled_row}
use payment_orchestrator.Provider.Registry.{Registry, RailEntry}
use payment_orchestrator.Provider.SuccessTracker.{Float64}
use payment_orchestrator.Provider.Orchestrator.{Orchestrator}
use payment_orchestrator.Service.Types.{reply, World}
use payment_orchestrator.Persistence.Queries.Valid.{IsValid}
use payment_orchestrator.Service.Valid.{IsValidWorld}
use payment_orchestrator.Service.Create.{CreatePayoutRequest, CreatePayoutResponse, create_payout}
use payment_orchestrator.Service.Create.Cases.{Untouched}
use payment_orchestrator.Service.Create.Replay.{create_payout-IsAnswerOf, create_payout-stored}
use payment_orchestrator.Service.Create.Valid.{create_payout-IsValidWorld}
use payment_orchestrator.Service.Get.{get_payout}
use payment_orchestrator.Service.Get.Reads.{get_payout-Reads}
use payment_orchestrator.Service.Cancel.{cancel_payout}
use payment_orchestrator.Service.Cancel.Valid.{cancel_payout-IsValidWorld}
use payment_orchestrator.Service.Cancel.Effect.{cancel_payout-effect}
use payment_orchestrator.Service.Update.{
  ApplyProviderUpdateRequest, apply_provider_update, map_provider_status_to_state,
}
use payment_orchestrator.Service.Update.Valid.{apply_provider_update-IsValidWorld}
use payment_orchestrator.Service.Update.Why.{moved_row}
use payment_orchestrator.Service.Update.Effect.{apply_provider_update-effect}
use payment_orchestrator.System.Follows.{
  Follows, Follows-eq, Follows-refl, Follows-trans, Became-Follows, IsSettled,
}
use payment_orchestrator.System.Asked.{create_payout-Asked}

known_IsSettled :
    (status : String) (s : PayoutState) → map_provider_status_to_state status ≡ some s → IsSettled s
unfolding map_provider_status_to_state
known_IsSettled status s h = ground arith

cancel_payout-Follows :
    {E : Type 0} (iteration : Registry E → List (RailEntry E)) (parse_uuid : String → Option Uuid)
    (server : Option (Orchestrator E)) (payout_id : String) (w : World E)
    → Follows w.db.tables (cancel_payout iteration parse_uuid server payout_id w).1.db.tables
cancel_payout-Follows iteration parse_uuid server payout_id w =
    elim (cancel_payout-effect iteration parse_uuid server payout_id w) [
      | inl ((same, _, _), _) ↦ Follows-eq _ _ same
      | inr (inl ((same, _), _)) ↦ Follows-eq _ _ same
      | inr (inr (id, _, (_, (old, now, _, became)))) ↦
          Became-Follows id old (canceled_row now old) _ _ became (record {
            id = refl;
            amount_cents = refl;
            currency = refl;
            rail = refl;
            created_at = refl;
            state = inr (inr (inr refl));
          })
    ]

apply_provider_update-Follows :
    {E : Type 0} (parse_uuid : String → Option Uuid) (req : ApplyProviderUpdateRequest)
    (w : World E)
    → IsValidWorld w
    → Follows w.db.tables (apply_provider_update parse_uuid req w).1.db.tables
apply_provider_update-Follows parse_uuid req w v =
    elim (apply_provider_update-effect parse_uuid req w v) [
      | inl ((same, _, _), _) ↦ Follows-eq _ _ same
      | inr (row, _, (_, (new_state, now, known, became))) ↦
          Became-Follows row.id row (moved_row new_state now row) _ _ became (record {
            id = refl;
            amount_cents = refl;
            currency = refl;
            rail = refl;
            created_at = refl;
            state = inr (known_IsSettled req.provider_status new_state known);
          })
    ]

module _ (fl : Float64) (uuid_string : Uuid → String) (parse_uuid : String → Option Uuid)
    {E : Type 0} (o : Orchestrator E) where
  -- A call of a handler, or a change of all but the tables.
  pub data Step (w : World E) : World E → Type 0 where
    creates :
        (intn : ℕ → ℕ) (now : Time) (req : CreatePayoutRequest)
        → Step w (create_payout fl intn now uuid_string (some o) req w).1
    gets : (payout_id : String) → Step w (get_payout uuid_string parse_uuid payout_id w).1
    cancels :
        (iteration : Registry E → List (RailEntry E)) (payout_id : String)
        → Step w (cancel_payout iteration parse_uuid (some o) payout_id w).1
    updates : (req : ApplyProviderUpdateRequest) → Step w (apply_provider_update parse_uuid req w).1
    drifts : (w' : World E) → w'.db.tables ≡ w.db.tables → Step w w'

  pub data Reach (w : World E) : World E → Type 0 where
    here : Reach w w
    next : {u v : World E} → Reach w u → Step u v → Reach w v

  Step-IsValid : {w w' : World E} → Step w w' → IsValidWorld w → IsValidWorld w'
  Step-IsValid {w} (creates intn now req) v =
      create_payout-IsValidWorld fl intn now uuid_string (some o) req w v
  Step-IsValid {w} (gets payout_id) v =
      subst IsValid (sym (get_payout-Reads uuid_string parse_uuid payout_id w).tables_kept) v
  Step-IsValid {w} (cancels iteration payout_id) v =
      cancel_payout-IsValidWorld iteration parse_uuid (some o) payout_id w v
  Step-IsValid {w} (updates req) v = apply_provider_update-IsValidWorld parse_uuid req w v
  Step-IsValid (drifts w' same) v = subst IsValid (sym same) v

  -- Every sequence of calls keeps valid tables valid, whatever fails and whatever the providers do.
  pub Reach-IsValid : {w w' : World E} → Reach w w' → IsValidWorld w → IsValidWorld w'
  Reach-IsValid here v = v
  Reach-IsValid (next r s) v = Step-IsValid s (Reach-IsValid r v)

  pub Step-Follows :
      {w w' : World E} → Step w w' → IsValidWorld w → Follows w.db.tables w'.db.tables
  Step-Follows {w} (creates intn now req) v =
      elim (create_payout-Asked fl intn now uuid_string o req w v) [
        | inl (_, (same, _, _)) ↦ Follows-eq _ _ same
        | inr (_, _, follows, _) ↦ follows
      ]
  Step-Follows {w} (gets payout_id) v =
      Follows-eq _ _ (get_payout-Reads uuid_string parse_uuid payout_id w).tables_kept
  Step-Follows {w} (cancels iteration payout_id) v =
      cancel_payout-Follows iteration parse_uuid (some o) payout_id w
  Step-Follows {w} (updates req) v = apply_provider_update-Follows parse_uuid req w v
  Step-Follows (drifts w' same) v = Follows-eq _ _ same

  -- Over valid tables, no sequence of calls loses a payout or an idempotency key, or changes a key;
  -- a payout keeps its id, amount, currency, rail and time of creation, and its state stays as it
  -- was or is completed, failed or canceled at the end.
  pub Reach-Follows :
      {w w' : World E} → Reach w w' → IsValidWorld w → Follows w.db.tables w'.db.tables
  Reach-Follows {w} here v = Follows-refl w.db.tables
  Reach-Follows (next r s) v =
      Follows-trans _ _ _ (Reach-Follows r v) (Step-Follows s (Reach-IsValid r v))

  -- After `CreatePayout` answered, over valid tables, and after any sequence of calls that follows
  -- it, a `CreatePayout` with the same key changes no table and asks no provider; if it answers, it
  -- names the payout of the first answer and came with the hash of the first request.
  pub create_payout-once :
      (intn intn' : ℕ → ℕ) (now now' : Time) (req again : CreatePayoutRequest) (w : World E)
      {later : World E} (a : CreatePayoutResponse)
      → IsValidWorld w
      → again.idempotency_key ≡ req.idempotency_key
      → (create_payout fl intn now uuid_string (some o) req w).0 ≡ reply a
      → Reach (create_payout fl intn now uuid_string (some o) req w).1 later
      → Untouched later (create_payout fl intn' now' uuid_string (some o) again later)
        × ((b : CreatePayoutResponse)
            → (create_payout fl intn' now' uuid_string (some o) again later).0 ≡ reply b
            → (b.payout_id ≡ a.payout_id) × (again.request_hash ≡ req.request_hash))
  create_payout-once intn intn' now now' req again w {later} a v same_key first r =
      let (k, stored, hash, named) =
        create_payout-IsAnswerOf fl intn now uuid_string o req w a first in
      let v' = create_payout-IsValidWorld fl intn now uuid_string (some o) req w v in
      let taken = (Reach-Follows r v').keys_kept req.idempotency_key k stored in
      let (untouched, answers) =
        create_payout-stored fl intn' now' uuid_string o again later k (rw same_key taken) in
      (
        untouched,
        λ b second. let (named', hash') = answers b second in (named' ∙ sym named, hash' ∙ hash),
      )
