-- ===== src/System/Sends.antt =====
-- How often a sequence of calls sends a payout to the providers under one idempotency key.
use payment_orchestrator.Base.{
  ℕ, ◌+◌, ◌≤◌, ◌≡◌, ◌≢◌, refl, String, false, ◌&&◌, Option, none, some, arith, Bool-cases, inl, inr,
  ◌⊎◌, str_eq, str_eq_iff, if◌then◌else◌,
}
use mathlib.Core.Path.{subst}
use payment_orchestrator.Domain.{Uuid, Time}
use payment_orchestrator.Persistence.Queries.{KeyRow, Tables, find_key}
use payment_orchestrator.Provider.SuccessTracker.{Float64}
use payment_orchestrator.Provider.Orchestrator.{Orchestrator}
use payment_orchestrator.Service.Types.{World}
use payment_orchestrator.Service.Valid.{IsValidWorld}
use payment_orchestrator.Service.Create.{CreatePayoutRequest, create_payout}
use payment_orchestrator.Service.Create.Cases.{Untouched}
use payment_orchestrator.System.Follows.{Follows, Follows-eq}
use payment_orchestrator.System.Asked.{asks, create_payout-Asked}
use payment_orchestrator.System.Trace.{
  Step, Reach, creates, gets, cancels, updates, drifts, here, next, Reach-IsValid, Step-Follows,
}

-- How often the key is sent, with the key stored once it is.
abbrev SentOnce : String → Tables → ℕ → Type 0
SentOnce key t n = (n ≡ 0) ⊎ ((n ≡ 1) × (k : KeyRow) × (find_key key t.idempotency_keys ≡ some k))

SentOnce-kept :
    (key : String) (t t' : Tables) (n m : ℕ)
    → Follows t t'
    → m ≡ 0
    → SentOnce key t n
    → SentOnce key t' (n + m)
SentOnce-kept key t t' n m f none_sent (inl zero_sent) = inl (omega arith)
SentOnce-kept key t t' n m f none_sent (inr (one_sent, k, stored)) =
    inr (omega arith, k, f.keys_kept key k stored)

SentOnce-first :
    (key : String) (t t' : Tables) (n : ℕ)
    → SentOnce key t n
    → find_key key t.idempotency_keys ≡ none
    → ((k : KeyRow) × (find_key key t'.idempotency_keys ≡ some k))
    → SentOnce key t' (n + 1)
SentOnce-first key t t' n (inl zero_sent) free (k, stored) = inr (omega arith, k, stored)
SentOnce-first key t t' n (inr (_, k, taken)) free stored = ground arith

module _ (fl : Float64) (uuid_string : Uuid → String) (parse_uuid : String → Option Uuid)
    {E : Type 0} (o : Orchestrator E) where
  -- How often the steps commit a new payout under an idempotency key.
  abbrev sends_of : {w w' : World E} → String → Step fl uuid_string parse_uuid o w w' → ℕ
  sends_of {w} key (creates intn now req) =
      if str_eq req.idempotency_key key && asks req w then 1 else 0
  sends_of key (gets payout_id) = 0
  sends_of key (cancels iteration payout_id) = 0
  sends_of key (updates req) = 0
  sends_of key (drifts w' same) = 0

  abbrev sends : {w w' : World E} → String → Reach fl uuid_string parse_uuid o w w' → ℕ
  sends key here = 0
  sends key (next r s) = sends key r + sends_of key s

  SentOnce-creates :
      (w : World E) (key : String) (n : ℕ) (intn : ℕ → ℕ) (now : Time) (req : CreatePayoutRequest)
      → IsValidWorld w
      → SentOnce key w.db.tables n
      → SentOnce key
          (create_payout fl intn now uuid_string (some o) req w).1.db.tables
          (n + (if str_eq req.idempotency_key key && asks req w then 1 else 0))
  SentOnce-creates w key n intn now req v once =
      elim (Bool-cases (str_eq req.idempotency_key key && asks req w)) [
        | inr other ↦
            SentOnce-kept key _ _ n _
              (Step-Follows fl uuid_string parse_uuid o (creates intn now req) v) (rw other refl)
              once
        | inl asked ↦ elim (create_payout-Asked fl intn now uuid_string o req w v) [
          | inl (not_asked, _) ↦ ground arith
          | inr (_, free, _, (k, stored)) ↦
              let same : req.idempotency_key ≡ key =
                (str_eq_iff req.idempotency_key key).0 (ground arith) in
              let t' = (create_payout fl intn now uuid_string (some o) req w).1.db.tables in
              rw asked (
                SentOnce-first key w.db.tables t' n once
                  (subst (λ x. find_key x w.db.tables.idempotency_keys ≡ none) same free)
                  (k, subst (λ x. find_key x t'.idempotency_keys ≡ some k) same stored))
        ]
      ]

  Step-SentOnce :
      {w w' : World E} (key : String) (n : ℕ) (s : Step fl uuid_string parse_uuid o w w')
      → IsValidWorld w
      → SentOnce key w.db.tables n
      → SentOnce key w'.db.tables (n + sends_of key s)
  Step-SentOnce {w} key n (creates intn now req) v once =
      SentOnce-creates w key n intn now req v once
  Step-SentOnce {w} key n (gets payout_id) v once =
      SentOnce-kept key _ _ n 0 (Step-Follows fl uuid_string parse_uuid o (gets payout_id) v) refl
        once
  Step-SentOnce {w} key n (cancels iteration payout_id) v once =
      SentOnce-kept key _ _ n 0
        (Step-Follows fl uuid_string parse_uuid o (cancels iteration payout_id) v) refl once
  Step-SentOnce {w} key n (updates req) v once =
      SentOnce-kept key _ _ n 0 (Step-Follows fl uuid_string parse_uuid o (updates req) v) refl once
  Step-SentOnce {w} key n (drifts w' same) v once =
      SentOnce-kept key _ _ n 0 (Follows-eq w.db.tables w'.db.tables same) refl once

  Reach-SentOnce :
      {w w' : World E} (key : String) (r : Reach fl uuid_string parse_uuid o w w')
      → IsValidWorld w
      → SentOnce key w'.db.tables (sends key r)
  Reach-SentOnce key here v = inl refl
  Reach-SentOnce key (next r s) v =
      Step-SentOnce key (sends key r) s (Reach-IsValid fl uuid_string parse_uuid o r v)
        (Reach-SentOnce key r v)

  not_asked-Untouched :
      (intn : ℕ → ℕ) (now : Time) (req : CreatePayoutRequest) (w : World E)
      → IsValidWorld w
      → asks req w ≡ false
      → Untouched w (create_payout fl intn now uuid_string (some o) req w)
  not_asked-Untouched intn now req w v quiet =
      elim (create_payout-Asked fl intn now uuid_string o req w v) [
        | inl (_, untouched) ↦ untouched
        | inr (asked, _, _, _) ↦ ground arith
      ]

  -- How often a step may send a payout under the key: a `CreatePayout` with another key, and one
  -- that changes no table, no provider and no count of the success tracker, does not; any other
  -- `CreatePayout` may, once. The other handlers send nothing.
  abbrev pub SendsIn :
      {w w' : World E} → String → Step fl uuid_string parse_uuid o w w' → ℕ → Type 0
  SendsIn {w} key (creates intn now req) n =
      (n ≡ 1)
      ⊎ ((n ≡ 0)
          × ((req.idempotency_key ≢ key)
              ⊎ Untouched w (create_payout fl intn now uuid_string (some o) req w)))
  SendsIn key (gets payout_id) n = n ≡ 0
  SendsIn key (cancels iteration payout_id) n = n ≡ 0
  SendsIn key (updates req) n = n ≡ 0
  SendsIn key (drifts w' same) n = n ≡ 0

  -- How often the steps may.
  abbrev pub SendsWithin :
      {w w' : World E} → String → Reach fl uuid_string parse_uuid o w w' → ℕ → Type 0
  SendsWithin key here n = n ≡ 0
  SendsWithin key (next r s) n =
      (before : ℕ) × (added : ℕ) × (n ≡ before + added)
      × SendsWithin key r before
      × SendsIn key s added

  sends_of-SendsIn :
      {w w' : World E} (key : String) (s : Step fl uuid_string parse_uuid o w w')
      → IsValidWorld w
      → SendsIn key s (sends_of key s)
  sends_of-SendsIn {w} key (creates intn now req) v =
      elim (Bool-cases (str_eq req.idempotency_key key)) [
        | inr other ↦
            inr (
              rw other refl,
              inl (λ same. ground (arith, other, str_eq_iff req.idempotency_key key)),
            )
        | inl same ↦ elim (Bool-cases (asks req w)) [
          | inl asked ↦ inl (rw (same, asked) refl)
          | inr quiet ↦
              inr (rw (same, quiet) refl, inr (not_asked-Untouched intn now req w v quiet))
        ]
      ]
  sends_of-SendsIn key (gets payout_id) v = refl
  sends_of-SendsIn key (cancels iteration payout_id) v = refl
  sends_of-SendsIn key (updates req) v = refl
  sends_of-SendsIn key (drifts w' same) v = refl

  sends-SendsWithin :
      {w w' : World E} (key : String) (r : Reach fl uuid_string parse_uuid o w w')
      → IsValidWorld w
      → SendsWithin key r (sends key r)
  sends-SendsWithin key here v = refl
  sends-SendsWithin key (next r s) v = (
    sends key r,
    sends_of key s,
    refl,
    sends-SendsWithin key r v,
    sends_of-SendsIn key s (Reach-IsValid fl uuid_string parse_uuid o r v),
  )

  -- Over valid tables, in every sequence of calls, whatever fails and whatever the providers do, all
  -- calls of `CreatePayout` with a given idempotency key but at most one change no table, leave
  -- every provider as it was and count nothing in the success tracker; so at most one of them sends
  -- a payout to the providers.
  pub sends-le-one :
      {w w' : World E} (key : String) (r : Reach fl uuid_string parse_uuid o w w')
      → IsValidWorld w
      → (n : ℕ) × (n ≤ 1) × SendsWithin key r n
  sends-le-one key r v = (
    sends key r,
    elim (Reach-SentOnce key r v) [
      | inl zero_sent ↦ omega arith
      | inr (one_sent, _, _) ↦ omega arith
    ],
    sends-SendsWithin key r v,
  )
