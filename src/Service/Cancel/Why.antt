-- ===== src/Service/Cancel/Why.antt =====
-- Why `CancelPayout` does not cancel a payout.
use payment_orchestrator.Base.{
  ◌≡◌, ◌≢◌, refl, String, true, false, Option, none, some, List, arith, Bool-cases, Option-cases,
  inl, inr, ◌⊎◌, str_eq,
}
use payment_orchestrator.Domain.{
  Uuid, Time, PayoutState, created, queued, pending, processing, completed, sent, failed, canceled,
  unset,
}
use payment_orchestrator.Persistence.Queries
use payment_orchestrator.Persistence.Queries.{
  PayoutRow, Tables, Db, find_payout, is_in, canceled_row, replace_row, rest_of,
}
use payment_orchestrator.Persistence.Queries.Runs.{any_fault, runs, is_storable}
use payment_orchestrator.Persistence.Repo
use payment_orchestrator.Persistence.Repo.{to_domain_payout}
use payment_orchestrator.Persistence.Repo.Update.{with_payouts}
use payment_orchestrator.Provider.Registry.{Registry, RailEntry}
use payment_orchestrator.Provider.Orchestrator.{Orchestrator}
use payment_orchestrator.Service.Types.{reply, World}
use payment_orchestrator.Service.Cancel.{cancelable_states, cancel_payout}

-- The states in which a payout can be canceled, a payout that was sent among them.
abbrev pub Cancelable : PayoutState → Type 0
Cancelable s = (s ≡ created) ⊎ ((s ≡ queued) ⊎ ((s ≡ pending) ⊎ (s ≡ sent)))

pub is_in-Cancelable : (s : PayoutState) → is_in s cancelable_states ≡ true → Cancelable s
is_in-Cancelable created h = inl refl
is_in-Cancelable queued h = inr (inl refl)
is_in-Cancelable pending h = inr (inr (inl refl))
is_in-Cancelable sent h = inr (inr (inr refl))
is_in-Cancelable processing h = ground arith
is_in-Cancelable completed h = ground arith
is_in-Cancelable failed h = ground arith
is_in-Cancelable canceled h = ground arith
is_in-Cancelable unset h = ground arith

pub Cancelable-is_in : (s : PayoutState) → Cancelable s → is_in s cancelable_states ≡ true
Cancelable-is_in s (inl same) = rw same refl
Cancelable-is_in s (inr (inl same)) = rw same refl
Cancelable-is_in s (inr (inr (inl same))) = rw same refl
Cancelable-is_in s (inr (inr (inr same))) = rw same refl

-- The tables once the row is canceled.
abbrev pub canceled_tables : Time → PayoutRow → Tables → Tables
canceled_tables now row t = with_payouts t (replace_row (canceled_row now row) t.payouts)

module _ {E : Type 0} (iteration : Registry E → List (RailEntry E))
    (parse_uuid : String → Option Uuid) (server : Option (Orchestrator E)) where
  -- The id is empty, does not parse or names no payout; the payout is in another state; a statement
  -- fails; or the canceled row breaks a constraint.
  pub data WhyKept (payout_id : String) (w : World E) : Type 0 where
    empty_id : str_eq payout_id "" ≡ true → WhyKept payout_id w
    unparsed : parse_uuid payout_id ≡ none → WhyKept payout_id w
    unknown :
        (id : Uuid)
        → parse_uuid payout_id ≡ some id
        → find_payout id w.db.tables.payouts ≡ none
        → WhyKept payout_id w
    settled :
        (id : Uuid) (row : PayoutRow)
        → parse_uuid payout_id ≡ some id
        → find_payout id w.db.tables.payouts ≡ some row
        → ¬ Cancelable row.state
        → WhyKept payout_id w
    fault : any_fault w.db.faults ≡ true → WhyKept payout_id w
    not_storable :
        (id : Uuid) (row : PayoutRow)
        → parse_uuid payout_id ≡ some id
        → find_payout id w.db.tables.payouts ≡ some row
        → is_storable (canceled_row w.db.now row) w.db.tables ≡ false
        → WhyKept payout_id w

  pub cancels :
      (payout_id : String) (id : Uuid) (row : PayoutRow) (w : World E)
      → str_eq payout_id "" ≡ false
      → parse_uuid payout_id ≡ some id
      → find_payout id w.db.tables.payouts ≡ some row
      → is_in row.state cancelable_states ≡ true
      → is_storable (canceled_row w.db.now row) w.db.tables ≡ true
      → any_fault w.db.faults ≡ false
      → let a = cancel_payout iteration parse_uuid server payout_id w in
        (a.0 ≡ reply true)
        × (a.1.db ≡ record w.db {
          tables = canceled_tables w.db.now row w.db.tables;
          faults = rest_of (rest_of w.db.faults);
        })
  unfolding cancel_payout Repo.get_payout Queries.get_payout Repo.cancel_payout
      Queries.cancel_payout_if_cancelable to_domain_payout
  cancels payout_id id row w given parsed found cancelable storable works =
      let (first, later) = runs w.db.faults works in
      let (second, _) = runs (rest_of w.db.faults) later in
      (
        ground (arith, given, parsed, found, cancelable, storable, first, second),
        ground (arith, given, parsed, found, cancelable, storable, first, second),
      )

  -- An answer other than true has a reason.
  pub not_true-WhyKept :
      (payout_id : String) (w : World E)
      → (cancel_payout iteration parse_uuid server payout_id w).0 ≢ reply true
      → WhyKept payout_id w
  not_true-WhyKept payout_id w refused = elim (Bool-cases (str_eq payout_id "")) [
    | inl empty ↦ empty_id empty
    | inr given ↦ elim (Option-cases (parse_uuid payout_id)) [
      | inl no_id ↦ unparsed no_id
      | inr (id, parsed) ↦ elim (Option-cases (find_payout id w.db.tables.payouts)) [
        | inl missing ↦ unknown id parsed missing
        | inr (row, found) ↦ elim (Bool-cases (is_in row.state cancelable_states)) [
          | inr other ↦
              settled id row parsed found
                (λ c. let listed = Cancelable-is_in row.state c in ground (arith, other, listed))
          | inl cancelable ↦ elim (Bool-cases (any_fault w.db.faults)) [
            | inl fails ↦ fault fails
            | inr works ↦ elim (Bool-cases (is_storable (canceled_row w.db.now row) w.db.tables)) [
              | inr broken ↦ not_storable id row parsed found broken
              | inl storable ↦ absurd (
                  refused
                    (cancels payout_id id row w given parsed found cancelable storable works).0)
            ]
          ]
        ]
      ]
    ]
  ]
