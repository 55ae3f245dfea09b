-- ===== src/Service/Update/Why.antt =====
-- Why `ApplyProviderUpdate` refuses an update.
use payment_orchestrator.Base.{
  ◌≡◌, ◌≢◌, String, true, false, Option, none, some, arith, Bool-cases, Option-cases, inl, inr, sym,
  str_eq,
}
use payment_orchestrator.Domain.{Time, Uuid, PayoutState}
use payment_orchestrator.Persistence.Queries
use payment_orchestrator.Persistence.Queries.{
  PayoutRow, Tables, Db, find_payout, find_external, row_allowed, any_row, clashes_other,
  next_fails, rest_of, advance,
}
use payment_orchestrator.Persistence.Queries.Runs.{any_fault, runs, is_storable}
use payment_orchestrator.Persistence.Queries.Rows.{find_payout-id}
use payment_orchestrator.Persistence.Repo
use payment_orchestrator.Persistence.Repo.Find.{row_eq, find_external_row}
use payment_orchestrator.Persistence.Queries.Valid.{RowsValid}
use payment_orchestrator.Service.Valid.{IsValidWorld}
use mathlib.Core.Path.{subst}
use payment_orchestrator.Persistence.Repo.{to_domain_payout, nullable}
use payment_orchestrator.Service.Types.{reply, World}
use payment_orchestrator.Service.Update.{
  ApplyProviderUpdateRequest, find_payout_by_external_id_or_id, apply_provider_update,
  map_provider_status_to_state,
}

-- A new version of `old`: the state, the time of update, and a provider that is stored empty as
-- none.
abbrev pub moved_row : PayoutState → Time → PayoutRow → PayoutRow
moved_row new_state now old = record old {
  state = new_state;
  provider = nullable (Repo.or_empty old.provider);
  updated_at = now;
}

-- The row that a reference names: the one with that external id, or else the one whose id it
-- parses to.
abbrev pub named_row : (String → Option Uuid) → String → Tables → Option PayoutRow
named_row parse_uuid ref t = elim (find_external ref t.payouts) [
  | some row ↦ some row
  | none ↦ elim (parse_uuid ref) [ none ↦ none | some id ↦ find_payout id t.payouts ]
]

-- A row that a reference names is stored under its id.
named-found :
    (parse_uuid : String → Option Uuid) (ref : String) (t : Tables) (row : PayoutRow)
    → RowsValid t.payouts
    → named_row parse_uuid ref t ≡ some row
    → find_payout row.id t.payouts ≡ some row
named-found parse_uuid ref t row v named = elim (Option-cases (find_external ref t.payouts)) [
  | inr (r, external) ↦
      let same : r ≡ row = row_eq (rw (external, named_row) at named) in
      subst (λ x. find_payout x.id t.payouts ≡ some x) same
        (find_external_row ref t.payouts r v external).0
  | inl missing ↦ elim (Option-cases (parse_uuid ref)) [
    | inl unparsed ↦ ground arith
    | inr (id, parsed) ↦
        let found : find_payout id t.payouts ≡ some row = ground arith in
        subst (λ i. find_payout i t.payouts ≡ some row)
          (sym (find_payout-id id t.payouts row found)) found
  ]
]

module _ (parse_uuid : String → Option Uuid) {E : Type 0} where
  -- The reference is empty, or names no payout; the status is unknown; a statement fails; or the
  -- new version of the row breaks a constraint.
  pub data WhyRefused (req : ApplyProviderUpdateRequest) (w : World E) : Type 0 where
    empty_reference : str_eq req.payout_id "" ≡ true → WhyRefused req w
    unknown_status : map_provider_status_to_state req.provider_status ≡ none → WhyRefused req w
    unnamed : named_row parse_uuid req.payout_id w.db.tables ≡ none → WhyRefused req w
    fault : any_fault w.db.faults ≡ true → WhyRefused req w
    not_storable :
        (row : PayoutRow) (new_state : PayoutState)
        → map_provider_status_to_state req.provider_status ≡ some new_state
        → named_row parse_uuid req.payout_id w.db.tables ≡ some row
        → is_storable (moved_row new_state w.db.now row) w.db.tables ≡ false
        → WhyRefused req w

  moves :
      (req : ApplyProviderUpdateRequest) (w : World E) (row : PayoutRow) (new_state : PayoutState)
      → str_eq req.payout_id "" ≡ false
      → map_provider_status_to_state req.provider_status ≡ some new_state
      → named_row parse_uuid req.payout_id w.db.tables ≡ some row
      → find_payout row.id w.db.tables.payouts ≡ some row
      → is_storable (moved_row new_state w.db.now row) w.db.tables ≡ true
      → any_fault w.db.faults ≡ false
      → (apply_provider_update parse_uuid req w).0 ≡ reply true
  unfolding apply_provider_update find_payout_by_external_id_or_id Repo.find_by_external_id
      Repo.get_payout Repo.update_payout_state Queries.find_payout_by_external_id Queries.get_payout
      Queries.update_payout_state to_domain_payout
  moves req w row new_state given known named found storable works =
      let (first, later) = runs w.db.faults works in
      let (second, last) = runs (rest_of w.db.faults) later in
      let (third, _) = runs (rest_of (rest_of w.db.faults)) last in
      elim (Option-cases (find_external req.payout_id w.db.tables.payouts)) [
        | inr (r, external) ↦ ground (arith, first, second, external, known, found, storable)
        | inl missing ↦ elim (Option-cases (parse_uuid req.payout_id)) [
          | inl unparsed ↦ ground arith
          | inr (id, parsed) ↦
              ground (arith, first, second, third, missing, parsed, known, found, storable)
        ]
      ]

  -- An answer other than true has a reason, over valid tables.
  pub refused-WhyRefused :
      (req : ApplyProviderUpdateRequest) (w : World E)
      → IsValidWorld w
      → (apply_provider_update parse_uuid req w).0 ≢ reply true
      → WhyRefused req w
  refused-WhyRefused req w v refused = elim (Bool-cases (str_eq req.payout_id "")) [
    | inl empty ↦ empty_reference empty
    | inr given ↦ elim (Option-cases (map_provider_status_to_state req.provider_status)) [
      | inl unknown ↦ unknown_status unknown
      | inr (new_state, known) ↦
          elim (Option-cases (named_row parse_uuid req.payout_id w.db.tables)) [
            | inl missing ↦ unnamed missing
            | inr (row, named) ↦ elim (Bool-cases (any_fault w.db.faults)) [
              | inl fails ↦ fault fails
              | inr works ↦
                  elim (Bool-cases (is_storable (moved_row new_state w.db.now row) w.db.tables)) [
                    | inr broken ↦ not_storable row new_state known named broken
                    | inl storable ↦ absurd (
                        refused (
                          moves req w row new_state given known named
                            (named-found parse_uuid req.payout_id w.db.tables row v.rows_valid
                              named)
                            storable works))
                  ]
            ]
          ]
    ]
  ]
