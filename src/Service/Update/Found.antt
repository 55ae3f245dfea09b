-- ===== src/Service/Update/Found.antt =====
-- Which row the reference of `ApplyProviderUpdate` finds.
use payment_orchestrator.Base.{
  ◌≡◌, refl, String, Option, some, Bool-cases, Option-cases, inl, inr, ◌⊎◌, sym, ap, ◌∙◌,
}
use mathlib.Core.Path.{subst}
use payment_orchestrator.Domain.{Uuid, Payout}
use payment_orchestrator.Persistence.Result.{Result, ok, err, is_not_found}
use payment_orchestrator.Persistence.Queries.{PayoutRow, Tables, Db}
use payment_orchestrator.Persistence.Repo
use payment_orchestrator.Persistence.Repo.{to_domain_payout, nullable}
use payment_orchestrator.Persistence.Repo.Find.{IsStored, get_payout_row, find_by_external_id_row}
use payment_orchestrator.Persistence.Repo.Valid.{find_by_external_id_tables}
use payment_orchestrator.Persistence.Queries.Valid.{IsValidDb}
use payment_orchestrator.Service.Types.{Code, Message, Reply, reply, status}
use payment_orchestrator.Service.Update.{
  found_by_id, found_by_external_id, find_payout_by_external_id_or_id,
}

-- The reference names the row: it is its external id, or it parses to its id.
abbrev pub Names : (String → Option Uuid) → String → PayoutRow → Type 0
Names parse_uuid ref row = (row.external_id ≡ some ref) ⊎ (parse_uuid ref ≡ some row.id)

module _ (parse_uuid : String → Option Uuid) where
  -- The answer is an error status, or the payout of a row that the reference names.
  abbrev pub Found : String → Tables → Reply Payout × Db → Type 0
  Found ref t (r, db) =
      ((c : Code) × (m : Message) × (r ≡ status c m))
      ⊎ ((p : Payout) × (row : PayoutRow) × (r ≡ reply p)
          × Names parse_uuid ref row
          × IsStored t p row)

  found_by_id_row :
      (ref : String) (id : Uuid) (t : Tables) (o : Result Payout × Db)
      → parse_uuid ref ≡ some id
      → ((p : Payout) → o.0 ≡ ok p → (row : PayoutRow) × (row.id ≡ id) × IsStored t p row)
      → Found ref t (found_by_id parse_uuid ref o)
  found_by_id_row ref id t (ok p, db) parsed stored =
      let (row, same, is_stored) = stored p refl in
      inr (p, row, refl, inr (parsed ∙ ap (λ i. some i) (sym same)), is_stored)
  found_by_id_row ref id t (err e, db) parsed stored = elim (Bool-cases (is_not_found e)) [
    | inl missing ↦ rw missing (inl (_, _, refl))
    | inr other ↦ rw other (inl (_, _, refl))
  ]

  found_by_external_id_row :
      (ref : String) (t : Tables) (o : Result Payout × Db)
      → o.1.tables ≡ t
      → ((p : Payout)
          → o.0 ≡ ok p
          → (row : PayoutRow) × (row.external_id ≡ some ref) × IsStored t p row)
      → Found ref t (found_by_external_id parse_uuid ref o)
  found_by_external_id_row ref t (ok p, db) same stored =
      let (row, named, is_stored) = stored p refl in inr (p, row, refl, inl named, is_stored)
  found_by_external_id_row ref t (err e, db) same stored = elim (Option-cases (parse_uuid ref)) [
    | inl unparsed ↦ rw (unparsed, found_by_external_id) (inl (_, _, refl))
    | inr (id, parsed) ↦
        let opened : found_by_external_id parse_uuid ref (err e, db)
            ≡ found_by_id parse_uuid ref (Repo.get_payout id db) =
          rw (parsed, found_by_external_id) refl in
        subst (Found ref t) (sym opened) (
          found_by_id_row ref id t (Repo.get_payout id db) parsed (λ p h.
            subst (λ t'. (row : PayoutRow) × (row.id ≡ id) × IsStored t' p row) same
              (get_payout_row id db p h)))
  ]

  pub find_payout_row :
      (ref : String) (db : Db)
      → IsValidDb db
      → Found ref db.tables (find_payout_by_external_id_or_id parse_uuid ref db)
  unfolding find_payout_by_external_id_or_id
  find_payout_row ref db v =
      found_by_external_id_row ref db.tables (Repo.find_by_external_id ref db)
        (find_by_external_id_tables ref db) (λ p h. find_by_external_id_row ref db p v.rows_valid h)
