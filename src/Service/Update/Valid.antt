-- ===== src/Service/Update/Valid.antt =====
-- The tables under `ApplyProviderUpdate`.
use payment_orchestrator.Base.{
  ◌≡◌, refl, String, Option, arith, str_eq, Bool-cases, Option-cases, inl, inr, sym, ◌∙◌,
}
use mathlib.Core.Path.{subst}
use payment_orchestrator.Domain.{Uuid, Payout}
use payment_orchestrator.Persistence.Result.{Result, ok, err}
use payment_orchestrator.Persistence.Queries.{Db}
use payment_orchestrator.Persistence.Queries.Valid.{IsValid, IsValidDb}
use payment_orchestrator.Persistence.Repo
use payment_orchestrator.Persistence.Repo.{Outcome, run_in_tx}
use payment_orchestrator.Persistence.Repo.Valid
use payment_orchestrator.Service.Types.{Reply, reply, status, crashed, World}
use payment_orchestrator.Service.Update
use payment_orchestrator.Service.Update.{
  ApplyProviderUpdateRequest, found_by_id, found_by_external_id, find_payout_by_external_id_or_id,
  apply_found, update_reply, map_provider_status_to_state,
}
use payment_orchestrator.Service.Valid.{IsValidWorld}

module _ (parse_uuid : String → Option Uuid) where
  found_by_id_db : (ref : String) (o : Result Payout × Db) → (found_by_id parse_uuid ref o).1 ≡ o.1
  found_by_id_db ref (ok p, db) = refl
  found_by_id_db ref (err e, db) = ground arith

  found_by_external_id_tables :
      (ref : String) (o : Result Payout × Db)
      → (found_by_external_id parse_uuid ref o).1.tables ≡ o.1.tables
  found_by_external_id_tables ref (ok p, db) = refl
  found_by_external_id_tables ref (err e, db) = elim (Option-cases (parse_uuid ref)) [
    | inl unparsed ↦ rw (unparsed, found_by_external_id) refl
    | inr (id, parsed) ↦
        rw (parsed, found_by_external_id, found_by_id_db ref (Repo.get_payout id db))
          (Valid.get_payout_tables id db)
  ]

  -- Looking a payout up changes no table.
  pub find_payout_tables :
      (ref : String) (db : Db)
      → (find_payout_by_external_id_or_id parse_uuid ref db).1.tables ≡ db.tables
  unfolding find_payout_by_external_id_or_id
  find_payout_tables ref db =
      found_by_external_id_tables ref (Repo.find_by_external_id ref db)
      ∙ Valid.find_by_external_id_tables ref db

module _ (parse_uuid : String → Option Uuid) {E : Type 0} where
  update_reply_db :
      (w : World E) (o : Result Payout × Db) → (update_reply parse_uuid w o).1.db ≡ o.1
  update_reply_db w (err e, db) = refl
  update_reply_db w (ok p, db) = refl

  apply_found-IsValid :
      (req : ApplyProviderUpdateRequest) (w : World E) (o : Reply Payout × Db)
      → IsValidDb o.1
      → IsValidWorld (apply_found parse_uuid req w o).1
  apply_found-IsValid req w (crashed, db) v = v
  apply_found-IsValid req w (status c m, db) v = v
  apply_found-IsValid req w (reply p, db) v =
      elim (Option-cases (map_provider_status_to_state req.provider_status)) [
        | inl unknown ↦ rw (unknown, apply_found) v
        | inr (new_state, known) ↦
            rw (known, apply_found, update_reply_db w (Repo.update_payout_state p.id _ db))
              (Valid.update_payout_state-IsValid p.id _ db v)
      ]

  -- If the tables are valid before `ApplyProviderUpdate`, they are valid after it, whatever the
  -- request and the faults of the database.
  pub apply_provider_update-IsValidWorld :
      (req : ApplyProviderUpdateRequest) (w : World E)
      → IsValidWorld w
      → IsValidWorld (Update.apply_provider_update parse_uuid req w).1
  unfolding Update.apply_provider_update
  apply_provider_update-IsValidWorld req w v = elim (Bool-cases (str_eq req.payout_id "")) [
    | inl empty ↦ rw empty v
    | inr given ↦ rw given (
        apply_found-IsValid req w (find_payout_by_external_id_or_id parse_uuid req.payout_id w.db)
          (subst IsValid (sym (find_payout_tables parse_uuid req.payout_id w.db)) v))
  ]
