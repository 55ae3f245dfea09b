-- ===== src/Service/Cancel/Valid.antt =====
-- The tables under `CancelPayout`.
use payment_orchestrator.Base.{
  ◌≡◌, refl, String, Option, List, arith, str_eq, Bool-cases, Option-cases, inl, inr, sym,
}
use mathlib.Core.Path.{subst}
use payment_orchestrator.Domain.{Uuid, Payout}
use payment_orchestrator.Persistence.Result.{Result, ok, err, is_not_found}
use payment_orchestrator.Persistence.Queries.{Db, is_in}
use payment_orchestrator.Persistence.Queries.Valid.{IsValid, IsValidDb}
use payment_orchestrator.Persistence.Repo
use payment_orchestrator.Persistence.Repo.{Outcome, run_in_tx}
use payment_orchestrator.Persistence.Repo.Valid
use payment_orchestrator.Provider.Registry.{Registry, RailEntry}
use payment_orchestrator.Provider.Orchestrator.{Orchestrator}
use payment_orchestrator.Service.Types.{World, with_db}
use payment_orchestrator.Service.Cancel
use payment_orchestrator.Service.Cancel.{
  ask_provider, cancel_found, cancel_reply, cancelable_states,
}
use payment_orchestrator.Service.Valid.{IsValidWorld}

module _ {E : Type 0} (iteration : Registry E → List (RailEntry E))
    (parse_uuid : String → Option Uuid) (server : Option (Orchestrator E)) where
  ask_provider_db :
      (p : Payout) (w : World E) → (ask_provider iteration parse_uuid server p w).db ≡ w.db
  ask_provider_db p w = ground arith

  cancel_reply_db :
      (w : World E) (o : Result Payout × Db)
      → (cancel_reply iteration parse_uuid server w o).1.db ≡ o.1
  cancel_reply_db w (err e, db) = refl
  cancel_reply_db w (ok p, db) = refl

  cancel_found-IsValid :
      (id : Uuid) (found : Result Payout) (w : World E)
      → IsValidWorld w
      → IsValidWorld (cancel_found iteration parse_uuid server id found w).1
  cancel_found-IsValid id (err e) w v = elim (Bool-cases (is_not_found e)) [
    | inl missing ↦ rw missing v
    | inr other ↦ rw other v
  ]
  cancel_found-IsValid id (ok p) w v = elim (Bool-cases (is_in p.state cancelable_states)) [
    | inr final ↦ rw final v
    | inl cancelable ↦
        let w' = ask_provider iteration parse_uuid server p w in
        let v' = subst IsValidDb (sym (ask_provider_db p w)) v in
        rw (cancelable, cancel_reply_db w' (Repo.cancel_payout id cancelable_states w'.db))
          (Valid.cancel_payout-IsValid id cancelable_states w'.db v')
  ]

  -- If the tables are valid before `CancelPayout`, they are valid after it, whatever the request,
  -- the faults of the database and the answers of the provider.
  pub cancel_payout-IsValidWorld :
      (payout_id : String) (w : World E)
      → IsValidWorld w
      → IsValidWorld (Cancel.cancel_payout iteration parse_uuid server payout_id w).1
  unfolding Cancel.cancel_payout
  cancel_payout-IsValidWorld payout_id w v = elim (Bool-cases (str_eq payout_id "")) [
    | inl empty ↦ rw empty v
    | inr given ↦ elim (Option-cases (parse_uuid payout_id)) [
      | inl unparsed ↦ rw (given, unparsed) v
      | inr (id, parsed) ↦
          let (found, db) = Repo.get_payout id w.db in
          rw (given, parsed)
            (cancel_found-IsValid id found (with_db w db)
              (subst IsValid (sym (Valid.get_payout_tables id w.db)) v))
    ]
  ]
