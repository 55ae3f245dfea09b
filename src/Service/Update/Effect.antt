-- ===== src/Service/Update/Effect.antt =====
-- What `ApplyProviderUpdate` does to the table of payouts.
use payment_orchestrator.Base.{
  ◌≡◌, refl, String, Bool, true, Option, some, arith, Bool-cases, Option-cases, inl, inr, ◌⊎◌, sym,
  ◌∙◌, str_eq,
}
use mathlib.Core.Path.{subst}
use payment_orchestrator.Domain.{Time, Uuid, Payout, PayoutState, UpdatePayoutParams}
use payment_orchestrator.Persistence.Result.{Err, Result, ok, err}
use payment_orchestrator.Persistence.Queries.{
  PayoutRow, Tables, Db, find_payout, UpdateRowParams, updated_row,
}
use payment_orchestrator.Persistence.Repo
use payment_orchestrator.Persistence.Repo.{to_domain_payout, nullable}
use payment_orchestrator.Persistence.Repo.Update.{Became, update_payout_state_cases}
use payment_orchestrator.Persistence.Repo.Find.{row_eq}
use payment_orchestrator.Service.Valid.{IsValidWorld}
use payment_orchestrator.Service.Types.{
  invalid_argument, with_text, Code, Message, Reply, reply, status, crashed, World, with_db,
}
use payment_orchestrator.Service.Update.{
  ApplyProviderUpdateRequest, find_payout_by_external_id_or_id, apply_found, update_reply,
  map_provider_status_to_state, apply_provider_update,
}
use payment_orchestrator.Service.Update.Valid.{find_payout_tables}
use payment_orchestrator.Service.Update.Why.{moved_row, WhyRefused, refused-WhyRefused}
use payment_orchestrator.Service.Update.Found.{Names, Found, find_payout_row}

-- The answer is an error status, and no table and no provider changed.
abbrev pub IsRefused : {E : Type 0} → World E → Reply Bool × World E → Type 0
IsRefused w (r, w') =
    (w'.db.tables ≡ w.db.tables)
    × (w'.env ≡ w.env)
    × ((c : Code) × (m : Message) × (r ≡ status c m))

-- The row `old` took the state of the provider's status, and kept its external
-- id and its provider.
abbrev pub IsMoved : {E : Type 0} → PayoutRow → String → World E → Reply Bool × World E → Type 0
IsMoved old provider_status w (r, w') =
    (r ≡ reply true)
    × ((new_state : PayoutState) × (now : Time) × (map_provider_status_to_state provider_status
          ≡ some new_state)
        × Became old.id old (moved_row new_state now old) w.db.tables w'.db.tables)

moved :
    (row : PayoutRow) (new_state : PayoutState) (t : Tables) (db : Db)
    → db.tables ≡ t
    → find_payout row.id t.payouts ≡ some row
    → let p = to_domain_payout row in
      let params : UpdatePayoutParams = record {
        state = new_state;
        external_id = p.external_id;
        provider = p.provider;
      } in
      let o = Repo.update_payout_state p.id params db in
      ((e : Err) × (o.0 ≡ err e) × (o.1.tables ≡ t))
      ⊎ ((p : Payout) × (o.0 ≡ ok p)
          × Became row.id row (moved_row new_state db.now row) t o.1.tables)
unfolding to_domain_payout
moved row new_state t db same found =
    let params : UpdatePayoutParams = record {
      state = new_state;
      external_id = row.external_id;
      provider = Repo.or_empty row.provider;
    } in
    let row_params : UpdateRowParams = record {
      id = row.id;
      state = new_state;
      external_id = row.external_id;
      provider = nullable (Repo.or_empty row.provider);
    } in
    elim (update_payout_state_cases row.id params db) [
      | inl (e, failed, kept) ↦ inl (e, failed, kept ∙ same)
      | inr (old, done, became) ↦
          let same_row : old ≡ row =
            row_eq (
              sym (subst (λ t'. find_payout row.id t'.payouts ≡ some old) same became.0) ∙ found) in
          inr (
            _,
            done,
            subst
                (λ t'.
                  Became row.id row (moved_row new_state db.now row) t'
                    (Repo.update_payout_state row.id params db).1.tables)
                same
                (subst
                  (λ r.
                    Became row.id r (updated_row row_params db.now r) db.tables
                      (Repo.update_payout_state row.id params db).1.tables)
                  same_row became),
          )
    ]

payout_eq : {p q : Payout} → reply p ≡ reply q → p ≡ q
payout_eq h = ground arith

module _ (parse_uuid : String → Option Uuid) {E : Type 0} where
  update_reply_cases :
      (provider_status : String) (w : World E) (row : PayoutRow) (new_state : PayoutState)
      (now : Time) (o : Result Payout × Db)
      → map_provider_status_to_state provider_status ≡ some new_state
      → ((e : Err) × (o.0 ≡ err e) × (o.1.tables ≡ w.db.tables))
        ⊎ ((p : Payout) × (o.0 ≡ ok p)
            × Became row.id row (moved_row new_state now row) w.db.tables o.1.tables)
      → let a = update_reply parse_uuid w o in IsRefused w a ⊎ (IsMoved row provider_status w a)
  update_reply_cases s w row new_state now (err e, db) known (inl (_, _, same)) =
      inl (same, refl, (_, _, refl))
  update_reply_cases s w row new_state now (ok p, db) known (inl (_, failed, _)) = ground arith
  update_reply_cases s w row new_state now (err e, db) known (inr (_, done, _)) = ground arith
  update_reply_cases s w row new_state now (ok p, db) known (inr (_, done, became)) =
      inr (refl, (new_state, now, known, became))

  abbrev Outcome : ApplyProviderUpdateRequest → World E → Reply Bool × World E → Type 0
  Outcome req w a =
      IsRefused w a
      ⊎ ((row : PayoutRow) × Names parse_uuid req.payout_id row
          × IsMoved row req.provider_status w a)

  apply_found_cases :
      (req : ApplyProviderUpdateRequest) (w : World E) (o : Reply Payout × Db)
      → o.1.tables ≡ w.db.tables
      → Found parse_uuid req.payout_id w.db.tables o
      → Outcome req w (apply_found parse_uuid req w o)
  apply_found_cases req w (crashed, db) same (inl (_, _, no_status)) = ground arith
  apply_found_cases req w (crashed, db) same (inr (_, _, no_reply, _, _)) = ground arith
  apply_found_cases req w (status c m, db) same found = inl (same, refl, (c, m, refl))
  apply_found_cases req w (reply p, db) same (inl (_, _, no_status)) = ground arith
  apply_found_cases req w (reply p, db) same (inr (p', row, is_p, named, found)) =
      elim (Option-cases (map_provider_status_to_state req.provider_status)) [
        | inl unknown ↦
            let opened : apply_found parse_uuid req w (reply p, db) ≡ (
              status invalid_argument (with_text "unknown provider status: %s" req.provider_status),
              with_db w db,
            ) =
              rw (unknown, apply_found) refl in
            subst (Outcome req w) (sym opened) (inl (same, refl, (_, _, refl)))
        | inr (new_state, known) ↦
            let stored = λ (q : Payout).
              Repo.update_payout_state q.id
                (record { state = new_state; external_id = q.external_id; provider = q.provider })
                db in
            let opened : apply_found parse_uuid req w (reply p, db)
                ≡ update_reply parse_uuid w (stored p) =
              rw (known, apply_found) refl in
            let is_row : to_domain_payout row ≡ p = sym (payout_eq is_p ∙ found.1) in
            let outcome =
              subst
                (λ q.
                  ((e : Err) × ((stored q).0 ≡ err e) × ((stored q).1.tables ≡ w.db.tables))
                  ⊎ ((p : Payout) × ((stored q).0 ≡ ok p)
                      × Became row.id row (moved_row new_state db.now row) w.db.tables
                          (stored q).1.tables))
                is_row (moved row new_state w.db.tables db same found.0) in
            subst (Outcome req w) (sym opened)
              (elim (update_reply_cases req.provider_status w row new_state db.now (stored p) known
                outcome) [ inl refused ↦ inl refused | inr done ↦ inr (row, named, done) ])
      ]

  apply_cases :
      (req : ApplyProviderUpdateRequest) (w : World E)
      → IsValidWorld w
      → Outcome req w (apply_provider_update parse_uuid req w)
  unfolding apply_provider_update
  apply_cases req w v = elim (Bool-cases (str_eq req.payout_id "")) [
    | inl empty ↦ rw empty (inl (refl, refl, (_, _, refl)))
    | inr given ↦ rw given (
        apply_found_cases req w (find_payout_by_external_id_or_id parse_uuid req.payout_id w.db)
          (find_payout_tables parse_uuid req.payout_id w.db)
          (find_payout_row parse_uuid req.payout_id w.db v))
  ]

  -- The update was refused for a reason, having changed nothing, or it moved the row that the
  -- reference names.
  abbrev pub Applied : ApplyProviderUpdateRequest → World E → Reply Bool × World E → Type 0
  Applied req w a =
      (IsRefused w a × WhyRefused parse_uuid req w)
      ⊎ ((row : PayoutRow) × Names parse_uuid req.payout_id row
          × IsMoved row req.provider_status w a)

  -- Over valid tables, whatever the request and the faults of the database, `ApplyProviderUpdate`
  -- does one of two things. It returns an error status and changes no table, and that has one of
  -- five reasons: the reference is empty, the status is unknown, the reference names no payout, a
  -- statement may fail, or the new version of the row breaks a constraint of the table; the state
  -- in which the payout was is no reason. Or it answers true: the provider's status is known, the
  -- reference is the external id of a payout or parses to its id, and exactly the row of that
  -- payout changed, to the state of the status, with its external id and provider kept, an empty
  -- provider being stored as none.
  pub apply_provider_update-effect :
      (req : ApplyProviderUpdateRequest) (w : World E)
      → IsValidWorld w
      → Applied req w (apply_provider_update parse_uuid req w)
  apply_provider_update-effect req w v = elim (apply_cases req w v) [
    | inr done ↦ inr done
    | inl (same, env, (c, m, refused)) ↦ inl (
      (same, env, (c, m, refused)),
      refused-WhyRefused parse_uuid req w v (λ done. ground (arith, refused, done)),
    )
  ]
