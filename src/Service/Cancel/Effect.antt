-- ===== src/Service/Cancel/Effect.antt =====
-- What `CancelPayout` does to the table of payouts.
use payment_orchestrator.Base.{
  ◌≡◌, refl, String, Bool, true, Option, some, List, arith, Bool-cases, Option-cases, inl, inr, ◌⊎◌,
  ap, ◌∙◌, str_eq,
}
use mathlib.Core.Path.{subst}
use payment_orchestrator.Domain.{Time, Uuid, Payout}
use payment_orchestrator.Persistence.Result.{Err, Result, ok, err, is_not_found}
use payment_orchestrator.Persistence.Queries.{PayoutRow, Db, is_in, canceled_row}
use payment_orchestrator.Persistence.Repo
use payment_orchestrator.Persistence.Repo.{to_domain_payout}
use payment_orchestrator.Persistence.Repo.Update.{Became, cancel_payout_cases}
use payment_orchestrator.Persistence.Repo.Valid.{get_payout_tables}
use payment_orchestrator.Provider.Registry.{Registry, RailEntry}
use payment_orchestrator.Provider.Orchestrator.{Orchestrator}
use payment_orchestrator.Service.Cancel.Why.{
  Cancelable, is_in-Cancelable, WhyKept, not_true-WhyKept,
}
use payment_orchestrator.Service.Types.{Code, Message, Reply, reply, status, World, with_db}
use payment_orchestrator.Service.Cancel.{
  cancelable_states, ask_provider, cancel_reply, cancel_found, cancel_payout,
}

-- The request was refused: no table changed, no provider was asked, and the answer is a status.
abbrev pub IsRefused : {E : Type 0} → World E → Reply Bool × World E → Type 0
IsRefused w (r, w') =
    (w'.db.tables ≡ w.db.tables)
    × (w'.env ≡ w.env)
    × ((c : Code) × (m : Message) × (r ≡ status c m))

-- The provider may have been asked, and the database failed: no table changed.
abbrev pub IsFailed : {E : Type 0} → World E → Reply Bool × World E → Type 0
IsFailed w (r, w') = (w'.db.tables ≡ w.db.tables) × ((c : Code) × (m : Message) × (r ≡ status c m))

-- The row of `id` was in a cancelable state, and only its state, now canceled, and its time of
-- update changed.
abbrev pub IsCanceled : {E : Type 0} → Uuid → World E → Reply Bool × World E → Type 0
IsCanceled id w (r, w') =
    (r ≡ reply true)
    × ((old : PayoutRow) × (now : Time) × Cancelable old.state
        × Became id old (canceled_row now old) w.db.tables w'.db.tables)

module _ {E : Type 0} (iteration : Registry E → List (RailEntry E))
    (parse_uuid : String → Option Uuid) (server : Option (Orchestrator E)) where
  cancel_reply_cases :
      (id : Uuid) (w w' : World E) (now : Time) (o : Result Payout × Db)
      → w'.db.tables ≡ w.db.tables
      → ((e : Err) × (o.0 ≡ err e) × (o.1.tables ≡ w'.db.tables))
        ⊎ ((old : PayoutRow) × (is_in old.state cancelable_states ≡ true)
            × (o.0 ≡ ok (to_domain_payout (canceled_row now old)))
            × Became id old (canceled_row now old) w'.db.tables o.1.tables)
      → let a = cancel_reply iteration parse_uuid server w' o in IsFailed w a ⊎ IsCanceled id w a
  cancel_reply_cases id w w' now (err e, db) kept (inl (_, _, same)) =
      inl (same ∙ kept, (_, _, refl))
  cancel_reply_cases id w w' now (ok p, db) kept (inl (_, error, same)) = ground arith
  cancel_reply_cases id w w' now (err e, db) kept (inr (old, cancelable, done, became)) =
      ground arith
  cancel_reply_cases id w w' now (ok p, db) kept (inr (old, cancelable, done, became)) = inr (
    refl,
    (
      old,
      now,
      is_in-Cancelable old.state cancelable,
      subst (λ t. Became id old (canceled_row now old) t db.tables) kept became,
    ),
  )

  ask_provider_db :
      (p : Payout) (w : World E) → (ask_provider iteration parse_uuid server p w).db ≡ w.db
  ask_provider_db p w = ground arith

  cancel_found_cases :
      (id : Uuid) (w w' : World E) (found : Result Payout)
      → w'.db.tables ≡ w.db.tables
      → w'.env ≡ w.env
      → let a = cancel_found iteration parse_uuid server id found w' in
        IsRefused w a ⊎ (IsFailed w a ⊎ IsCanceled id w a)
  cancel_found_cases id w w' (err e) kept env = elim (Bool-cases (is_not_found e)) [
    | inl missing ↦ rw missing (inl (kept, env, (_, _, refl)))
    | inr other ↦ rw other (inl (kept, env, (_, _, refl)))
  ]
  cancel_found_cases id w w' (ok p) kept env = elim (Bool-cases (is_in p.state cancelable_states)) [
    | inr final ↦ rw final (inl (kept, env, (_, _, refl)))
    | inl cancelable ↦
        let asked = ask_provider iteration parse_uuid server p w' in
        rw cancelable (
          inr (
            cancel_reply_cases id w asked asked.db.now
              (Repo.cancel_payout id cancelable_states asked.db)
              (ap (λ (d : Db). d.tables) (ask_provider_db p w') ∙ kept)
              (cancel_payout_cases id cancelable_states asked.db)))
  ]

  outcomes :
      (payout_id : String) (w : World E)
      → let a = cancel_payout iteration parse_uuid server payout_id w in
        IsRefused w a
        ⊎ (IsFailed w a ⊎ ((id : Uuid) × (parse_uuid payout_id ≡ some id) × IsCanceled id w a))
  unfolding cancel_payout
  outcomes payout_id w = elim (Bool-cases (str_eq payout_id "")) [
    | inl empty ↦ rw empty (inl (refl, refl, (_, _, refl)))
    | inr given ↦ elim (Option-cases (parse_uuid payout_id)) [
      | inl no_id ↦ rw (given, no_id) (inl (refl, refl, (_, _, refl)))
      | inr (id, parsed) ↦
          let (found, db) = Repo.get_payout id w.db in
          rw (given, parsed)
            (elim (cancel_found_cases id w (with_db w db) found (get_payout_tables id w.db) refl) [
              | inl refused ↦ inl refused
              | inr (inl broken) ↦ inr (inl broken)
              | inr (inr done) ↦ inr (inr (id, refl, done))
            ])
    ]
  ]

  -- What a call of `CancelPayout` does: it is refused for a reason, it fails for a reason, or it
  -- cancels the payout.
  abbrev pub CancelOutcome : String → World E → Reply Bool × World E → Type 0
  CancelOutcome payout_id w a =
      (IsRefused w a × WhyKept iteration parse_uuid server payout_id w)
      ⊎ ((IsFailed w a × WhyKept iteration parse_uuid server payout_id w)
          ⊎ ((id : Uuid) × (parse_uuid payout_id ≡ some id) × IsCanceled id w a))

  -- Whatever the id, the faults of the database and the answers of the provider, `CancelPayout`
  -- does one of three things. It returns an error status, having changed no table and asked no
  -- provider. It returns an error status, having changed no table, though a provider may have been
  -- asked. Either has a reason: the id is empty, does not parse or names no payout, the payout is
  -- in another state than created, queued, pending and sent, a statement may fail, or the canceled
  -- row breaks a constraint of the table. Or it answers true, the id parses, the payout was created,
  -- queued, pending or sent, and exactly its row changed: the state to canceled, and the time of the
  -- update.
  pub cancel_payout-effect :
      (payout_id : String) (w : World E)
      → CancelOutcome payout_id w (cancel_payout iteration parse_uuid server payout_id w)
  cancel_payout-effect payout_id w = elim (outcomes payout_id w) [
    | inl (same, env, (c, m, refused)) ↦ inl (
      (same, env, (c, m, refused)),
      not_true-WhyKept iteration parse_uuid server payout_id w
          (λ done. ground (arith, refused, done)),
    )
    | inr (inl (same, (c, m, refused))) ↦ inr (
        inl (
          (same, (c, m, refused)),
          not_true-WhyKept iteration parse_uuid server payout_id w
              (λ done. ground (arith, refused, done)),
        ))
    | inr (inr done) ↦ inr (inr done)
  ]
