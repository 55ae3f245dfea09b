-- ===== src/Persistence/Repo/Roundtrip.antt =====
-- A payout that was stored, read again.
use payment_orchestrator.Base.{
  ◌≡◌, refl, String, false, not, ◌&&◌, arith, Bool-cases, inl, inr, sym, ◌∙◌, ==_refl, str_eq,
  str_eq_iff,
}
use payment_orchestrator.Domain.{Uuid, Time, Payout, CreatePayoutParams}
use payment_orchestrator.Persistence.Result.{Result, ok}
use payment_orchestrator.Persistence.Queries
use payment_orchestrator.Persistence.Queries.{
  PayoutRow, Tables, Db, next_fails, insert_row, row_allowed, any_row, clashes,
}
use mathlib.Core.Path.{subst}
use payment_orchestrator.Persistence.Repo
use payment_orchestrator.Persistence.Repo.{to_domain_payout, nullable, or_empty, created_result}
use payment_orchestrator.Persistence.Repo.Cases.{with_payout, create_payout_cases}

-- An empty text is stored as NULL and read as an empty text.
or_empty-nullable : (s : String) → or_empty (nullable s) ≡ s
or_empty-nullable s = elim (Bool-cases (str_eq s "")) [
  | inl empty ↦ ground (arith, empty, (str_eq_iff s "").0 empty)
  | inr given ↦ ground (arith, given)
]

ok_eq : {x y : Payout} → ◌≡◌ {A = Result Payout} (ok x) (ok y) → x ≡ y
ok_eq h = ground arith

read_stored :
    (row : PayoutRow) (t : Tables) (db : Db)
    → db.tables ≡ with_payout row t
    → next_fails db.faults ≡ false
    → (Repo.get_payout row.id db).0 ≡ ok (to_domain_payout row)
unfolding Repo.get_payout Queries.get_payout
read_stored row t db stored works = rw (works, stored, ==_refl row.id) refl

-- The payout has the state, amount, currency, rail, provider and external id that were given.
pub record Carries (params : CreatePayoutParams) (p : Payout) : Type 0 where
  pub state_same : p.state ≡ params.state
  pub amount_same : p.amount_cents ≡ params.amount_cents
  pub currency_same : p.currency ≡ params.currency
  pub rail_same : p.rail ≡ params.rail
  pub provider_same : p.provider ≡ params.provider
  pub external_same : p.external_id ≡ params.external_id

carried :
    (params : CreatePayoutParams) (id : Uuid) (now : Time)
    → Carries params (
        to_domain_payout (record {
          id = id;
          state = params.state;
          amount_cents = params.amount_cents;
          currency = params.currency;
          rail = params.rail;
          provider = nullable params.provider;
          external_id = params.external_id;
          created_at = now;
          updated_at = now;
        }))
unfolding to_domain_payout
carried params id now = record {
  state_same = refl;
  amount_same = refl;
  currency_same = refl;
  rail_same = refl;
  provider_same = or_empty-nullable params.provider;
  external_same = refl;
}

inserted :
    (row : PayoutRow) (db : Db) (p : Payout)
    → created_result (insert_row row db).0 ≡ ok p
    → to_domain_payout row ≡ p
inserted row db p done =
    elim (Bool-cases (row_allowed row && not (any_row (clashes row) db.tables.payouts))) [
      | inl allowed ↦ ok_eq (rw allowed at done)
      | inr rejected ↦ ground (arith, rw rejected at done)
    ]

create_payout-Carries :
    (params : CreatePayoutParams) (db : Db) (p : Payout)
    → (Repo.create_payout params db).0 ≡ ok p
    → Carries params p
unfolding Repo.create_payout Queries.create_payout
create_payout-Carries params db p done = elim (Bool-cases (next_fails db.faults)) [
  | inl fails ↦ ground (arith, rw fails at done)
  | inr runs ↦
      subst (Carries params) (inserted _ _ p (rw runs at done))
        (carried params (db.gen db.drawn) db.now)
]

-- A payout that was stored has the values that were given, where an empty provider is stored as
-- NULL, and when no fault meets the statement that reads it, it is read back as it was returned.
pub get_payout-create_payout :
    (params : CreatePayoutParams) (db : Db) (p : Payout)
    → (Repo.create_payout params db).0 ≡ ok p
    → next_fails (Repo.create_payout params db).1.faults ≡ false
    → Carries params p × ((Repo.get_payout p.id (Repo.create_payout params db).1).0 ≡ ok p)
unfolding to_domain_payout
get_payout-create_payout params db p done works = elim (create_payout_cases params db) [
  | inl (e, failed, _, _) ↦ ground (arith, done, failed)
  | inr (row, gave, stored, _) ↦
      let same : to_domain_payout row ≡ p = ok_eq (sym gave ∙ done) in
      (
        create_payout-Carries params db p done,
        subst (λ (q : Payout). (Repo.get_payout q.id (Repo.create_payout params db).1).0 ≡ ok q)
            same (read_stored row db.tables (Repo.create_payout params db).1 stored works),
      )
]
