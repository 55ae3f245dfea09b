-- ===== src/Persistence/Repo/Find.antt =====
-- Which row the statements that read a payout return.
use payment_orchestrator.Base.{
  ◌≡◌, refl, String, true, false, Option, none, some, List, [], ◌∷◌, arith, Bool-cases,
  Option-cases, inl, inr, sym, ap, ==_refl, ◌==◌, str_eq_iff,
}
use mathlib.Core.Path.{subst}
use payment_orchestrator.Domain.{Uuid, Payout}
use payment_orchestrator.Persistence.Result.{ok}
use payment_orchestrator.Persistence.Queries
use payment_orchestrator.Persistence.Queries.{
  PayoutRow, Tables, Db, find_payout, find_external, next_fails, advance, any_row, clashes,
  same_external,
}
use payment_orchestrator.Persistence.Queries.Rows.{find_payout-id}
use payment_orchestrator.Persistence.Queries.Valid.{RowsValid}
use payment_orchestrator.Persistence.Repo
use payment_orchestrator.Persistence.Repo.{to_domain_payout}

-- The payout `p` is a row that is stored under its id.
abbrev pub IsStored : Tables → Payout → PayoutRow → Type 0
IsStored t p row = (find_payout row.id t.payouts ≡ some row) × (p ≡ to_domain_payout row)

pub get_payout_row :
    (id : Uuid) (db : Db) (p : Payout)
    → (Repo.get_payout id db).0 ≡ ok p
    → (row : PayoutRow) × (row.id ≡ id) × IsStored db.tables p row
unfolding Repo.get_payout Queries.get_payout to_domain_payout
get_payout_row id db p h = elim (Option-cases (find_payout id db.tables.payouts)) [
  | inl absent ↦ ground arith
  | inr (row, found) ↦
      let same = find_payout-id id db.tables.payouts row found in
      (
        row,
        same,
        (subst (λ i. find_payout i db.tables.payouts ≡ some row) (sym same) found, ground arith),
      )
]

pub no_clash_id :
    (x r : PayoutRow) (rows : List PayoutRow)
    → any_row (clashes x) rows ≡ false
    → find_payout r.id rows ≡ some r
    → (x.id == r.id) ≡ false
no_clash_id x r [] apart found = ground arith
no_clash_id x r (y ∷ rows) apart found = ground (arith, no_clash_id x r rows)

pub row_eq : {x y : PayoutRow} → ◌≡◌ {A = Option PayoutRow} (some x) (some y) → x ≡ y
row_eq h = ground arith

same_external-some : (a : Option String) (x : String) → same_external a (some x) ≡ true → a ≡ some x
unfolding same_external
same_external-some none x h = ground arith
same_external-some (some y) x h = ap (λ (s : String). some s) ((str_eq_iff y x).0 h)

pub find_external_row :
    (x : String) (rows : List PayoutRow) (r : PayoutRow)
    → RowsValid rows
    → find_external x rows ≡ some r
    → (find_payout r.id rows ≡ some r) × (r.external_id ≡ some x)
unfolding same_external
find_external_row x [] r v h = ground arith
find_external_row x (y ∷ rows) r v h = elim (Bool-cases (same_external y.external_id (some x))) [
  | inl here ↦
      let same : y ≡ r = row_eq (rw here at h) in
      subst (λ z. (find_payout z.id (y ∷ rows) ≡ some z) × (z.external_id ≡ some x)) same
        (rw (==_refl y.id) refl, same_external-some y.external_id x here)
  | inr there ↦
      let (found, named) = find_external_row x rows r v.2 (rw there at h) in
      (rw (no_clash_id y r rows v.1 found) found, named)
]

pub find_by_external_id_row :
    (x : String) (db : Db) (p : Payout)
    → RowsValid db.tables.payouts
    → (Repo.find_by_external_id x db).0 ≡ ok p
    → (row : PayoutRow) × (row.external_id ≡ some x) × IsStored db.tables p row
unfolding Repo.find_by_external_id Queries.find_payout_by_external_id to_domain_payout
find_by_external_id_row x db p v h = elim (Option-cases (find_external x db.tables.payouts)) [
  | inl absent ↦ ground arith
  | inr (row, found) ↦
      let (here, named) = find_external_row x db.tables.payouts row v found in
      (row, named, (here, ground arith))
]
