-- ===== src/System/Follows.antt =====
-- What later tables keep of earlier ones.
use payment_orchestrator.Base.{
  ◌≡◌, refl, String, false, some, List, ◌∷◌, ◌==◌, ==_iff, Bool-cases, inl, inr, ◌⊎◌, sym, ◌∙◌,
}
use mathlib.Core.Path.{subst}
use payment_orchestrator.Domain.{Uuid, PayoutState, completed, failed, canceled}
use payment_orchestrator.Persistence.Queries.{PayoutRow, KeyRow, Tables, find_payout, find_key}
use payment_orchestrator.Persistence.Queries.Rows.{find_payout-id}
use payment_orchestrator.Persistence.Queries.Valid.{RowsValid}
use payment_orchestrator.Persistence.Repo.Find.{no_clash_id, row_eq}
use payment_orchestrator.Persistence.Repo.Update.{Became}

-- The states that a payout is settled in.
abbrev pub IsSettled : PayoutState → Type 0
IsSettled s = (s ≡ completed) ⊎ (s ≡ failed) ⊎ (s ≡ canceled)

-- A later version of a row: the same payout, and its state is the same or a settled one.
pub record IsVersionOf (old new : PayoutRow) : Type 0 where
  pub id : new.id ≡ old.id
  pub amount_cents : new.amount_cents ≡ old.amount_cents
  pub currency : new.currency ≡ old.currency
  pub rail : new.rail ≡ old.rail
  pub created_at : new.created_at ≡ old.created_at
  pub state : (new.state ≡ old.state) ⊎ IsSettled new.state

-- No payout and no idempotency key is lost; a key stays as it is, and a payout is followed by a
-- version of it.
pub record Follows (t t' : Tables) : Type 0 where
  pub keys_kept :
      (key : String) (k : KeyRow)
      → find_key key t.idempotency_keys ≡ some k
      → find_key key t'.idempotency_keys ≡ some k
  pub rows_kept :
      (id : Uuid) (old : PayoutRow)
      → find_payout id t.payouts ≡ some old
      → (new : PayoutRow) × (find_payout id t'.payouts ≡ some new) × IsVersionOf old new

pub IsVersionOf-refl : (r : PayoutRow) → IsVersionOf r r
IsVersionOf-refl r = record {
  id = refl;
  amount_cents = refl;
  currency = refl;
  rail = refl;
  created_at = refl;
  state = inl refl;
}

later_state :
    (a b c : PayoutState) → (b ≡ a) ⊎ IsSettled b → (c ≡ b) ⊎ IsSettled c → (c ≡ a) ⊎ IsSettled c
later_state a b c (inl x) (inl y) = inl (y ∙ x)
later_state a b c (inr x) (inl y) = inr (subst IsSettled (sym y) x)
later_state a b c _ (inr y) = inr y

IsVersionOf-trans : (a b c : PayoutRow) → IsVersionOf a b → IsVersionOf b c → IsVersionOf a c
IsVersionOf-trans a b c x y = record {
  id = y.id ∙ x.id;
  amount_cents = y.amount_cents ∙ x.amount_cents;
  currency = y.currency ∙ x.currency;
  rail = y.rail ∙ x.rail;
  created_at = y.created_at ∙ x.created_at;
  state = later_state a.state b.state c.state x.state y.state;
}

pub Follows-refl : (t : Tables) → Follows t t
Follows-refl t = record {
  keys_kept = λ key k h. h;
  rows_kept = λ id old h. (old, h, IsVersionOf-refl old);
}

pub Follows-eq : (t t' : Tables) → t' ≡ t → Follows t t'
Follows-eq t t' e = subst (Follows t) (sym e) (Follows-refl t)

pub Follows-trans : (a b c : Tables) → Follows a b → Follows b c → Follows a c
Follows-trans a b c x y = record {
  keys_kept = λ key k h. y.keys_kept key k (x.keys_kept key k h);
  rows_kept = λ id old h.
      let (mid, found, v) = x.rows_kept id old h in
      let (new, found', v') = y.rows_kept id mid found in
      (new, found', IsVersionOf-trans old mid new v v');
}

-- A change of one row to a version of it.
pub Became-Follows :
    (id : Uuid) (old new : PayoutRow) (t t' : Tables)
    → Became id old new t t'
    → IsVersionOf old new
    → Follows t t'
Became-Follows id old new t t' (found, changed, others, keys) v = record {
  keys_kept = λ key k h. rw keys h;
  rows_kept = λ i r h. elim (Bool-cases (i == id)) [
    | inr other ↦ (r, others i other ∙ h, IsVersionOf-refl r)
    | inl same ↦
        let here : i ≡ id = (==_iff i id).0 same in
        let is_old : r ≡ old = row_eq (sym h ∙ rw here found) in
        (new, rw here changed, subst (λ x. IsVersionOf x new) (sym is_old) v)
  ];
}

-- A new row takes the id of no other.
pub new_row_other :
    (row : PayoutRow) (rows : List PayoutRow) (id : Uuid) (old : PayoutRow)
    → RowsValid (row ∷ rows)
    → find_payout id rows ≡ some old
    → (row.id == id) ≡ false
new_row_other row rows id old v h =
    let same : old.id ≡ id = find_payout-id id rows old h in
    subst (λ i. (row.id == i) ≡ false) same
      (no_clash_id row old rows v.1 (subst (λ i. find_payout i rows ≡ some old) (sym same) h))
