-- ===== src/Persistence/Queries/Valid.antt =====
-- The constraints of the tables (db/migrations) under the writing statements.
use payment_orchestrator.Base.{
  ◌≡◌, refl, ◌≢◌, String, true, false, not, ◌&&◌, Option, none, some, List, [], ◌∷◌, arith, ◌==◌,
  str_eq_iff, Bool-cases, inl, inr,
}
use payment_orchestrator.Domain.{Uuid}
use payment_orchestrator.Persistence.Queries.Rows.{find_payout-replace_row}
use payment_orchestrator.Persistence.Queries.{
  PayoutRow, KeyRow, Tables, Db, row_allowed, same_external, any_row, clashes, clashes_other,
  replace_row, find_payout, find_key, insert_row, update_row,
}

-- Every row meets the CHECK constraints, and no two rows share an id or an external id.
abbrev pub RowsValid : List PayoutRow → Type 0
RowsValid [] = Unit
RowsValid (r ∷ rows) = (row_allowed r ≡ true) × (any_row (clashes r) rows ≡ false) × RowsValid rows

-- No key is listed twice, and the payout of each key has a row.
abbrev pub KeysValid : List PayoutRow → List KeyRow → Type 0
KeysValid rows [] = Unit
KeysValid rows (k ∷ keys) =
    (find_key k.key keys ≡ none) × (find_payout k.payout_id rows ≢ none) × KeysValid rows keys

pub record IsValid (t : Tables) : Type 0 where
  pub rows_valid : RowsValid t.payouts
  pub keys_valid : KeysValid t.payouts t.idempotency_keys

same_external-sym : (a b : Option String) → same_external a b ≡ same_external b a
unfolding same_external
same_external-sym none none = refl
same_external-sym none (some y) = refl
same_external-sym (some x) none = refl
same_external-sym (some x) (some y) = ground (arith, str_eq_iff x y, str_eq_iff y x)

-- Replacing a row by a version that clashes with no other keeps its distance from a third row.
any_row-replace_row :
    (r x : PayoutRow) (rows : List PayoutRow)
    → any_row (clashes x) rows ≡ false
    → (x.id == r.id) ≡ false
    → same_external r.external_id x.external_id ≡ false
    → any_row (clashes x) (replace_row r rows) ≡ false
any_row-replace_row r x [] h e f = refl
any_row-replace_row r x (y ∷ rows) h e f = ground (arith, any_row-replace_row r x rows)

absent_after :
    (r : PayoutRow) (x : PayoutRow) (rows : List PayoutRow)
    → (x.id == r.id) ≡ true
    → any_row (clashes x) rows ≡ false
    → any_row (clashes_other r) rows ≡ false
    → (any_row (clashes r) rows ≡ false) × (replace_row r rows ≡ rows)
absent_after r x [] e h k = (refl, refl)
absent_after r x (y ∷ rows) e h k = ground (arith, absent_after r x rows e)

replace_row-RowsValid :
    (r : PayoutRow) (rows : List PayoutRow)
    → row_allowed r ≡ true
    → any_row (clashes_other r) rows ≡ false
    → RowsValid rows
    → RowsValid (replace_row r rows)
replace_row-RowsValid r [] a c v = tt
replace_row-RowsValid r (x ∷ rows) a c v = elim (Bool-cases (x.id == r.id)) [
  | inl same ↦
      let (apart, kept) = absent_after r x rows same v.1 (ground arith) in
      rw (same, kept) (a, apart, v.2)
  | inr other ↦
      let external = same_external-sym r.external_id x.external_id in
      rw other (
        v.0,
        any_row-replace_row r x rows v.1 other (ground arith),
        replace_row-RowsValid r rows a (ground arith) v.2,
      )
]

KeysValid-grow :
    (rows rows' : List PayoutRow) (keys : List KeyRow)
    → ((id : Uuid) → find_payout id rows ≢ none → find_payout id rows' ≢ none)
    → KeysValid rows keys
    → KeysValid rows' keys
KeysValid-grow rows rows' [] grow v = tt
KeysValid-grow rows rows' (k ∷ keys) grow v =
    (v.0, grow k.payout_id v.1, KeysValid-grow rows rows' keys grow v.2)

abbrev pub IsValidDb : Db → Type 0
IsValidDb db = IsValid db.tables

pub insert_row-IsValid : (r : PayoutRow) (db : Db) → IsValidDb db → IsValidDb (insert_row r db).1
insert_row-IsValid r db v =
    elim (Bool-cases (row_allowed r && not (any_row (clashes r) db.tables.payouts))) [
      | inr rejected ↦ rw rejected v
      | inl taken ↦ rw taken (record {
        rows_valid = (ground arith, ground arith, v.rows_valid);
        keys_valid =
            KeysValid-grow db.tables.payouts (r ∷ db.tables.payouts) db.tables.idempotency_keys
              (λ id old. ground arith) v.keys_valid;
      })
    ]

pub update_row-IsValid : (r : PayoutRow) (db : Db) → IsValidDb db → IsValidDb (update_row r db).1
update_row-IsValid r db v =
    elim (Bool-cases (row_allowed r && not (any_row (clashes_other r) db.tables.payouts))) [
      | inr rejected ↦ rw rejected v
      | inl taken ↦ rw taken (record {
        rows_valid =
            replace_row-RowsValid r db.tables.payouts (ground arith) (ground arith) v.rows_valid;
        keys_valid =
            KeysValid-grow db.tables.payouts (replace_row r db.tables.payouts)
              db.tables.idempotency_keys
              (λ id old. ground (arith, find_payout-replace_row r id db.tables.payouts))
              v.keys_valid;
      })
    ]
