-- ===== src/Persistence/Queries/Rows.antt =====
-- What the writes to the table of payouts do to what is read from it.
use payment_orchestrator.Base.{◌≡◌, none, some, List, [], ◌∷◌, arith, ◌==◌, if◌then◌else◌}
use payment_orchestrator.Domain.{Uuid}
use payment_orchestrator.Persistence.Queries.{PayoutRow, find_payout, replace_row}

-- Reading any payout after the row of one was replaced, where that one had a row.
pub find_payout-replace_row :
    (r : PayoutRow) (id : Uuid) (rows : List PayoutRow)
    → find_payout id (replace_row r rows) ≡ (
        if r.id == id
        then (elim (find_payout id rows) [ none ↦ none | some _ ↦ some r ])
        else find_payout id rows)
find_payout-replace_row r id [] = ground arith
find_payout-replace_row r id (x ∷ rows) = ground (arith, find_payout-replace_row r id rows)

pub find_payout-id :
    (id : Uuid) (rows : List PayoutRow) (r : PayoutRow) → find_payout id rows ≡ some r → r.id ≡ id
find_payout-id id [] r h = cc
find_payout-id id (x ∷ rows) r h = ground (arith, find_payout-id id rows r)
