-- ===== src/Persistence/Queries/Runs.antt =====
-- When statements run: no fault lies ahead, and the constraints of the table are met.
use payment_orchestrator.Base.{◌≡◌, refl, Bool, false, not, ◌&&◌, ◌||◌, List, [], ◌∷◌, arith}
use payment_orchestrator.Persistence.Queries.{
  PayoutRow, Tables, row_allowed, any_row, clashes_other, next_fails, rest_of,
}

-- Whether a coming statement fails.
abbrev pub any_fault : List Bool → Bool
any_fault [] = false
any_fault (f ∷ fs) = f || any_fault fs

pub runs :
    (fs : List Bool)
    → any_fault fs ≡ false
    → (next_fails fs ≡ false) × (any_fault (rest_of fs) ≡ false)
runs [] h = (refl, refl)
runs (f ∷ fs) h = ground arith

-- The new version of the row meets the constraints of the table.
abbrev pub is_storable : PayoutRow → Tables → Bool
is_storable row t = row_allowed row && not (any_row (clashes_other row) t.payouts)
