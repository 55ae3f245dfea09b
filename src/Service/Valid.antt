-- ===== src/Service/Valid.antt =====
-- The invariant of the tables in the state of the payout service.
use payment_orchestrator.Persistence.Queries.Valid.{IsValidDb}
use payment_orchestrator.Service.Types.{World}

abbrev pub IsValidWorld : {E : Type 0} → World E → Type 0
IsValidWorld w = IsValidDb w.db
