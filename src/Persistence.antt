-- ===== src/Persistence.antt =====
-- What the service stores (services/orchestrator/internal/persistence).
pub mod Result
pub mod Queries
pub mod Repo
