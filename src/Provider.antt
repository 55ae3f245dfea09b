-- ===== src/Provider.antt =====
-- The providers of payouts (services/orchestrator/internal/provider): clients, their registry,
-- the success tracker, the routing algorithms and the sending with fallback.
pub mod Client
pub mod Registry
pub mod SuccessTracker
pub mod Weights
pub mod SuccessRate
pub mod Router
pub mod Orchestrator
