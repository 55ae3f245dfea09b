-- ===== src/System.antt =====
-- The payout service over time: sequences of calls of its handlers
-- (services/orchestrator/internal/grpc/payout_service.go), between which the database's clock, its
-- faults, the providers and the success tracker may change in any way.
pub mod Follows
pub mod Asked
pub mod Trace
pub mod Sends
pub mod Interleaved
pub mod Overtaken
pub mod Overlapping
