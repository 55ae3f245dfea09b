-- ===== src/Api.antt =====
-- The public HTTP service (services/api/internal): its handlers over the client of the
-- orchestrator, the canonical form of a request, the middlewares and the router.
pub mod Types
pub mod Canonical
pub mod Create
pub mod Get
pub mod Cancel
pub mod Connection
pub mod RateLimit
pub mod Limited
pub mod Router
pub mod Config
pub mod EndToEnd
pub mod Once
pub mod Canceled
