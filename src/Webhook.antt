-- ===== src/Webhook.antt =====
-- The webhook service (services/webhook/internal): the normalized events, the parser of Stripe's
-- events, the deduplication in Redis and the HTTP handler. The service forwards an event to the
-- orchestrator as a call of `ApplyProviderUpdate`.
pub mod Event
pub mod Parser
pub mod Dedup
pub mod Handler
pub mod Router
