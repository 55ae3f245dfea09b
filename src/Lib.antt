-- ===== src/Lib.antt =====
-- The payment orchestrator: a gRPC service that creates payouts, sends them through providers with
-- fallback and stores them in PostgreSQL; an HTTP service in front of it; and a webhook service that
-- forwards the events of Stripe to it.
--
-- The orchestrator (services/orchestrator/internal):
--   Domain: the types of domain/payout.go.
--   Provider: provider/*.go. Client is the interface of a provider, Stripe's and the mock client, and
--     the classes of errors (classifyError, isRetryable); Registry the providers of each rail;
--     SuccessTracker the counts; Weights and SuccessRate the two routing algorithms of router.go, and
--     Router its SelectProviders; Orchestrator is SendPayoutWithFallback and CancelPayout.
--   Persistence: Queries holds the two tables with the constraints of db/migrations and the
--     statements of persistence/sqlcgen; Repo the repositories of persistence/postgres and RunInTx.
--   Service: the four handlers of grpc/payout_service.go, in Create, Get, Cancel and Update.
--   System: sequences of the handlers' calls (Trace, Sends); a cancellation during a sending
--     (Overtaken); the transactions and statements of calls that overlap (Interleaved), with what
--     each CreatePayout remembers between them (Overlapping).
--   Server: what cmd/server/main.go builds of its configuration.
-- The HTTP service (services/api/internal):
--   Api: Types and Canonical, Create, Get and Cancel are the handlers of http/router.go and its
--     canonicalHash; RateLimit and Limited are http/middleware/ratelimit.go, Router puts them together
--     with the middleware of the metrics as NewRouterWithClient does, and Config is config/config.go.
--     Connection joins the handlers to those of the orchestrator, over a connection that may lose a
--     call or the answer to it.
-- The webhook service (services/webhook/internal):
--   Webhook: Event (domain/event.go), Parser (stripeadapter/parser.go), Dedup (dedup/dedup.go),
--     Handler (http/stripe_handler.go) and Router (http/router.go). It calls the orchestrator's
--     ApplyProviderUpdate remotely.
-- Both HTTP services count their requests by Observability (libs/observability/http_metrics.go).
-- Base has what they share: tests into Bool, lists, integers and 64-bit words. Tests has concrete
-- inputs and runs.
--
-- State is passed explicitly. A handler of the service takes the database, the success tracker and
-- the world outside (`World`), and returns its answer with the state after it. The world outside is
-- any type: a provider is a function that answers and changes it. The database carries a list that
-- says which of the coming statements fail, so a theorem about all databases covers every pattern of
-- failures; a failed statement, and a transaction that is rolled back or whose commit fails, leaves
-- the tables.
--
-- Parameters stand for what is not in the repository: `intn` for rand.Intn, `Float64` for Go's
-- floats, `parse_uuid` and `uuid_string` for google/uuid, `iteration` for the order in which Go
-- ranges over a map, the SDK of Stripe, the check of a signature, Redis, and the remote call; and for
-- the HTTP services `decode` for encoding/json, `Formats` for fmt and SHA-256, `LimitFloat` for
-- floats and their texts, `chi` for the matching of routes, `scrape` for promhttp, and
-- `Environment` for os and the parsers.
--
-- Integers: counters, weights and their sums are 64-bit patterns that wrap (Base.Words); amounts and
-- configured weights are integers. No definition runs on fuel that it can lack: the exchange sort
-- takes the length of its list, and every other loop follows its list.
--
-- Not modelled: the start of the servers, their listeners and shutdown, the reading of YAML, the
-- metrics of gRPC calls, and log lines; the effect of a context that is canceled, other than a
-- statement that fails; a statement or a commit that takes effect although its answer is lost. A
-- handler runs from start to end with the clock standing still, except in System.Interleaved,
-- System.Overlapping and System.Overtaken, where the steps of calls that overlap follow each other in
-- any order; there the sending to the providers is one step.
pub mod Base
pub mod Domain
pub mod Provider
pub mod Persistence
pub mod Service
pub mod Webhook
pub mod System
pub mod Server
pub mod Observability
pub mod Api
pub mod Tests
