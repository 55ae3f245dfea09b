-- ===== src/Service.antt =====
-- The gRPC payout service (services/orchestrator/internal/grpc/payout_service.go).
--
-- A handler takes the request and the state of the service: the database, the success tracker and
-- the world outside. What the code takes from libraries is a parameter: `parse_uuid` and
-- `uuid_string` of google/uuid, `intn` of math/rand, the floats, the order in which a map is
-- visited. Log lines have no effect and are left out.
pub mod Types
pub mod Create
pub mod Get
pub mod Cancel
pub mod Update
pub mod Valid
