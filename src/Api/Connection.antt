-- ===== src/Api/Connection.antt =====
-- The client of the orchestrator (services/api/internal/grpc/client.go) joined to the handlers of
-- services/orchestrator/internal/grpc/payout_service.go: the connection may lose a call, or the
-- answer to a call that was made.
use payment_orchestrator.Base.{ℕ, String, Option, some, List}
use payment_orchestrator.Domain.{Uuid, Time}
use payment_orchestrator.Provider.Registry.{Registry, RailEntry}
use payment_orchestrator.Provider.SuccessTracker.{Float64}
use payment_orchestrator.Provider.Orchestrator.{Orchestrator}
use payment_orchestrator.Service.Types.{Reply, reply, crashed, World, Handler}
use payment_orchestrator.Service.Types
use payment_orchestrator.Service.Create
use payment_orchestrator.Service.Get
use payment_orchestrator.Service.Cancel
use payment_orchestrator.Api.Types.{
  status, other_status, CallResult, responded, call_failed, PayoutClient,
}

-- What becomes of a call: gRPC reports a loss by a status of its own.
pub data Delivery : Type 0 where
  delivered request_lost answer_lost : Delivery

-- What the client sees of an answer. A panic ends the process, which gRPC reports by a status of
-- its own.
abbrev pub seen : {A : Type 0} → Reply A → CallResult A
seen (reply a) = responded a
seen (Types.status c m) = call_failed (status c m)
seen crashed = call_failed other_status

abbrev pub carried : {E A : Type 0} → Delivery → Handler E A → World E → CallResult A × World E
carried delivered h w = let (r, w') = h w in (seen r, w')
carried request_lost h w = (call_failed other_status, w)
carried answer_lost h w = (call_failed other_status, (h w).1)

module _ (fl : Float64) (intn : ℕ → ℕ) (now : Time) (uuid_string : Uuid → String)
    (parse_uuid : String → Option Uuid) {E : Type 0} (iteration : Registry E → List (RailEntry E))
    (o : Orchestrator E) where
  -- The service with an orchestrator, behind a connection.
  unfoldable pub service_client : Delivery → PayoutClient (World E)
  service_client d = record {
    create_payout =
        λ request_id req. carried d (Create.create_payout fl intn now uuid_string (some o) req);
    get_payout = λ request_id id. carried d (Get.get_payout uuid_string parse_uuid id);
    cancel_payout =
        λ request_id id. carried d (Cancel.cancel_payout iteration parse_uuid (some o) id);
  }
