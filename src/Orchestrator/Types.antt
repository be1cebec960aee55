-- ===== src/Orchestrator/Types.antt =====
-- The records of go/controlplane/orchestrator/orchestrator.go and the values that it exchanges with the
-- agents and the Gateway. An assignment of the plan message is the planner's, and an address that is
-- not resolved, an engine that is not ready and a missing row are `none`.
use purser.Prelude.{ℕ, Bool, Option, List, [], String}
use purser.Planner.Types.{Assignment, Role}
use purser.Registry.Rows.{Deployment}

pub record EngineRef : Type 0 where
  pub node_id : String
  pub agent_addr : String
  pub role : String
  pub handle : String

pub record DeploymentDetail : Type 0 where
  pub model_id : String
  pub quantization : String
  pub host_node_id : String
  pub endpoint : String
  pub engines : List EngineRef
  pub failover_plan_id : String
  pub error : String

pub record Endpoint : Type 0 where
  pub agent_addr : String
  pub inference_addr : String

-- the parts of the message DeploymentPlan that the orchestrator reads
pub record PlanMessage : Type 0 where
  pub plan_id : String
  pub model_id : String
  pub quantization : String
  pub assignments : List Assignment

pub record StartEngineRequest : Type 0 where
  pub model_ref : String
  pub role : Role
  pub layer_start : ℕ
  pub layer_end : ℕ
  pub peers : List String
  pub quantization : String
  pub draft : Bool

pub record RouteUpdate : Type 0 where
  pub model_id : String
  pub endpoint : String
  pub deployment_id : String
  pub quantization : String
  pub state : String

-- What stream.Recv returns: an event, or an error (io.EOF at the end).
pub data StreamItem : Type 0 where
  ready_event error_event : String → StreamItem
  other_event recv_error end_of_stream : StreamItem

abbrev pub state_provisioning : String
state_provisioning = "DEPLOYMENT_STATE_PROVISIONING"

abbrev pub state_active : String
state_active = "DEPLOYMENT_STATE_ACTIVE"

abbrev pub state_stopping : String
state_stopping = "DEPLOYMENT_STATE_STOPPING"

abbrev pub state_stopped : String
state_stopped = "DEPLOYMENT_STATE_STOPPED"

abbrev pub state_failed : String
state_failed = "DEPLOYMENT_STATE_FAILED"

-- the zero DeploymentDetail
abbrev pub no_detail : DeploymentDetail
no_detail = record {
  model_id = "";
  quantization = "";
  host_node_id = "";
  endpoint = "";
  engines = [];
  failover_plan_id = "";
  error = "";
}

module _ (Json Time : Type 0) where
  -- A call that changes something outside. The times of a row are those that the database keeps.
  pub data Call : Type 0 where
    create_deployment update_deployment : Deployment Json Time → Call
    append_audit : String → String → List (String × String) → Call
    start_engine : String → StartEngineRequest → Call
    stop_engine : String → String → Call
    upsert_route : RouteUpdate → Call
    delete_route : String → Call

  -- What the registry, the resolver and the agents answer after the calls made so far. The errors of
  -- the other calls are only logged.
  pub record Outside : Type 0 where
    pub zero_time : Time
    pub encode : DeploymentDetail → Json
    -- json.Unmarshal into a zero DeploymentDetail, whose error is dropped
    pub decode : Json → DeploymentDetail
    -- whether CreateDeployment returns nil
    pub creates : List Call → Deployment Json Time → Bool
    pub get_deployment : List Call → String → Option (Deployment Json Time)
    pub resolve : List Call → String → Option Endpoint
    -- what the stream yields until the step timeout; `none` is the error of StartEngine
    pub engine_stream : List Call → String → StartEngineRequest → Option (List StreamItem)
