-- ===== src/Raft/Rows.antt =====
-- What the state machine reads of go/controlplane/registry: a row, and the interface Registry with
-- the methods that it calls. Rows that it only hands over, and times, are parameters.
use purser.Prelude.{Bool, Option, List, String}
use purser.Audit.Encode.{Int64}
use purser.Config.Result.{Result}
use purser.Registry.Rows.{Deployment}

pub record Types : Type 1 where
  -- the errors, and the raw JSON of a payload
  pub E : Type 0
  pub Json : Type 0
  pub Time : Type 0
  pub Node : Type 0
  pub Link : Type 0
  pub Model : Type 0
  pub Plan : Type 0
  pub Cert : Type 0
  pub AuditEntry : Type 0

module _ (R : Types) where
  open R use {E, Json, Time, Node, Link, Model, Plan, Cert, AuditEntry}

  pub record ApiKey : Type 0 where
    pub id : String
    pub name : String
    pub key_hash : String
    pub tenant : String
    pub role : String
    pub quota : Int64
    pub enabled : Bool
    pub created_at : Time
    pub updated_at : Time
    pub expires_at : Option Time
    pub last_used_at : Option Time
    pub predecessor_id : String
    pub rotated_at : Option Time
    pub scopes : List String
    pub created_by : String

  pub record UpdateDeploymentStateArgs : Type 0 where
    pub id : String
    pub state : String

  pub record RecordUsageArgs : Type 0 where
    pub api_key_id : String
    pub model_id : String
    pub input_tokens : Int64
    pub output_tokens : Int64

  pub record RevokeApiKeyArgs : Type 0 where
    pub id : String

  -- json.Unmarshal at each type
  pub record Decoder : Type 0 where
    pub node : Json → Result E Node
    pub link : Json → Result E Link
    pub model : Json → Result E Model
    pub plan : Json → Result E Plan
    pub cert : Json → Result E Cert
    pub audit_entry : Json → Result E AuditEntry
    pub deployment : Json → Result E (Deployment Json Time)
    pub api_key : Json → Result E ApiKey
    pub text : Json → Result E String
    pub update_deployment_state_args : Json → Result E UpdateDeploymentStateArgs
    pub record_usage_args : Json → Result E RecordUsageArgs
    pub revoke_api_key_args : Json → Result E RevokeApiKeyArgs

  -- A method returns its error, `none` for nil, and the state after it.
  pub record Registry : Type 1 where
    pub State : Type 0
    pub create_node : Node → State → Option E × State
    pub update_node : Node → State → Option E × State
    pub delete_node : String → State → Option E × State
    pub upsert_link : Link → State → Option E × State
    pub create_model : Model → State → Option E × State
    pub update_model : Model → State → Option E × State
    pub delete_model : String → State → Option E × State
    pub create_plan : Plan → State → Option E × State
    pub delete_plan : String → State → Option E × State
    pub create_deployment : Deployment Json Time → State → Option E × State
    pub get_deployment : String → State → Result E (Deployment Json Time)
    pub update_deployment : Deployment Json Time → State → Option E × State
    pub delete_deployment : String → State → Option E × State
    pub create_api_key : ApiKey → State → Option E × State
    pub get_api_key : String → State → Result E ApiKey
    pub update_api_key : ApiKey → State → Option E × State
    pub delete_api_key : String → State → Option E × State
    pub create_cert : Cert → State → Option E × State
    pub update_cert : Cert → State → Option E × State
    pub delete_cert : String → State → Option E × State
    pub append_audit : AuditEntry → State → Option E × State
    pub record_usage : String → String → Int64 → Int64 → State → Option E × State
