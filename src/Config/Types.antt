-- ===== src/Config/Types.antt =====
-- The purser.yaml schema, go/controlplane/config/types.go, without its slo block, which neither
-- validation nor the diff reads. An `int` field that nothing computes with is a
-- natural number.
use purser.Prelude.{ℕ, Bool, Option, String, List}
use purser.Audit.Encode.{Int64}

pub record Metadata : Type 0 where
  pub name : String
  pub labels : List (String × String)
  pub annotations : List (String × String)

pub record ClusterSpec : Type 0 where
  pub id : String

pub record SourceSpec : Type 0 where
  pub kind : String
  pub repo : String
  pub bucket_url : String
  pub path : String

pub record ModelSpec : Type 0 where
  pub id : String
  pub source : SourceSpec
  pub quantizations : List String
  pub description : String
  pub max_context_len : ℕ

pub record DeploySpec : Type 0 where
  pub model : String
  pub quantization : String
  pub min_nodes : ℕ
  pub max_nodes : ℕ
  pub approved : Bool

pub record QuotaSpec : Type 0 where
  pub team : String
  pub monthly_requests : ℕ
  pub monthly_tokens : ℕ

pub record GatewaySpec : Type 0 where
  pub port : ℕ
  pub body_limit_mb : ℕ

pub record TeamMemberSpec : Type 0 where
  pub user_id : String
  pub role : String

pub record TeamSpec : Type 0 where
  pub id : String
  pub name : String
  pub slug : String
  pub description : String
  pub members : List TeamMemberSpec

pub record OrgSpec : Type 0 where
  pub id : String
  pub name : String
  pub slug : String
  pub description : String
  pub teams : List TeamSpec

pub record PoolQuotaSpec : Type 0 where
  pub team_id : String
  pub max_deployments : ℕ
  pub max_gpu_nodes : ℕ
  pub priority : ℕ

pub record NodePoolSpec : Type 0 where
  pub id : String
  pub name : String
  pub description : String
  pub owner_type : String
  pub owner_id : String
  pub policy : String
  pub nodes : List String
  pub quotas : List PoolQuotaSpec

pub record QuorumConfig : Type 0 where
  pub min_approvers : ℕ
  pub reviewer_keys : List String
  pub require_distinct : Bool

pub record LdapGroupMapping : Type 0 where
  pub dn : String
  pub role : String

-- The time to live may be -1.
pub record LdapConfig : Type 0 where
  pub group_mappings : List LdapGroupMapping
  pub nested_groups : Bool
  pub group_cache_ttl_s : Int64
  pub default_role : String

pub record ClusterConfig : Type 0 where
  pub api_version : String
  pub kind : String
  pub metadata : Metadata
  pub cluster : ClusterSpec
  pub models : List ModelSpec
  pub deployments : List DeploySpec
  pub quotas : List QuotaSpec
  pub gateway : GatewaySpec
  pub orgs : List OrgSpec
  pub node_pools : List NodePoolSpec
  pub ldap : Option LdapConfig
  pub quorum : Option QuorumConfig
