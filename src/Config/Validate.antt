-- ===== src/Config/Validate.antt =====
-- Validate, go/controlplane/config/validator.go. A map[string]bool is the list of its true keys.
use purser.Prelude.{
  Bool, true, false, not, ◌&&◌, ◌||◌, List, [], ◌∷◌, String, str_eq, if◌then◌else◌,
}
use purser.Config.Result.{Result, ok, err, ◌>>=◌, ◌>>◌}
use purser.Config.Types.{
  ModelSpec, DeploySpec, QuotaSpec, TeamMemberSpec, TeamSpec, OrgSpec, NodePoolSpec, ClusterConfig,
}

pub data ConfigError : Type 0 where
  api_version kind : String → ConfigError
  model_without_id : ConfigError
  duplicate_model : String → ConfigError
  source_type : String → String → ConfigError
  deployment_without_model : ConfigError
  unknown_model : String → ConfigError
  quota_without_team : ConfigError
  org_without_id : ConfigError
  duplicate_org : String → ConfigError
  team_without_id : String → ConfigError
  member_without_user : String → String → ConfigError
  pool_without_id : ConfigError
  duplicate_pool : String → ConfigError
  pool_policy : String → String → ConfigError
  pool_quotas : String → ConfigError

unfoldable pub has_key : String → List String → Bool
has_key k [] = false
has_key k (j ∷ keys) = str_eq j k || has_key k keys

abbrev pub known_source_types : List String
known_source_types = "huggingface" ∷ "s3" ∷ "local" ∷ "vertexai" ∷ "sagemaker" ∷ "azureml" ∷ []

abbrev pub check {ℓ} :
    {A : Type ℓ} → Bool → ConfigError → Result ConfigError A → Result ConfigError A
check bad e rest = if bad then err e else rest

-- The loop over the models, with the IDs so far; it returns all of them.
unfoldable pub check_models : List String → List ModelSpec → Result ConfigError (List String)
check_models ids [] = ok ids
check_models ids (m ∷ models) =
    let rest = check_models (m.id ∷ ids) models in
    check (str_eq m.id "") model_without_id (
      check (has_key m.id ids) (duplicate_model m.id) (
        check (not (str_eq m.source.kind "") && not (has_key m.source.kind known_source_types))
          (source_type m.id m.source.kind) rest))

unfoldable pub check_deployments : List String → List DeploySpec → Result ConfigError (Unit {0})
check_deployments ids [] = ok tt
check_deployments ids (d ∷ deployments) =
    let rest = check_deployments ids deployments in
    check (str_eq d.model "") deployment_without_model
      (check (not (has_key d.model ids)) (unknown_model d.model) rest)

unfoldable pub check_quotas : List QuotaSpec → Result ConfigError (Unit {0})
check_quotas [] = ok tt
check_quotas (q ∷ quotas) =
    let rest = check_quotas quotas in check (str_eq q.team "") quota_without_team rest

unfoldable pub check_members : String → String → List TeamMemberSpec → Result ConfigError (Unit {0})
check_members team org [] = ok tt
check_members team org (m ∷ members) =
    let rest = check_members team org members in
    check (str_eq m.user_id "") (member_without_user team org) rest

unfoldable pub check_teams : String → List TeamSpec → Result ConfigError (Unit {0})
unfolding check_members
check_teams org [] = ok tt
check_teams org (t ∷ teams) =
    let rest = check_teams org teams in
    check (str_eq t.id "") (team_without_id org) (check_members t.id org t.members >> rest)

unfoldable pub check_orgs : List String → List OrgSpec → Result ConfigError (Unit {0})
unfolding check_teams
check_orgs ids [] = ok tt
check_orgs ids (o ∷ orgs) =
    let rest = check_orgs (o.id ∷ ids) orgs in
    check (str_eq o.id "") org_without_id
      (check (has_key o.id ids) (duplicate_org o.id) (check_teams o.id o.teams >> rest))

abbrev pub is_empty {ℓ} : {A : Type ℓ} → List A → Bool
is_empty [] = true
is_empty (x ∷ xs) = false

unfoldable pub check_pools : List String → List NodePoolSpec → Result ConfigError (Unit {0})
check_pools ids [] = ok tt
check_pools ids (p ∷ pools) =
    let rest = check_pools (p.id ∷ ids) pools in
    check (str_eq p.id "") pool_without_id (
      check (has_key p.id ids) (duplicate_pool p.id) (
        check (not (str_eq p.policy "exclusive") && not (str_eq p.policy "shared"))
          (pool_policy p.id p.policy)
          (check (str_eq p.policy "exclusive" && not (is_empty p.quotas)) (pool_quotas p.id) rest)))

-- `ok` is the nil error. The team IDs that the code collects are used by nothing.
unfoldable pub validate : ClusterConfig → Result ConfigError (Unit {0})
unfolding check_models check_deployments check_quotas check_orgs check_pools
validate cfg = check (not (str_eq cfg.api_version "purser/v1")) (api_version cfg.api_version) (
    check (not (str_eq cfg.kind "ClusterConfig")) (ConfigError.kind cfg.kind) (do
      ids ← check_models [] cfg.models
      check_deployments ids cfg.deployments
      check_quotas cfg.quotas
      check_orgs [] cfg.orgs
      check_pools [] cfg.node_pools))
