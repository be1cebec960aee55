-- ===== src/Config/Diff.antt =====
-- Diff, go/controlplane/config/diff.go. The four answers of a Lister are arguments.
use purser.Prelude.{
  Bool, true, false, not, Option, none, some, List, [], ◌∷◌, String, if◌then◌else◌,
}
use purser.Config.Result.{Result, ok, ◌>>=◌}
use purser.Config.Types.{ModelSpec, DeploySpec, QuotaSpec, OrgSpec, NodePoolSpec, ClusterConfig}
use purser.Config.Validate.{has_key}

pub record DiffResult : Type 0 where
  pub models_to_add : List ModelSpec
  pub models_to_remove : List String
  pub deployments_to_add : List DeploySpec
  pub deployments_to_remove : List String
  pub quotas_to_upsert : List QuotaSpec
  pub orgs_to_add : List OrgSpec
  pub orgs_to_update : List OrgSpec
  pub node_pools_to_add : List NodePoolSpec
  pub node_pools_to_update : List NodePoolSpec
  pub node_pools_to_remove : List String

-- What the live registry answers, each an error or a list of IDs.
pub record Lister {ℓ} (E : Type ℓ) : Type ℓ where
  pub current_model_ids : Result E (List String)
  pub current_deployment_model_ids : Result E (List String)
  pub current_org_ids : Result E (List String)
  pub current_node_pool_ids : Result E (List String)

-- The loops of Diff, for specs with an ID each.
module _ {A : Type 0} (id : A → String) where
  -- the specs whose ID is in the set, or is not
  unfoldable pub select : Bool → List String → List A → List A
  select present ids [] = []
  select present ids (a ∷ specs) =
      let rest = select present ids specs in
      if present
      then (if has_key (id a) ids then a ∷ rest else rest)
      else (if has_key (id a) ids then rest else a ∷ rest)

  unfoldable pub ids_of : List A → List String
  ids_of [] = []
  ids_of (a ∷ specs) = id a ∷ ids_of specs

-- the IDs of the first list that are not in the second
unfoldable pub without : List String → List String → List String
without [] desired = []
without (i ∷ ids) desired =
    let rest = without ids desired in if not (has_key i desired) then i ∷ rest else rest

abbrev pub model_id : ModelSpec → String
model_id m = m.id

abbrev pub deploy_model : DeploySpec → String
deploy_model d = d.model

abbrev pub org_id : OrgSpec → String
org_id o = o.id

abbrev pub pool_id : NodePoolSpec → String
pool_id p = p.id

abbrev pub add_everything : ClusterConfig → DiffResult
add_everything cfg = record {
  models_to_add = cfg.models;
  models_to_remove = [];
  deployments_to_add = cfg.deployments;
  deployments_to_remove = [];
  quotas_to_upsert = cfg.quotas;
  orgs_to_add = cfg.orgs;
  orgs_to_update = [];
  node_pools_to_add = cfg.node_pools;
  node_pools_to_update = [];
  node_pools_to_remove = [];
}

abbrev pub compare_with :
    ClusterConfig → List String → List String → List String → List String → DiffResult
compare_with cfg models deployments orgs pools = record {
  models_to_add = select model_id false models cfg.models;
  models_to_remove = without models (ids_of model_id cfg.models);
  deployments_to_add = select deploy_model false deployments cfg.deployments;
  deployments_to_remove = without deployments (ids_of deploy_model cfg.deployments);
  quotas_to_upsert = cfg.quotas;
  orgs_to_add = select org_id false orgs cfg.orgs;
  orgs_to_update = select org_id true orgs cfg.orgs;
  node_pools_to_add = select pool_id false pools cfg.node_pools;
  node_pools_to_update = select pool_id true pools cfg.node_pools;
  node_pools_to_remove = without pools (ids_of pool_id cfg.node_pools);
}

-- A nil lister is `none`.
unfoldable pub diff {ℓ} : {E : Type ℓ} → ClusterConfig → Option (Lister E) → Result E DiffResult
diff cfg none = ok (add_everything cfg)
diff cfg (some lister) = do
  models ← lister.current_model_ids
  deployments ← lister.current_deployment_model_ids
  orgs ← lister.current_org_ids
  pools ← lister.current_node_pool_ids
  ok (compare_with cfg models deployments orgs pools)
