-- ===== src/Check/Config.antt =====
-- A small configuration.
use purser.Prelude.{ℕ, ◌≡◌, ◌↔◌, refl, true, none, some, List, [], ◌∷◌, String}
use purser.Config.Result.{ok}
use purser.Config.Types.{ClusterConfig, ModelSpec, DeploySpec, NodePoolSpec}
use purser.Config.Validate.{validate}
use purser.Config.Diff.{diff, ids_of, Lister, DiffResult}
use purser.Config.Valid.{IsValid}
use purser.Config.Accepts.{validate_iff}
use purser.Config.Converge.{Converges, diff-Converges, diff-settled}

abbrev model : String → ModelSpec
model id = record {
  id = id;
  source = record { kind = "local"; repo = ""; bucket_url = ""; path = "/m" };
  quantizations = [];
  description = "";
  max_context_len = 0;
}

abbrev deploy : String → DeploySpec
deploy id = record {
  model = id;
  quantization = "q4";
  min_nodes = 1;
  max_nodes = 2;
  approved = true;
}

abbrev pool : String → NodePoolSpec
pool id = record {
  id = id;
  name = "";
  description = "";
  owner_type = "";
  owner_id = "";
  policy = "shared";
  nodes = [];
  quotas = [];
}

abbrev cfg : ClusterConfig
cfg = record {
  api_version = "purser/v1";
  kind = "ClusterConfig";
  metadata = record { name = "lab"; labels = []; annotations = [] };
  cluster = record { id = "c" };
  models = model "a" ∷ model "b" ∷ [];
  deployments = deploy "a" ∷ [];
  quotas = [];
  gateway = record { port = 0; body_limit_mb = 0 };
  orgs = [];
  node_pools = pool "p" ∷ [];
  ldap = none;
  quorum = none;
}

abbrev live : List String → List String → List String → Lister ℕ
live models deployments pools = record {
  current_model_ids = ok models;
  current_deployment_model_ids = ok deployments;
  current_org_ids = ok [];
  current_node_pool_ids = ok pools;
}

validate_iff_example : (validate cfg ≡ ok tt) ↔ IsValid cfg
validate_iff_example = validate_iff cfg

abbrev old : List String
old = "b" ∷ "c" ∷ []

diff-Converges_example :
    (r : DiffResult) × (diff cfg (some (live old old old)) ≡ ok r) × Converges cfg old old [] old r
diff-Converges_example =
    diff-Converges cfg (live old old old) old old [] old (refl, refl, refl, refl)

diff-settled_example :
    (r : DiffResult) × (diff cfg (some (live ("a" ∷ "b" ∷ []) ("a" ∷ []) ("p" ∷ []))) ≡ ok r)
    × ((r.models_to_add ≡ []) × (r.models_to_remove ≡ []))
    × ((r.deployments_to_add ≡ []) × (r.deployments_to_remove ≡ []))
    × ((r.node_pools_to_add ≡ []) × (r.node_pools_to_remove ≡ []))
unfolding ids_of
diff-settled_example =
    diff-settled cfg (live ("a" ∷ "b" ∷ []) ("a" ∷ []) ("p" ∷ [])) ("a" ∷ "b" ∷ []) ("a" ∷ []) []
      ("p" ∷ []) (refl, refl, refl, refl) (λ i. refl) (λ i. refl) (λ i. refl)
