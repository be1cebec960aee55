-- ===== src/Config/Converge.antt =====
-- What the result of Diff, go/controlplane/config/diff.go, does to the live sets of IDs.
use purser.Prelude.{
  true, false, ◌&&◌, List, [], ◌∷◌, ◌++◌, String, some, ◌≡◌, refl, ◌∙◌, sym, arith, eq_iff,
}
use purser.Config.Result.{ok}
use purser.Config.Types.{ClusterConfig}
use purser.Config.Validate.{has_key}
use purser.Config.Diff.{
  select, ids_of, without, model_id, deploy_model, org_id, pool_id, DiffResult, Lister, diff,
  compare_with,
}
use purser.Config.Keys.{
  has_key-append, has_key-without, has_key-select_absent, has_key-select_present,
}

abbrev pub HasSame : List String → List String → Type 0
HasSame xs ys = (i : String) → has_key i xs ≡ has_key i ys

-- Removing the one list of IDs from the live ones and adding the other leaves the desired ones;
-- nothing that is added is live, nothing that is removed is desired.
pub record Reaches (live desired removed added : List String) : Type 0 where
  pub reached : HasSame (without live removed ++ added) desired
  pub added_is_new : (i : String) → (has_key i added && has_key i live) ≡ false
  pub removed_is_live : (i : String) → has_key i removed ≡ true → has_key i live ≡ true
  pub kept_if_desired : (i : String) → (has_key i removed && has_key i desired) ≡ false

-- Each desired spec is added or updated, by whether its ID is live, and never both.
pub record Upserts (live desired added updated : List String) : Type 0 where
  pub each_is_upserted : HasSame (added ++ updated) desired
  pub added_is_new : (i : String) → (has_key i added && has_key i live) ≡ false
  pub updated_is_live : (i : String) → has_key i updated ≡ true → has_key i live ≡ true

module _ {A : Type 0} (id : A → String) (live : List String) (specs : List A) where
  abbrev added : List String
  added = ids_of id (select id false live specs)

  abbrev updated : List String
  updated = ids_of id (select id true live specs)

  abbrev removed : List String
  removed = without live (ids_of id specs)

  select-Reaches : Reaches live (ids_of id specs) removed added
  select-Reaches = record {
    reached = λ i. ground (
      arith,
      has_key-append i (without live removed) added,
      has_key-without i live removed,
      has_key-without i live (ids_of id specs),
      has_key-select_absent id i live specs,
    );
    added_is_new = λ i. ground (arith, has_key-select_absent id i live specs);
    removed_is_live = λ i h. ground (arith, has_key-without i live (ids_of id specs));
    kept_if_desired = λ i. ground (arith, has_key-without i live (ids_of id specs));
  }

  select-Upserts : Upserts live (ids_of id specs) added updated
  select-Upserts = record {
    each_is_upserted = λ i. ground (
      arith,
      has_key-append i added updated,
      has_key-select_absent id i live specs,
      has_key-select_present id i live specs,
    );
    added_is_new = λ i. ground (arith, has_key-select_absent id i live specs);
    updated_is_live = λ i h. ground (arith, has_key-select_present id i live specs);
  }

module _ {A : Type 0} (id : A → String) where
  none_absent :
      (live : List String) (specs : List A)
      → ((i : String) → has_key i (ids_of id specs) ≡ true → has_key i live ≡ true)
      → select id false live specs ≡ []
  unfolding select has_key ids_of
  none_absent live [] h = refl
  none_absent live (a ∷ specs) h =
      rw (h (id a) (here a specs), none_absent live specs (λ i k. h i (there a specs i k))) refl
    where
      here : (a : A) (specs : List A) → has_key (id a) (ids_of id (a ∷ specs)) ≡ true
      here a specs = rw ((eq_iff (id a) (id a)).1 refl) refl

      there :
          (a : A) (specs : List A) (i : String)
          → has_key i (ids_of id specs) ≡ true
          → has_key i (ids_of id (a ∷ specs)) ≡ true
      there a specs i k = ground arith

none_left :
    (live desired : List String)
    → ((i : String) → has_key i live ≡ true → has_key i desired ≡ true)
    → without live desired ≡ []
unfolding without has_key
none_left [] desired h = refl
none_left (j ∷ live) desired h =
    rw (h j (here j live), none_left live desired (λ i k. h i (there j live i k))) refl
  where
    here : (j : String) (live : List String) → has_key j (j ∷ live) ≡ true
    here j live = rw ((eq_iff j j).1 refl) refl

    there :
        (j : String) (live : List String) (i : String)
        → has_key i live ≡ true
        → has_key i (j ∷ live) ≡ true
    there j live i k = ground arith

-- What the four parts of a diff do to what is live.
pub record Converges (cfg : ClusterConfig) (models deployments orgs pools : List String)
    (r : DiffResult) : Type 0 where
  pub models_reached :
      Reaches models
        (ids_of model_id cfg.models)
        r.models_to_remove
        (ids_of model_id r.models_to_add)
  pub deployments_reached :
      Reaches deployments
        (ids_of deploy_model cfg.deployments)
        r.deployments_to_remove
        (ids_of deploy_model r.deployments_to_add)
  pub pools_reached :
      Reaches pools
        (ids_of pool_id cfg.node_pools)
        r.node_pools_to_remove
        (ids_of pool_id r.node_pools_to_add)
  pub pools_upserted :
      Upserts pools
        (ids_of pool_id cfg.node_pools)
        (ids_of pool_id r.node_pools_to_add)
        (ids_of pool_id r.node_pools_to_update)
  pub orgs_upserted :
      Upserts orgs
        (ids_of org_id cfg.orgs)
        (ids_of org_id r.orgs_to_add)
        (ids_of org_id r.orgs_to_update)
  pub quotas_kept : r.quotas_to_upsert ≡ cfg.quotas

module _ {E : Type 0} (cfg : ClusterConfig) (lister : Lister E)
    (models deployments orgs pools : List String) where
  abbrev pub Answers : Type 0
  Answers =
      (lister.current_model_ids ≡ ok models)
      × (lister.current_deployment_model_ids ≡ ok deployments)
      × (lister.current_org_ids ≡ ok orgs)
      × (lister.current_node_pool_ids ≡ ok pools)

  diff-Answers :
      Answers → diff cfg (some lister) ≡ ok (compare_with cfg models deployments orgs pools)
  unfolding diff
  diff-Answers h = rw (h.0, h.1, h.2, h.3) refl

  -- When the lister answers, Diff returns a result, and applying it leads from the live IDs to the
  -- desired ones: of models, deployments and node pools exactly the desired are left, nothing is
  -- added that is live and nothing desired or not live is removed; each desired organisation and
  -- node pool is added or updated as its ID is new or live; every quota is upserted.
  pub diff-Converges :
      Answers
      → (r : DiffResult) × (diff cfg (some lister) ≡ ok r)
        × Converges cfg models deployments orgs pools r
  diff-Converges h = (
    compare_with cfg models deployments orgs pools,
    diff-Answers h,
    record {
      models_reached = select-Reaches model_id models cfg.models;
      deployments_reached = select-Reaches deploy_model deployments cfg.deployments;
      pools_reached = select-Reaches pool_id pools cfg.node_pools;
      pools_upserted = select-Upserts pool_id pools cfg.node_pools;
      orgs_upserted = select-Upserts org_id orgs cfg.orgs;
      quotas_kept = refl;
    },
  )

  -- When the live models, deployments and node pools have exactly the desired IDs, Diff adds and
  -- removes none of them.
  pub diff-settled :
      Answers
      → HasSame models (ids_of model_id cfg.models)
      → HasSame deployments (ids_of deploy_model cfg.deployments)
      → HasSame pools (ids_of pool_id cfg.node_pools)
      → (r : DiffResult) × (diff cfg (some lister) ≡ ok r)
        × ((r.models_to_add ≡ []) × (r.models_to_remove ≡ []))
        × ((r.deployments_to_add ≡ []) × (r.deployments_to_remove ≡ []))
        × ((r.node_pools_to_add ≡ []) × (r.node_pools_to_remove ≡ []))
  diff-settled h same_models same_deployments same_pools = (
    compare_with cfg models deployments orgs pools,
    diff-Answers h,
    settled model_id models cfg.models same_models,
    settled deploy_model deployments cfg.deployments same_deployments,
    settled pool_id pools cfg.node_pools same_pools,
  )
    where
      settled :
          {A : Type 0} (id : A → String) (live : List String) (specs : List A)
          → HasSame live (ids_of id specs)
          → (select id false live specs ≡ []) × (without live (ids_of id specs) ≡ [])
      settled id live specs same = (
        none_absent id live specs (λ i k. same i ∙ k),
        none_left live (ids_of id specs) (λ i k. sym (same i) ∙ k),
      )
