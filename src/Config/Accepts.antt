-- ===== src/Config/Accepts.antt =====
-- Validate, go/controlplane/config/validator.go: exactly the valid configurations are accepted.
use purser.Prelude.{
  Bool, true, false, not, ◌&&◌, ◌||◌, List, [], ◌∷◌, String, ◌≡◌, ◌↔◌, refl, ap, ◌∙◌, arith, inl,
  inr, eq_iff, Bool-cases, str_eq, All,
}
use purser.Config.Result.{Result, ok, err, ◌>>=◌, ◌>>◌}
use purser.Config.Types.{
  ModelSpec, DeploySpec, QuotaSpec, TeamMemberSpec, TeamSpec, OrgSpec, NodePoolSpec, PoolQuotaSpec,
  ClusterConfig,
}
use purser.Config.Validate.{
  has_key, ConfigError, known_source_types, check_models, check_deployments, check_quotas,
  check_members, check_teams, check_orgs, check_pools, is_empty, validate, unknown_model,
}
use purser.Config.Diff.{ids_of, model_id, org_id, pool_id}
use purser.Config.Valid.{
  IsValid, IsSource, Deploys, HasTeam, HasUser, IsTeam, HasTeams, IsPool, Fresh, Fresh-iff,
  check_iff, then_iff, str_eq-false, ne-of_false, err-ne-ok,
}

ok-injective {ℓ κ} :
    {E : Type ℓ} {A : Type κ} {r : Result E A} (a b : A) → r ≡ ok a → r ≡ ok b → a ≡ b
ok-injective a b h k = cc

IsSource-iff :
    (m : ModelSpec)
    → ((not (str_eq m.source.kind "") && not (has_key m.source.kind known_source_types)) ≡ false)
      ↔ IsSource m
IsSource-iff m = (
  λ h. elim (Bool-cases (str_eq m.source.kind "")) [
    | inl none_given ↦ inl ((eq_iff m.source.kind "").0 none_given)
    | inr given ↦ inr (ground arith)
  ],
  λ s. either s,
)
  where
    either :
        IsSource m
        → (not (str_eq m.source.kind "") && not (has_key m.source.kind known_source_types)) ≡ false
    either (inl none_given) = ground (arith, (eq_iff m.source.kind "").1 none_given)
    either (inr known) = ground arith

models→ :
    (seen : List String) (models : List ModelSpec) (out : List String)
    → check_models seen models ≡ ok out
    → Fresh seen (ids_of model_id models)
      × All IsSource models
      × ((i : String) → has_key i out ≡ (has_key i seen || has_key i (ids_of model_id models)))
unfolding check_models has_key ids_of
models→ seen [] out h =
    (tt, tt, λ i. rw (ap (has_key i) (ok-injective out seen h refl)) (ground arith))
models→ seen (m ∷ models) out h =
    let p = (check_iff _ _ _ out).0 h in
    let q = (check_iff _ _ _ out).0 p.1 in
    let r = (check_iff _ _ _ out).0 q.1 in
    let (fresh, sources, keys) = models→ (m.id ∷ seen) models out r.1 in
    (
      (ne-of_false m.id "" p.0, q.0, fresh),
      ((IsSource-iff m).0 r.0, sources),
      λ i. ground (arith, keys i),
    )

→models :
    (seen : List String) (models : List ModelSpec)
    → Fresh seen (ids_of model_id models)
    → All IsSource models
    → (out : List String) × (check_models seen models ≡ ok out)
unfolding check_models ids_of
→models seen [] f a = (seen, refl)
→models seen (m ∷ models) f a =
    let (out, run) = →models (m.id ∷ seen) models f.2 a.1 in
    (
      out,
      (check_iff _ _ _ out).1 (
        str_eq-false m.id "" f.0,
        (check_iff _ _ _ out).1 (f.1, (check_iff _ _ _ out).1 ((IsSource-iff m).1 a.0, run)),
      ),
    )

deployments_iff :
    (ids models : List String) (deployments : List DeploySpec)
    → ((i : String) → has_key i ids ≡ has_key i models)
    → (check_deployments ids deployments ≡ ok tt) ↔ All (Deploys models) deployments
unfolding check_deployments
deployments_iff ids models [] same = (λ _. tt, λ _. refl)
deployments_iff ids models (d ∷ deployments) same =
    let rest = deployments_iff ids models deployments same in
    (
      λ h.
          let p = (check_iff _ _ _ tt).0 h in
          let q = (check_iff (not (has_key d.model ids)) (unknown_model d.model) _ tt).0 p.1 in
          ((ne-of_false d.model "" p.0, ground (arith, same d.model, q.0)), rest.0 q.1),
      λ a.
          let known : not (has_key d.model ids) ≡ false = ground (arith, same d.model, a.0.1) in
          (check_iff _ _ _ tt).1
            (str_eq-false d.model "" a.0.0, (check_iff _ _ _ tt).1 (known, rest.1 a.1)),
    )

quotas_iff : (quotas : List QuotaSpec) → (check_quotas quotas ≡ ok tt) ↔ All HasTeam quotas
unfolding check_quotas
quotas_iff [] = (λ _. tt, λ _. refl)
quotas_iff (q ∷ quotas) =
    let rest = quotas_iff quotas in
    (
      λ h. let p = (check_iff _ _ _ tt).0 h in (ne-of_false q.team "" p.0, rest.0 p.1),
      λ a. (check_iff _ _ _ tt).1 (str_eq-false q.team "" a.0, rest.1 a.1),
    )

members_iff :
    (team org : String) (members : List TeamMemberSpec)
    → (check_members team org members ≡ ok tt) ↔ All HasUser members
unfolding check_members
members_iff team org [] = (λ _. tt, λ _. refl)
members_iff team org (m ∷ members) =
    let rest = members_iff team org members in
    (
      λ h. let p = (check_iff _ _ _ tt).0 h in (ne-of_false m.user_id "" p.0, rest.0 p.1),
      λ a. (check_iff _ _ _ tt).1 (str_eq-false m.user_id "" a.0, rest.1 a.1),
    )

teams_iff :
    (org : String) (teams : List TeamSpec) → (check_teams org teams ≡ ok tt) ↔ All IsTeam teams
unfolding check_teams
teams_iff org [] = (λ _. tt, λ _. refl)
teams_iff org (t ∷ teams) =
    let members = members_iff t.id org t.members in
    let rest = teams_iff org teams in
    (
      λ h.
          let p = (check_iff _ _ _ tt).0 h in
          let q = (then_iff _ _ tt).0 p.1 in ((ne-of_false t.id "" p.0, members.0 q.0), rest.0 q.1),
      λ a.
          (check_iff _ _ _ tt).1
            (str_eq-false t.id "" a.0.0, (then_iff _ _ tt).1 (members.1 a.0.1, rest.1 a.1)),
    )

orgs_iff :
    (seen : List String) (orgs : List OrgSpec)
    → (check_orgs seen orgs ≡ ok tt) ↔ (Fresh seen (ids_of org_id orgs) × All HasTeams orgs)
unfolding check_orgs ids_of
orgs_iff seen [] = (λ _. (tt, tt), λ _. refl)
orgs_iff seen (o ∷ orgs) =
    let teams = teams_iff o.id o.teams in
    let rest = orgs_iff (o.id ∷ seen) orgs in
    (
      λ h.
          let p = (check_iff _ _ _ tt).0 h in
          let q = (check_iff _ _ _ tt).0 p.1 in
          let r = (then_iff _ _ tt).0 q.1 in
          let (fresh, teamed) = rest.0 r.1 in
          ((ne-of_false o.id "" p.0, q.0, fresh), (teams.0 r.0, teamed)),
      λ (f, a). (check_iff _ _ _ tt).1 (
        str_eq-false o.id "" f.0,
        (check_iff _ _ _ tt).1 (f.1, (then_iff _ _ tt).1 (teams.1 a.0, rest.1 (f.2, a.1))),
      ),
    )

abbrev unknown_policy : NodePoolSpec → Bool
unknown_policy p = not (str_eq p.policy "exclusive") && not (str_eq p.policy "shared")

abbrev has_idle_quotas : NodePoolSpec → Bool
has_idle_quotas p = str_eq p.policy "exclusive" && not (is_empty p.quotas)

policy→ : (p : NodePoolSpec) → unknown_policy p ≡ false → has_idle_quotas p ≡ false → IsPool p
policy→ p known bare = elim (Bool-cases (str_eq p.policy "exclusive")) [
  | inl exclusive ↦
      inl ((eq_iff p.policy "exclusive").0 exclusive, no_quotas p.quotas (ground arith))
  | inr other ↦ inr ((eq_iff p.policy "shared").0 (ground arith))
]
  where
    no_quotas : (quotas : List PoolQuotaSpec) → is_empty quotas ≡ true → quotas ≡ []
    no_quotas [] h = refl
    no_quotas (q ∷ quotas) h = absurd (ground arith)

→policy : (p : NodePoolSpec) → IsPool p → (unknown_policy p ≡ false) × (has_idle_quotas p ≡ false)
→policy p (inl (exclusive, none)) =
    (ground (arith, (eq_iff p.policy "exclusive").1 exclusive), rw none (ground arith))
→policy p (inr shared) = (ground (arith, (eq_iff p.policy "shared").1 shared), rw shared refl)

pools_iff :
    (seen : List String) (pools : List NodePoolSpec)
    → (check_pools seen pools ≡ ok tt) ↔ (Fresh seen (ids_of pool_id pools) × All IsPool pools)
unfolding check_pools ids_of
pools_iff seen [] = (λ _. (tt, tt), λ _. refl)
pools_iff seen (p ∷ pools) =
    let rest = pools_iff (p.id ∷ seen) pools in
    (
      λ h.
          let a = (check_iff _ _ _ tt).0 h in
          let b = (check_iff _ _ _ tt).0 a.1 in
          let c = (check_iff _ _ _ tt).0 b.1 in
          let d = (check_iff _ _ _ tt).0 c.1 in
          let (fresh, ruled) = rest.0 d.1 in
          ((ne-of_false p.id "" a.0, b.0, fresh), (policy→ p c.0 d.0, ruled)),
      λ (f, a).
          let (known, bare) = →policy p a.0 in
          (check_iff _ _ _ tt).1 (
            str_eq-false p.id "" f.0,
            (check_iff _ _ _ tt).1 (
              f.1,
              (check_iff _ _ _ tt).1 (known, (check_iff _ _ _ tt).1 (bare, rest.1 (f.2, a.1))),
            ),
          ),
    )

seen_none : (i : String) (keys : List String) → (has_key i [] || has_key i keys) ≡ has_key i keys
unfolding has_key
seen_none i keys = refl

abbrev after_models : ClusterConfig → List String → Result ConfigError (Unit {0})
after_models cfg ids =
    check_deployments ids cfg.deployments
    >> (check_quotas cfg.quotas >> (check_orgs [] cfg.orgs >> check_pools [] cfg.node_pools))

bind_ok {ℓ κ} :
    {A : Type ℓ} {B : Type κ} (m : Result ConfigError A) (f : A → Result ConfigError B) (b : B)
    → (m >>= f) ≡ ok b
    → (a : A) × (m ≡ ok a) × (f a ≡ ok b)
bind_ok (ok a) f b h = (a, refl, h)
bind_ok (err e) f b h = absurd (err-ne-ok e b refl h)

validate→ : (cfg : ClusterConfig) → validate cfg ≡ ok tt → IsValid cfg
unfolding validate
validate→ cfg h =
    let a = (check_iff (not (str_eq cfg.api_version "purser/v1")) _ _ tt).0 h in
    let b = (check_iff (not (str_eq cfg.kind "ClusterConfig")) _ _ tt).0 a.1 in
    let (ids, run, after) = bind_ok (check_models [] cfg.models) (after_models cfg) tt b.1 in
    let (fresh, sources, keys) = models→ [] cfg.models ids run in
    let d = (then_iff _ _ tt).0 after in
    let q = (then_iff _ _ tt).0 d.1 in
    let o = (then_iff _ _ tt).0 q.1 in
    let orgs = (orgs_iff [] cfg.orgs).0 o.0 in
    let pools = (pools_iff [] cfg.node_pools).0 o.1 in
    record {
      is_v1 = (eq_iff cfg.api_version "purser/v1").0 (ground (arith, a.0));
      is_config = (eq_iff cfg.kind "ClusterConfig").0 (ground (arith, b.0));
      models_distinct = (Fresh-iff (ids_of model_id cfg.models)).0 fresh;
      sources_known = sources;
      deployments_known =
          (deployments_iff ids (ids_of model_id cfg.models) cfg.deployments
              (λ i. keys i ∙ seen_none i (ids_of model_id cfg.models))).0
            d.0;
      quotas_owned = (quotas_iff cfg.quotas).0 q.0;
      orgs_distinct = (Fresh-iff (ids_of org_id cfg.orgs)).0 orgs.0;
      teams_named = orgs.1;
      pools_distinct = (Fresh-iff (ids_of pool_id cfg.node_pools)).0 pools.0;
      pools_ruled = pools.1;
    }

→validate : (cfg : ClusterConfig) → IsValid cfg → validate cfg ≡ ok tt
unfolding validate
→validate cfg v =
    let fresh = (Fresh-iff (ids_of model_id cfg.models)).1 v.models_distinct in
    let (ids, run) = →models [] cfg.models fresh v.sources_known in
    let keys = (models→ [] cfg.models ids run).2 in
    let known =
      (deployments_iff ids (ids_of model_id cfg.models) cfg.deployments
          (λ i. keys i ∙ seen_none i (ids_of model_id cfg.models))).1
        v.deployments_known in
    let orgs =
      (orgs_iff [] cfg.orgs).1
        ((Fresh-iff (ids_of org_id cfg.orgs)).1 v.orgs_distinct, v.teams_named) in
    let pools =
      (pools_iff [] cfg.node_pools).1
        ((Fresh-iff (ids_of pool_id cfg.node_pools)).1 v.pools_distinct, v.pools_ruled) in
    rw (v.is_v1, v.is_config, run, known, (quotas_iff cfg.quotas).1 v.quotas_owned, orgs, pools)
      refl

-- Validate returns no error exactly for the configurations with: the two fixed headers, model,
-- organisation and pool IDs that are given and distinct, known source types, deployments of declared
-- models, quotas with a team, teams with an ID whose members have a user ID, and pools that are shared,
-- or exclusive and without quotas. It sets no rule on the owner of a pool or on the role of a member.
pub validate_iff : (cfg : ClusterConfig) → (validate cfg ≡ ok tt) ↔ IsValid cfg
validate_iff cfg = (validate→ cfg, →validate cfg)
