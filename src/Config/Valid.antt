-- ===== src/Config/Valid.antt =====
-- What a nil error of Validate, go/controlplane/config/validator.go, says of the configuration.
use purser.Prelude.{
  Bool, true, false, List, [], ◌∷◌, String, ◌≡◌, ◌≢◌, ◌↔◌, refl, ◌∙◌, arith, ◌⊎◌, inl, inr, eq_iff,
  Bool-cases, str_eq, All,
}
use purser.Config.Result.{Result, ok, err, ◌>>◌}
use purser.Config.Types.{
  ModelSpec, DeploySpec, QuotaSpec, TeamMemberSpec, TeamSpec, OrgSpec, NodePoolSpec, ClusterConfig,
}
use purser.Config.Validate.{has_key, ConfigError, known_source_types, check}
use purser.Config.Diff.{ids_of, model_id, org_id, pool_id}
use purser.Config.Keys.{has_key-eq}

-- No ID is empty, and none occurs twice.
abbrev pub Distinct : List String → Type 0
Distinct [] = Unit {0}
Distinct (i ∷ ids) = (i ≢ "") × (has_key i ids ≡ false) × Distinct ids

abbrev pub IsSource : ModelSpec → Type 0
IsSource m = (m.source.kind ≡ "") ⊎ (has_key m.source.kind known_source_types ≡ true)

abbrev pub Deploys : List String → DeploySpec → Type 0
Deploys models d = (d.model ≢ "") × (has_key d.model models ≡ true)

abbrev pub HasTeam : QuotaSpec → Type 0
HasTeam q = q.team ≢ ""

abbrev pub HasUser : TeamMemberSpec → Type 0
HasUser m = m.user_id ≢ ""

abbrev pub IsTeam : TeamSpec → Type 0
IsTeam t = (t.id ≢ "") × All HasUser t.members

abbrev pub HasTeams : OrgSpec → Type 0
HasTeams o = All IsTeam o.teams

-- A pool is exclusive without quotas, or shared.
abbrev pub IsPool : NodePoolSpec → Type 0
IsPool p = ((p.policy ≡ "exclusive") × (p.quotas ≡ [])) ⊎ (p.policy ≡ "shared")

pub record IsValid (cfg : ClusterConfig) : Type 0 where
  pub is_v1 : cfg.api_version ≡ "purser/v1"
  pub is_config : cfg.kind ≡ "ClusterConfig"
  pub models_distinct : Distinct (ids_of model_id cfg.models)
  pub sources_known : All IsSource cfg.models
  pub deployments_known : All (Deploys (ids_of model_id cfg.models)) cfg.deployments
  pub quotas_owned : All HasTeam cfg.quotas
  pub orgs_distinct : Distinct (ids_of org_id cfg.orgs)
  pub teams_named : All HasTeams cfg.orgs
  pub pools_distinct : Distinct (ids_of pool_id cfg.node_pools)
  pub pools_ruled : All IsPool cfg.node_pools

pub str_eq-false : (a b : String) → a ≢ b → str_eq a b ≡ false
str_eq-false a b ne = elim (Bool-cases (str_eq a b)) [
  | inl same ↦ absurd (ne ((eq_iff a b).0 same))
  | inr other ↦ other
]

pub ne-of_false : (a b : String) → str_eq a b ≡ false → a ≢ b
ne-of_false a b other e = absurd (ground (arith, (eq_iff a b).1 e))

pub err-ne-ok {ℓ κ} :
    {E : Type ℓ} {A : Type κ} (e : E) (a : A) {r : Result E A} → r ≡ err e → r ≡ ok a → ⊥
err-ne-ok e a h k = cc

pub check_iff {ℓ} :
    {A : Type ℓ} (bad : Bool) (e : ConfigError) (rest : Result ConfigError A) (a : A)
    → (check bad e rest ≡ ok a) ↔ ((bad ≡ false) × (rest ≡ ok a))
check_iff true e rest a = (λ h. absurd (err-ne-ok e a refl h), λ h. absurd (ground arith))
check_iff false e rest a = (λ h. (refl, h), λ h. h.1)

pub then_iff {ℓ} :
    {A : Type ℓ} (m : Result ConfigError (Unit {0})) (rest : Result ConfigError A) (a : A)
    → ((m >> rest) ≡ ok a) ↔ ((m ≡ ok tt) × (rest ≡ ok a))
then_iff (ok tt) rest a = (λ h. (refl, h), λ h. h.1)
then_iff (err e) rest a =
    (λ h. absurd (err-ne-ok e a refl h), λ h. absurd (err-ne-ok e tt refl h.0))

-- No ID is empty, in the set, or occurs twice: what the loops with a set of seen IDs test.
abbrev pub Fresh : List String → List String → Type 0
Fresh seen [] = Unit {0}
Fresh seen (i ∷ ids) = (i ≢ "") × (has_key i seen ≡ false) × Fresh (i ∷ seen) ids

abbrev Avoids : List String → List String → Type 0
Avoids seen ids = (i : String) → has_key i ids ≡ true → has_key i seen ≡ false

Fresh→ : (seen ids : List String) → Fresh seen ids → Distinct ids × Avoids seen ids
unfolding has_key
Fresh→ seen [] f = (tt, λ i h. absurd (ground arith))
Fresh→ seen (j ∷ ids) f =
    let (distinct, avoids) = Fresh→ (j ∷ seen) ids f.2 in
    (
      (f.0, apart (has_key j ids) (λ h. avoids j h), distinct),
      λ i h. elim (Bool-cases (str_eq j i)) [
        | inl same ↦ has_key-eq j i seen same ∙ f.1
        | inr other ↦ later i other (avoids i (rw other at h))
      ],
    )
  where
    apart : (b : Bool) → (b ≡ true → has_key j (j ∷ seen) ≡ false) → b ≡ false
    apart true k = absurd (ground (arith, k refl, (eq_iff j j).1 refl))
    apart false k = refl

    later :
        (i : String) → str_eq j i ≡ false → has_key i (j ∷ seen) ≡ false → has_key i seen ≡ false
    later i other k = ground arith

→Fresh : (seen ids : List String) → Distinct ids → Avoids seen ids → Fresh seen ids
unfolding has_key
→Fresh seen [] d a = tt
→Fresh seen (j ∷ ids) d a = (
  d.0,
  a j (first j),
  →Fresh (j ∷ seen) ids d.2 (λ i h. elim (Bool-cases (str_eq j i)) [
    | inl same ↦ absurd (ground (arith, has_key-eq j i ids same, d.1))
    | inr other ↦ rw other (a i (ground arith))
  ]),
)
  where
    first : (j : String) → has_key j (j ∷ ids) ≡ true
    first j = ground (arith, (eq_iff j j).1 refl)

pub Fresh-iff : (ids : List String) → Fresh [] ids ↔ Distinct ids
unfolding has_key
Fresh-iff ids = (λ f. (Fresh→ [] ids f).0, λ d. →Fresh [] ids d (λ i h. refl))
