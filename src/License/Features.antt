-- ===== src/License/Features.antt =====
-- The feature flags of enterprise/license/features.go. unicode.ToLower is the parameter `to_lower`. A
-- text is the list of its runes; the text of a reason is a string that is only printed.
use purser.Prelude.{
  ℕ, ◌*◌, Bool, true, false, not, ◌&&◌, ◌||◌, Option, none, some, List, [], ◌∷◌, map, String,
  if◌then◌else◌, length, ltb, ◌==◌,
}
use purser.Permissions.Text.{Text, text, text_eq}
use purser.License.Text.{is_empty, trim_space}
use purser.License.Key.{is_listed}
use purser.License.Distance.{levenshtein}

abbrev pub known_features : List Text
known_features =
    text "audit"
    ∷ text "policy_engine"
    ∷ text "billing"
    ∷ text "deployment_approvals"
    ∷ text "inference_audit"
    ∷ text "gdpr"
    ∷ text "ai_act_compliance"
    ∷ []

unfoldable pub is_known_feature : Text → Bool
unfolding is_listed
is_known_feature name = is_listed known_features name

unfoldable pub unknown_features : List Text → List Text
unfolding is_known_feature
unknown_features [] = []
unknown_features (n ∷ names) =
    let rest = unknown_features names in if not (is_known_feature n) then n ∷ rest else rest

pub record FeatureAlias : Type 0 where
  pub flag : Text
  pub why : String

abbrev alias : String → String → String → Text × FeatureAlias
alias name flag why = (text name, record { flag = text flag; why = why })

abbrev pub feature_aliases : List (Text × FeatureAlias)
feature_aliases =
    alias "chargeback" "billing"
      "\"chargeback\" is the product name; the licence flag for that capability is \"billing\""
    ∷ alias "finops" "billing" "the FinOps / chargeback capability is gated on \"billing\""
    ∷ alias "usage_accounting" "billing"
        "usage accounting is part of the chargeback capability, gated on \"billing\""
    ∷ alias "opa_policies" "policy_engine"
        "\"opa_policies\" is not a flag; the Policy-as-Code capability is gated on \"policy_engine\""
    ∷ alias "opa" "policy_engine" "the OPA/Rego policy capability is gated on \"policy_engine\""
    ∷ alias "rego" "policy_engine" "the OPA/Rego policy capability is gated on \"policy_engine\""
    ∷ alias "policy_as_code" "policy_engine"
        "\"Policy-as-Code\" is the product name; the licence flag is \"policy_engine\""
    ∷ alias "policies" "policy_engine" "the policy capability is gated on \"policy_engine\""
    ∷ alias "audit_log" "audit" "the tamper-evident control-plane audit log is gated on \"audit\""
    ∷ alias "ai_act" "ai_act_compliance"
        "the AI Act technical-documentation capability is gated on \"ai_act_compliance\""
    ∷ alias "approvals" "deployment_approvals"
        "the approval-gate capability is gated on \"deployment_approvals\""
    ∷ alias "right_to_erasure" "gdpr" "the GDPR right-to-erasure capability is gated on \"gdpr\""
    ∷ alias "inference_logging" "inference_audit"
        "per-request inference records are gated on \"inference_audit\""
    ∷ []

abbrev pub ungated_capabilities : List (Text × String)
ungated_capabilities =
    (
      text "ha",
      "the Raft HA control plane is shipped and ungated — no licence flag is checked for it, so a key does not need one",
    )
    ∷ (text "rbac", "RBAC is always enforced in every edition and is never a licence feature")
    ∷ (text "sso", "SSO / OIDC / SAML sign-in is always available and is never a licence feature")
    ∷ (text "oidc", "OIDC sign-in is always available and is never a licence feature")
    ∷ (text "saml", "SAML sign-in is always available and is never a licence feature")
    ∷ (
      text "ldap",
      "LDAP / Active Directory integration is always available and is never a licence feature",
    )
    ∷ (
      text "fleet_scale",
      "\"fleet-scale\" covered several capabilities at once and gates nothing; Ansible enrollment and the internal CA are shipped and ungated, while MDM, golden-image enrollment, signed air-gap bundles and multi-cluster management are roadmap",
    )
    ∷ (
      text "slo",
      "SLO contracts are shipped and ungated — GET /api/v1/slo/compliance answers without a key",
    )
    ∷ (
      text "what_if",
      "the what-if planner is shipped and ungated — POST /api/v1/planner/what-if answers without a key",
    )
    ∷ (text "planner", "the planner is part of the MIT core and is never a licence feature")
    ∷ (text "pki", "the internal CA / PKI is shipped and ungated")
    ∷ (
      text "multicluster",
      "multi-cluster fleet management has no implementation in this release and gates nothing",
    )
    ∷ []

-- a look-up in a map with text keys
unfoldable pub find {ℓ} : {A : Type ℓ} → Text → List (Text × A) → Option A
find k [] = none
find k ((j, a) ∷ entries) = let rest = find k entries in if text_eq j k then some a else rest

abbrev pub is_found {ℓ} : {A : Type ℓ} → Option A → Bool
is_found none = false
is_found (some a) = true

-- strings.ReplaceAll(s, "-", "_")
abbrev pub underscore : ℕ → ℕ
underscore c = if c == 45 then 95 else c

module _ (to_lower : ℕ → ℕ) where
  unfoldable pub normalise_feature : Text → Text
  normalise_feature name = map underscore (map to_lower (trim_space name))

  -- the loop over the known flags, with `best` and `bestDist`; -1 is `none`
  unfoldable pub nearest : Text → Option (Text × ℕ) → List Text → Option (Text × ℕ)
  nearest norm best [] = best
  nearest norm best (known ∷ rest) =
      let d = levenshtein norm known in
      let kept = nearest norm best rest in
      let closer = nearest norm (some (known, d)) rest in
      if ltb 3 d || ltb (length known) (d * 2)
      then kept
      else elim best [ none ↦ closer | some b ↦ if ltb d b.1 then closer else kept ]

  abbrev pub flag_of : Option (Text × ℕ) → Option Text
  flag_of none = none
  flag_of (some b) = some b.0

  abbrev pub alias_or : Option FeatureAlias → Option Text → Option Text
  alias_or none found = found
  alias_or (some a) found = some a.flag

  unfoldable pub suggest_feature : Text → Option Text
  unfolding normalise_feature nearest is_known_feature find
  suggest_feature name =
      let norm = normalise_feature name in
      if is_empty norm
      then none
      else if is_found (find norm ungated_capabilities)
      then none
      else if is_known_feature norm && not (text_eq norm name)
      then some norm
      else alias_or (find norm feature_aliases) (flag_of (nearest norm none known_features))

  -- "" for no reason and `none` for no suggestion
  pub record UnknownFeatureError : Type 0 where
    pub feature : Text
    pub suggestion : Option Text
    pub reason : String

  abbrev pub explain :
      Text → Option String → Option FeatureAlias → Option Text → UnknownFeatureError
  explain name (some reason) a s = record { feature = name; suggestion = none; reason = reason }
  explain name none (some a) s = record { feature = name; suggestion = some a.flag; reason = a.why }
  explain name none none s = record { feature = name; suggestion = s; reason = "" }

  unfoldable pub validate_feature : Text → Option UnknownFeatureError
  unfolding is_known_feature suggest_feature
  validate_feature name =
      let norm = normalise_feature name in
      if is_known_feature name
      then none
      else some (
          explain name (find norm ungated_capabilities) (find norm feature_aliases)
            (suggest_feature name))

  -- the errors that are joined; nil is the empty list
  unfoldable pub validate_features : List Text → List UnknownFeatureError
  unfolding validate_feature
  validate_features [] = []
  validate_features (n ∷ names) =
      let rest = validate_features names in
      elim (validate_feature n) [ none ↦ rest | some e ↦ e ∷ rest ]
