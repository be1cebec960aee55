-- ===== src/License/Suggest.antt =====
-- What SuggestFeature and ValidateFeatures, enterprise/license/features.go, answer.
use purser.Prelude.{
  ℕ, ◌*◌, ◌≡◌, ◌↔◌, inl, inr, refl, true, not, ◌&&◌, ◌||◌, Option, none, some, List, [], ◌∷◌,
  length, ltb, arith, Bool-cases, Option-cases, subst, All, none-ne-some,
}
use mathlib.Core.Option.{some-injective}
use purser.Permissions.Text.{Text, text_eq}
use purser.License.Text.{is_empty}
use purser.License.Key.{is_listed}
use purser.License.Distance.{levenshtein}
use purser.License.Features.{
  known_features, is_known_feature, FeatureAlias, feature_aliases, find, is_found,
  ungated_capabilities, normalise_feature, nearest, suggest_feature, alias_or, flag_of,
  validate_feature, validate_features,
}

abbrev HasKnownFlags : List (Text × FeatureAlias) → Type 0
HasKnownFlags = All (λ e. is_known_feature (e.1.flag) ≡ true)

find-All :
    (k : Text) (entries : List (Text × FeatureAlias)) (a : FeatureAlias)
    → HasKnownFlags entries
    → find k entries ≡ some a
    → is_known_feature a.flag ≡ true
unfolding find
find-All k [] a h e = absurd (none-ne-some _ refl e)
find-All k ((j, b) ∷ entries) a h e = elim (Bool-cases (text_eq j k)) [
  | inl same ↦
      subst (λ x. is_known_feature x.flag ≡ true) (some-injective _ _ (rw (find, same) at e)) h.0
  | inr other ↦ find-All k entries a h.1 (rw (find, other) at e)
]

aliases_known : HasKnownFlags feature_aliases
unfolding is_known_feature is_listed text_eq
aliases_known = (
  refl,
  (
    refl,
    (refl, (refl, (refl, (refl, (refl, (refl, (refl, (refl, (refl, (refl, (refl, tt))))))))))),
  ),
)

known_known : All (λ f. is_known_feature f ≡ true) known_features
unfolding is_known_feature is_listed text_eq
known_known = (refl, (refl, (refl, (refl, (refl, (refl, (refl, tt)))))))

module _ (to_lower : ℕ → ℕ) where
  only_known :
      (f : Text) (d : ℕ)
      → is_known_feature f ≡ true
      → (c : Text × ℕ) → some (f, d) ≡ some c
      → is_known_feature c.0 ≡ true
  only_known f d h c e = subst (λ x. is_known_feature x.0 ≡ true) (some-injective _ _ e) h

  nearest-known :
      (norm : Text) (best : Option (Text × ℕ)) (known : List Text) (b : Text × ℕ)
      → All (λ f. is_known_feature f ≡ true) known
      → ((c : Text × ℕ) → best ≡ some c → is_known_feature c.0 ≡ true)
      → nearest to_lower norm best known ≡ some b
      → is_known_feature b.0 ≡ true
  unfolding nearest
  nearest-known norm best [] b h k e = k b e
  nearest-known norm none (f ∷ known) b h k e =
      let d = levenshtein norm f in
      elim (Bool-cases (ltb 3 d || ltb (length f) (d * 2))) [
        | inl far ↦ nearest-known norm none known b h.1 k (rw (nearest, far) at e)
        | inr near ↦
            nearest-known norm (some (f, d)) known b h.1 (only_known f d h.0)
              (rw (nearest, near) at e)
      ]
  nearest-known norm (some c) (f ∷ known) b h k e =
      let d = levenshtein norm f in
      elim (Bool-cases (ltb 3 d || ltb (length f) (d * 2))) [
        | inl far ↦ nearest-known norm (some c) known b h.1 k (rw (nearest, far) at e)
        | inr near ↦ elim (Bool-cases (ltb d c.1)) [
          | inl closer ↦
              nearest-known norm (some (f, d)) known b h.1 (only_known f d h.0)
                (rw (nearest, near, closer) at e)
          | inr kept ↦ nearest-known norm (some c) known b h.1 k (rw (nearest, near, kept) at e)
        ]
      ]

  by_flag :
      (found : Option FeatureAlias) (near : Option (Text × ℕ)) (flag : Text)
      → ((a : FeatureAlias) → found ≡ some a → is_known_feature a.flag ≡ true)
      → ((b : Text × ℕ) → near ≡ some b → is_known_feature b.0 ≡ true)
      → alias_or to_lower found (flag_of to_lower near) ≡ some flag
      → is_known_feature flag ≡ true
  by_flag (some a) near flag h k e =
      subst (λ f. is_known_feature f ≡ true) (some-injective _ _ e) (h a refl)
  by_flag none none flag h k e = absurd (none-ne-some _ refl e)
  by_flag none (some b) flag h k e =
      subst (λ f. is_known_feature f ≡ true) (some-injective _ _ e) (k b refl)

  -- A flag that SuggestFeature suggests is a known one.
  pub suggest_feature-known :
      (name flag : Text) → suggest_feature to_lower name ≡ some flag → is_known_feature flag ≡ true
  unfolding suggest_feature
  suggest_feature-known name flag e =
      let norm = normalise_feature to_lower name in
      elim (Bool-cases (is_empty norm)) [
        | inl empty ↦ absurd (none-ne-some _ refl (rw (suggest_feature, empty) at e))
        | inr full ↦ elim (Bool-cases (is_found (find norm ungated_capabilities))) [
          | inl ungated ↦ absurd (none-ne-some _ refl (rw (suggest_feature, full, ungated) at e))
          | inr gated ↦ elim (Bool-cases (is_known_feature norm && not (text_eq norm name))) [
            | inl slip ↦
                subst (λ f. is_known_feature f ≡ true)
                  (some-injective _ _ (rw (suggest_feature, full, gated, slip) at e))
                  (ground (arith, slip))
            | inr other ↦
                by_flag (find norm feature_aliases) (nearest to_lower norm none known_features) flag
                  (λ a found. find-All norm feature_aliases a aliases_known found)
                  (λ b near.
                    nearest-known norm none known_features b known_known
                      (λ c none_is. absurd (none-ne-some _ refl none_is)) near)
                  (rw (suggest_feature, full, gated, other) at e)
          ]
        ]
      ]

  validate_feature_iff :
      (name : Text) → (validate_feature to_lower name ≡ none) ↔ (is_known_feature name ≡ true)
  unfolding validate_feature
  validate_feature_iff name = elim (Bool-cases (is_known_feature name)) [
    | inl known ↦ rw known ((λ e. refl), (λ e. refl))
    | inr other ↦
        rw other ((λ e. absurd (none-ne-some _ e refl)), (λ e. absurd (ground (arith, e))))
  ]

  -- ValidateFeatures reports no error exactly when every flag is a known one.
  validate_features_iff :
      (names : List Text)
      → (validate_features to_lower names ≡ []) ↔ All (λ n. is_known_feature n ≡ true) names
  unfolding validate_features
  validate_features_iff [] = ((λ e. tt), (λ h. refl))
  validate_features_iff (n ∷ names) =
      let one = validate_feature_iff n in
      let rest = validate_features_iff names in
      elim (Option-cases (validate_feature to_lower n)) [
        | inl fine ↦ rw (validate_features, fine) ((λ e. (one.0 fine, rest.0 e)), (λ h. rest.1 h.1))
        | inr (bad, e) ↦
            rw (validate_features, e)
              ((λ h. absurd (ground (arith, h))), (λ h. absurd (none-ne-some _ (one.1 h.0) e)))
      ]
