-- ===== src/Permissions/Grants.antt =====
-- Which permissions a set grants.
use purser.Prelude.{
  ◌≡◌, ◌↔◌, ◌⊎◌, inl, inr, refl, Bool, true, ◌&&◌, ◌||◌, List, [], ◌∷◌, ◌++◌, arith, Bool-cases, ap,
  ◌∙◌, sym, subst,
}
use mathlib.Core.List.{append_assoc}
use purser.Permissions.Text.{
  Text, text, text_eq, text_eq_iff, has_prefix, has_prefix→append, has_prefix-append, has_suffix,
  has_suffix→append, has_suffix-append, trim_suffix, trim_suffix-append,
}
use purser.Permissions.Engine.{matches, has}

-- A permission grants itself, and `scope:*` grants all that begins with `scope:`.
abbrev pub Grants : Text → Text → Type 0
Grants p required =
    (p ≡ required)
    ⊎ ((scope : Text) × (rest : Text) × (p ≡ scope ++ text ":*")
        × (required ≡ scope ++ (text ":" ++ rest)))

abbrev pub AnyGrants : List Text → Text → Type 0
AnyGrants [] required = ⊥
AnyGrants (p ∷ effective) required = Grants p required ⊎ AnyGrants effective required

-- the prefix that a wildcard is cut to
trim_wildcard : (scope : Text) → trim_suffix (scope ++ text ":*") (text "*") ≡ scope ++ text ":"
trim_wildcard scope =
    ap (λ s. trim_suffix s (text "*")) (sym (append_assoc scope (text ":") (text "*")))
    ∙ trim_suffix-append (scope ++ text ":") (text "*")

wildcard→Grants :
    (scope required : Text)
    → has_prefix required (trim_suffix (scope ++ text ":*") (text "*")) ≡ true
    → Grants (scope ++ text ":*") required
wildcard→Grants scope required h =
    let (rest, e) = has_prefix→append required (scope ++ text ":") (rw trim_wildcard at h) in
    inr (scope, rest, refl, e ∙ append_assoc scope (text ":") rest)

inference→Grants :
    (p required : Text)
    → text_eq p (text "inference:*") ≡ true
    → has_prefix required (text "inference:") ≡ true
    → Grants p required
inference→Grants p required e h =
    let (rest, eq) = has_prefix→append required (text "inference:") h in
    inr (text "inference", rest, (text_eq_iff p (text "inference:*")).0 e, eq)

suffix→Grants :
    (p required : Text)
    → has_suffix p (text ":*") ≡ true
    → has_prefix required (trim_suffix p (text "*")) ≡ true
    → Grants p required
suffix→Grants p required wild h =
    let e = has_suffix→append p (text ":*") wild in
    subst (λ q. Grants q required) (sym e)
      (wildcard→Grants _ required
        (subst (λ q. has_prefix required (trim_suffix q (text "*")) ≡ true) e h))

or_cases : (a b c : Bool) → (a || b || c) ≡ true → (a ≡ true) ⊎ (b ≡ true) ⊎ (c ≡ true)
or_cases a b c h = ground arith

and_parts : (a b : Bool) → (a && b) ≡ true → (a ≡ true) × (b ≡ true)
and_parts a b h = ground arith

matches→Grants : (p required : Text) → matches p required ≡ true → Grants p required
unfolding matches
matches→Grants p required h = elim (or_cases _ _ _ h) [
  | inl same ↦ inl ((text_eq_iff p required).0 same)
  | inr (inl wild) ↦ let w = and_parts _ _ wild in suffix→Grants p required w.0 w.1
  | inr (inr inference) ↦ let w = and_parts _ _ inference in inference→Grants p required w.0 w.1
]

Grants→matches : (p required : Text) → Grants p required → matches p required ≡ true
unfolding matches
Grants→matches p required (inl e) = ground (arith, text_eq_iff p required)
Grants→matches p required (inr (scope, rest, e, e')) =
    let wild : has_suffix p (text ":*") ≡ true = rw e (has_suffix-append scope (text ":*")) in
    let starts : has_prefix required (trim_suffix p (text "*")) ≡ true =
      rw (e, trim_wildcard scope, e', ← append_assoc scope (text ":") rest)
        (has_prefix-append (scope ++ text ":") rest) in
    rw (wild, starts) (or_mid (text_eq p required) _)
  where
    or_mid : (a c : Bool) → (a || true || c) ≡ true
    or_mid a c = ground arith

has→AnyGrants :
    (effective : List Text) (required : Text)
    → has effective required ≡ true
    → AnyGrants effective required
unfolding has
has→AnyGrants [] required h = absurd (ground arith)
has→AnyGrants (p ∷ effective) required h = elim (Bool-cases (matches p required)) [
  | inl yes_p ↦ inl (matches→Grants p required yes_p)
  | inr no_p ↦ inr (has→AnyGrants effective required (rw no_p at h))
]

AnyGrants→has :
    (effective : List Text) (required : Text)
    → AnyGrants effective required
    → has effective required ≡ true
unfolding has
AnyGrants→has [] required h = absurd h
AnyGrants→has (p ∷ effective) required (inl g) = rw (Grants→matches p required g)
AnyGrants→has (p ∷ effective) required (inr g) = ground (arith, AnyGrants→has effective required g)

-- Has answers true exactly when some permission of the set is the required one, or is a wildcard
-- `scope:*` whose scope, with its colon, begins the required one.
pub has_iff :
    (effective : List Text) (required : Text)
    → (has effective required ≡ true) ↔ AnyGrants effective required
has_iff effective required = (has→AnyGrants effective required, AnyGrants→has effective required)
