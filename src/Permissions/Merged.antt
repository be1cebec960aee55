-- ===== src/Permissions/Merged.antt =====
-- Has on the permissions that Merge gives, go/controlplane/permissions/engine.go.
use purser.Prelude.{
  Bool, true, false, ◌||◌, ◌≡◌, refl, sym, ◌∙◌, subst, List, [], ◌∷◌, inl, inr, arith, Bool-cases,
}
use purser.Permissions.Text.{Text, text_eq, text_eq_iff}
use purser.Permissions.Engine.{has, matches, contains, merge}
use purser.Permissions.Merge.{in_some, merge-union}

-- whether one of the sets has the permission
abbrev pub has_in_some : List (List Text) → Text → Bool
has_in_some [] required = false
has_in_some (ps ∷ sets) required = has ps required || has_in_some sets required

has-witness :
    (ps : List Text) (required : Text)
    → has ps required ≡ true
    → (p : Text) × (contains p ps ≡ true) × (matches p required ≡ true)
unfolding has contains
has-witness [] required h = absurd (ground (arith, h))
has-witness (p ∷ ps) required h = elim (Bool-cases (matches p required)) [
  | inl granted ↦ (p, ground (arith, (text_eq_iff p p).1 refl), granted)
  | inr other ↦
      let (q, among, granted) = has-witness ps required (rw other at h) in
      (q, ground (arith, among), granted)
]

has_of_witness :
    (ps : List Text) (required p : Text)
    → contains p ps ≡ true
    → matches p required ≡ true
    → has ps required ≡ true
unfolding has contains
has_of_witness [] required p among granted = absurd (ground (arith, among))
has_of_witness (q ∷ ps) required p among granted = elim (Bool-cases (text_eq q p)) [
  | inl same ↦
      let here : matches q required ≡ true =
        subst (λ x. matches x required ≡ true) (sym ((text_eq_iff q p).0 same)) granted in
      ground (arith, here)
  | inr other ↦ ground (arith, has_of_witness ps required p (rw other at among) granted)
]

some-witness :
    (sets : List (List Text)) (required : Text)
    → has_in_some sets required ≡ true
    → (p : Text) × (in_some p sets ≡ true) × (matches p required ≡ true)
some-witness [] required h = absurd (ground (arith, h))
some-witness (ps ∷ sets) required h = elim (Bool-cases (has ps required)) [
  | inl there ↦
      let (p, among, granted) = has-witness ps required there in (p, ground (arith, among), granted)
  | inr other ↦
      let (p, among, granted) = some-witness sets required (rw other at h) in
      (p, ground (arith, among), granted)
]

some_of_witness :
    (sets : List (List Text)) (required p : Text)
    → in_some p sets ≡ true
    → matches p required ≡ true
    → has_in_some sets required ≡ true
some_of_witness [] required p among granted = absurd (ground (arith, among))
some_of_witness (ps ∷ sets) required p among granted = elim (Bool-cases (contains p ps)) [
  | inl there ↦ ground (arith, has_of_witness ps required p there granted)
  | inr other ↦ ground (arith, some_of_witness sets required p (rw other at among) granted)
]

-- Merging sets neither adds a right nor loses one: Has answers for the merged permissions what it
-- answers for some of the sets, for every required permission, wildcards included.
pub has-merge :
    (sets : List (List Text)) (required : Text)
    → has (merge sets) required ≡ has_in_some sets required
has-merge sets required = elim (Bool-cases (has_in_some sets required)) [
  | inl there ↦
      let (p, among, granted) = some-witness sets required there in
      has_of_witness (merge sets) required p ((merge-union sets).0 p ∙ among) granted ∙ sym there
  | inr missing ↦ elim (Bool-cases (has (merge sets) required)) [
    | inr refused ↦ refused ∙ sym missing
    | inl there ↦
        let (p, among, granted) = has-witness (merge sets) required there in
        absurd (
          ground (
            arith,
            some_of_witness sets required p (sym ((merge-union sets).0 p) ∙ among) granted,
            missing,
          ))
  ]
]
