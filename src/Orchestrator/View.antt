-- ===== src/Orchestrator/View.antt =====
-- What the route reconciler, go/controlplane/orchestrator/route_reconciler.go, relies on at the Gateway,
-- and the keys of the routes that it wants.
use purser.Prelude.{
  Bool, true, false, ◌||◌, ◌≡◌, refl, sym, ap, ◌∙◌, inl, inr, Option, none, some, List, [], ◌∷◌,
  ◌++◌, map, String, str_eq, eq_iff, arith, Bool-cases,
}
use purser.Registry.Rows.{Deployment}
use purser.Orchestrator.Types.{DeploymentDetail, RouteUpdate, state_active}
use purser.Orchestrator.Routes.{
  Gateway, RouteMap, RouteError, upsert_failed, delete_failed, is_among, lookup, desired_from,
  routed_model, desired_one,
}

-- the model of an error
abbrev pub about : RouteError → String
about (upsert_failed m) = m
about (delete_failed m) = m

abbrev pub mentions : String → List RouteError → Bool
mentions m es = is_among m (map about es)

-- What the Gateway documents of its table: a call that returns nil sets or removes the route of its
-- model, no call touches another model, and the listing is complete.
pub record View (G : Gateway) : Type 0 where
  pub holds : G.Table → String → Option RouteUpdate
  pub upsert_own :
      (u : RouteUpdate) (t : G.Table)
      → (G.upsert_route u t).0 ≡ true
      → holds (G.upsert_route u t).1 u.model_id ≡ some u
  pub upsert_other :
      (u : RouteUpdate) (t : G.Table) (m : String)
      → str_eq u.model_id m ≡ false
      → holds (G.upsert_route u t).1 m ≡ holds t m
  pub delete_own :
      (m : String) (t : G.Table)
      → (G.delete_route m t).0 ≡ true
      → holds (G.delete_route m t).1 m ≡ none
  pub delete_other :
      (id : String) (t : G.Table) (m : String)
      → str_eq id m ≡ false
      → holds (G.delete_route id t).1 m ≡ holds t m
  pub listed :
      (t : G.Table) (ids : List String) (m : String)
      → G.list_routes t ≡ some ids
      → is_among m ids ≡ false
      → holds t m ≡ none

pub str_eq_self : (m : String) → str_eq m m ≡ true
str_eq_self m = (eq_iff m m).1 refl

pub mentions-append :
    (m : String) (xs ys : List RouteError)
    → mentions m (xs ++ ys) ≡ false
    → (mentions m xs ≡ false) × (mentions m ys ≡ false)
mentions-append m [] ys h = (refl, h)
mentions-append m (x ∷ xs) ys h = elim (Bool-cases (str_eq (about x) m)) [
  | inl same ↦ absurd (ground (arith, rw same at h))
  | inr other ↦ let ih = mentions-append m xs ys (rw other at h) in (rw other ih.0, ih.1)
]

-- Every route of the map is about its key.
abbrev pub IsKeyed : RouteMap → Type 0
IsKeyed d = (m : String) (u : RouteUpdate) → lookup m d ≡ some u → u.model_id ≡ m

some-injective : (u v : RouteUpdate) → some u ≡ some v → u ≡ v
some-injective u v h = ground (arith, h)

cons-IsKeyed : (d : RouteMap) (u : RouteUpdate) → IsKeyed d → IsKeyed ((u.model_id, u) ∷ d)
cons-IsKeyed d u keyed m v h = elim (Bool-cases (str_eq u.model_id m)) [
  | inl same ↦
      sym (ap (λ r. r.model_id) (some-injective u v (rw same at h))) ∙ (eq_iff u.model_id m).0 same
  | inr other ↦ keyed m v (rw other at h)
]

pub none-IsKeyed : IsKeyed []
none-IsKeyed m u h = absurd (ground (arith, h))

module _ (Json Time : Type 0) (has_detail : Json → Bool) (decode : Json → DeploymentDetail) where
  desired_one-IsKeyed :
      (dep : Deployment Json Time) (detail : DeploymentDetail) (out : RouteMap)
      → IsKeyed out
      → IsKeyed (desired_one Json Time has_detail decode dep detail out)
  unfolding desired_one
  desired_one-IsKeyed dep detail out keyed =
      let m = routed_model Json Time has_detail decode dep detail in
      elim (Bool-cases (str_eq dep.state state_active)) [
        | inr inactive ↦ rw inactive keyed
        | inl active ↦ elim (Bool-cases (str_eq m "" || str_eq detail.endpoint "")) [
          | inl unroutable ↦ rw (active, unroutable) keyed
          | inr routable ↦ rw (active, routable) (cons-IsKeyed out _ keyed)
        ]
      ]

  pub desired_from-IsKeyed :
      (deps : List (Deployment Json Time)) (out : RouteMap)
      → IsKeyed out
      → IsKeyed (desired_from Json Time has_detail decode deps out)
  unfolding desired_from
  desired_from-IsKeyed [] out keyed = keyed
  desired_from-IsKeyed (dep ∷ deps) out keyed =
      desired_from-IsKeyed deps _ (desired_one-IsKeyed dep _ out keyed)
