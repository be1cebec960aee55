-- ===== src/Check/Routes.antt =====
-- A pass of the route reconciler on a Gateway that refuses one model.
use purser.Prelude.{
  ℕ, true, false, ◌≡◌, refl, sym, subst, inl, inr, none, some, List, [], ◌∷◌, String, str_eq,
  eq_iff, if◌then◌else◌, arith, Bool-cases,
}
use purser.Registry.Rows.{Deployment}
use purser.Orchestrator.Types.{DeploymentDetail, RouteUpdate, state_active, no_detail}
use purser.Orchestrator.Routes.{
  Gateway, RouteMap, converge, push_routes, each, desired_from, desired_one, routed_model, push_one,
  delete_stale, observe, delete_one, upsert_failed, is_among, lookup, Routing, reconcile,
  desired_routes,
}
use purser.Orchestrator.View.{View}
use purser.Orchestrator.Converged.{reconcile-settles}

abbrev keys : RouteMap → List String
keys [] = []
keys (r ∷ d) = r.0 ∷ keys d

abbrev remove : String → RouteMap → RouteMap
remove m [] = []
remove m (r ∷ d) = let rest = remove m d in if str_eq r.0 m then rest else r ∷ rest

abbrev gateway : Gateway
gateway = record {
  Table = RouteMap;
  upsert_route = λ u t. if str_eq u.model_id "bad" then (false, t) else (true, (u.model_id, u) ∷ t);
  delete_route = λ m t. (true, remove m t);
  list_routes = λ t. some (keys t);
}

keys_complete : (d : RouteMap) (m : String) → is_among m (keys d) ≡ false → lookup m d ≡ none
keys_complete [] m h = refl
keys_complete (r ∷ d) m h = elim (Bool-cases (str_eq r.0 m)) [
  | inl same ↦ absurd (ground (arith, rw same at h))
  | inr other ↦ rw other (keys_complete d m (rw other at h))
]

keys_all :
    (d : RouteMap) (m : String) (u : RouteUpdate) → lookup m d ≡ some u → is_among m (keys d) ≡ true
keys_all [] m u h = absurd (ground (arith, h))
keys_all (r ∷ d) m u h = elim (Bool-cases (str_eq r.0 m)) [
  | inl same ↦ rw same refl
  | inr other ↦ rw other (keys_all d m u (rw other at h))
]

remove_own : (d : RouteMap) (m : String) → lookup m (remove m d) ≡ none
remove_own [] m = refl
remove_own (r ∷ d) m = elim (Bool-cases (str_eq r.0 m)) [
  | inl same ↦ rw same (remove_own d m)
  | inr other ↦ rw (other, other) (remove_own d m)
]

remove_other :
    (d : RouteMap) (id m : String) → str_eq id m ≡ false → lookup m (remove id d) ≡ lookup m d
remove_other [] id m h = refl
remove_other (r ∷ d) id m h = elim (Bool-cases (str_eq r.0 id)) [
  | inl same ↦ rw (same, (eq_iff r.0 id).0 same, h) (remove_other d id m h)
  | inr other ↦ rw other (elim (Bool-cases (str_eq r.0 m)) [
    | inl found ↦ rw found refl
    | inr not_here ↦ rw not_here (remove_other d id m h)
  ])
]

upsert_own_lem :
    (u : RouteUpdate) (t : RouteMap)
    → (gateway.upsert_route u t).0 ≡ true
    → lookup u.model_id (gateway.upsert_route u t).1 ≡ some u
upsert_own_lem u t h = elim (Bool-cases (str_eq u.model_id "bad")) [
  | inl refused ↦ absurd (ground (arith, rw refused at h))
  | inr fine ↦ rw (fine, (eq_iff u.model_id u.model_id).1 refl) refl
]

upsert_other_lem :
    (u : RouteUpdate) (t : RouteMap) (m : String)
    → str_eq u.model_id m ≡ false
    → lookup m (gateway.upsert_route u t).1 ≡ lookup m t
upsert_other_lem u t m h = elim (Bool-cases (str_eq u.model_id "bad")) [
  | inl refused ↦ rw refused refl
  | inr fine ↦ rw (fine, h) refl
]

some-injective : (xs ys : List String) → some xs ≡ some ys → xs ≡ ys
some-injective xs ys h = ground (arith, h)

abbrev view : View gateway
view = record {
  holds = λ t m. lookup m t;
  upsert_own = upsert_own_lem;
  upsert_other = upsert_other_lem;
  delete_own = λ m t h. remove_own t m;
  delete_other = λ id t m h. remove_other t id m h;
  listed = λ t ids m h unseen.
      keys_complete t m (subst (λ x. is_among m x ≡ false) (sym (some-injective _ _ h)) unseen);
}

abbrev deployment : String → String → Deployment DeploymentDetail ℕ
deployment id model = record {
  id = id;
  model_id = model;
  plan_id = "p";
  state = state_active;
  detail = record no_detail { endpoint = "http://a:1" };
  created_at = 0;
  updated_at = 0;
}

abbrev route : String → String → RouteUpdate
route id model = record {
  model_id = model;
  endpoint = "http://a:1";
  deployment_id = id;
  quantization = "";
  state = "active";
}

abbrev deployments : List (Deployment DeploymentDetail ℕ)
deployments = deployment "1" "bad" ∷ deployment "2" "m" ∷ []

abbrev before : Routing gateway
before = record { table = ("old", route "0" "old") ∷ []; pushed = [] }

reconcile-settles_example :
    lookup "old"
      (reconcile gateway keys DeploymentDetail ℕ
        (λ d. true)
        (λ d. d)
        (some deployments)
        before).1.table
    ≡ lookup "old" (desired_routes DeploymentDetail ℕ (λ d. true) (λ d. d) deployments)
unfolding reconcile converge push_routes each desired_routes desired_from desired_one routed_model
    push_one delete_stale observe delete_one
reconcile-settles_example =
    reconcile-settles gateway view DeploymentDetail ℕ (λ d. true) (λ d. d) keys deployments before
      "old" (upsert_failed "bad" ∷ []) (λ d u h. keys_all d "old" u h)
      (λ h g. absurd (ground (arith, h))) refl refl
