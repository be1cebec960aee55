-- ===== src/Orchestrator/Converged.antt =====
-- What a pass of the route reconciler, go/controlplane/orchestrator/route_reconciler.go, makes of the
-- Gateway's table.
use purser.Prelude.{
  Bool, true, false, ◌≡◌, sym, subst, ◌∙◌, inl, inr, Option, none, some, List, [], ◌∷◌, String,
  str_eq, eq_iff, arith, Bool-cases, Option-cases,
}
use purser.Registry.Rows.{Deployment}
use purser.Orchestrator.Types.{DeploymentDetail, RouteUpdate}
use purser.Orchestrator.Routes.{
  Gateway, RouteMap, RouteError, is_among, lookup, Routing, observe, push_one, delete_one, each,
  push_routes, delete_stale, converge, reconcile, desired_routes,
}
use purser.Orchestrator.View.{
  mentions, View, str_eq_self, mentions-append, IsKeyed, none-IsKeyed, desired_from-IsKeyed,
}

module _ (G : Gateway) (V : View G) where
  -- what is reached from a world by a step or a loop
  abbrev Leaves : String → Option RouteUpdate → List RouteError × Routing G → Type 0
  Leaves m v r = mentions m r.0 ≡ false → V.holds r.1.table m ≡ v

  each-keeps :
      (step : String → Routing G → List RouteError × Routing G) (m : String)
      (v : Option RouteUpdate)
      → ((k : String) (w : Routing G) → V.holds w.table m ≡ v → Leaves m v (step k w))
      → (ks : List String) (w : Routing G) → V.holds w.table m ≡ v
      → Leaves m v (each G step ks w)
  unfolding each
  each-keeps step m v keeps [] w held quiet = held
  each-keeps step m v keeps (k ∷ ks) w held quiet =
      let q = mentions-append m (step k w).0 _ quiet in
      each-keeps step m v keeps ks (step k w).1 (keeps k w held q.0) q.1

  each-reaches :
      (step : String → Routing G → List RouteError × Routing G) (m : String)
      (v : Option RouteUpdate)
      → ((k : String) (w : Routing G) → V.holds w.table m ≡ v → Leaves m v (step k w))
      → ((w : Routing G) → Leaves m v (step m w))
      → (ks : List String) (w : Routing G) → is_among m ks ≡ true
      → Leaves m v (each G step ks w)
  unfolding each
  each-reaches step m v keeps sets [] w among quiet = absurd (ground (arith, among))
  each-reaches step m v keeps sets (k ∷ ks) w among quiet =
      let q = mentions-append m (step k w).0 _ quiet in
      elim (Bool-cases (str_eq k m)) [
        | inl same ↦
            each-keeps step m v keeps ks (step k w).1
              (subst (λ x. Leaves m v (step x w)) (sym ((eq_iff k m).0 same)) (sets w) q.0) q.1
        | inr other ↦ each-reaches step m v keeps sets ks (step k w).1 (rw other at among) q.1
      ]

  module _ (d : RouteMap) (keyed : IsKeyed d) (m : String) where
    push_one-sets :
        (u : RouteUpdate)
        → lookup m d ≡ some u
        → (w : Routing G) → Leaves m (some u) (push_one G m (some u) w)
    unfolding push_one
    push_one-sets u wanted w quiet = elim (Bool-cases (G.upsert_route u w.table).0) [
      | inl sent ↦ rw sent (
          subst (λ x. V.holds (G.upsert_route u w.table).1 x ≡ some u) (keyed m u wanted)
            (V.upsert_own u w.table sent))
      | inr lost ↦ absurd (ground (arith, rw (lost, str_eq_self m) at quiet))
    ]

    push_one-other :
        (k : String) (u : RouteUpdate) (w : Routing G)
        → str_eq u.model_id m ≡ false
        → V.holds (push_one G k (some u) w).1.table m ≡ V.holds w.table m
    unfolding push_one
    push_one-other k u w other = elim (Bool-cases (G.upsert_route u w.table).0) [
      | inl sent ↦ rw sent (V.upsert_other u w.table m other)
      | inr lost ↦ rw lost (V.upsert_other u w.table m other)
    ]

    push_one-keeps :
        (k : String) (w : Routing G)
        → V.holds w.table m ≡ lookup m d
        → Leaves m (lookup m d) (push_one G k (lookup k d) w)
    unfolding push_one
    push_one-keeps k w held quiet = elim (Option-cases (lookup k d)) [
      | inl unwanted ↦ rw unwanted held
      | inr (u, wanted) ↦ elim (Bool-cases (str_eq k m)) [
        | inl same ↦
            let k≡m = (eq_iff k m).0 same in
            let wanted_m = subst (λ x. lookup x d ≡ some u) k≡m wanted in
            subst (λ x. Leaves m (lookup m d) (push_one G x (lookup x d) w)) (sym k≡m)
              (rw wanted_m (push_one-sets u wanted_m w)) quiet
        | inr other ↦ rw wanted (push_one-other k u w (rw (sym (keyed k u wanted)) at other) ∙ held)
      ]
    ]

    delete_one-clears : lookup m d ≡ none → (w : Routing G) → Leaves m none (delete_one G m none w)
    unfolding delete_one
    delete_one-clears unwanted w quiet = elim (Bool-cases (G.delete_route m w.table).0) [
      | inl sent ↦ rw sent (V.delete_own m w.table sent)
      | inr lost ↦ absurd (ground (arith, rw (lost, str_eq_self m) at quiet))
    ]

    delete_one-other :
        (k : String) (w : Routing G)
        → str_eq k m ≡ false
        → V.holds (delete_one G k none w).1.table m ≡ V.holds w.table m
    unfolding delete_one
    delete_one-other k w other = elim (Bool-cases (G.delete_route k w.table).0) [
      | inl sent ↦ rw sent (V.delete_other k w.table m other)
      | inr lost ↦ rw lost (V.delete_other k w.table m other)
    ]

    delete_one-keeps :
        (k : String) (w : Routing G)
        → V.holds w.table m ≡ lookup m d
        → Leaves m (lookup m d) (delete_one G k (lookup k d) w)
    unfolding delete_one
    delete_one-keeps k w held quiet = elim (Option-cases (lookup k d)) [
      | inr (u, wanted) ↦ rw wanted held
      | inl unwanted ↦ elim (Bool-cases (str_eq k m)) [
        | inl same ↦
            let k≡m = (eq_iff k m).0 same in
            let unwanted_m = subst (λ x. lookup x d ≡ none) k≡m unwanted in
            subst (λ x. Leaves m (lookup m d) (delete_one G x (lookup x d) w)) (sym k≡m)
              (rw unwanted_m (delete_one-clears unwanted_m w)) quiet
        | inr other ↦ rw unwanted (delete_one-other k w other ∙ held)
      ]
    ]

    observe_complete :
        (w : Routing G)
        → (G.list_routes w.table ≡ none → is_among m w.pushed ≡ false → V.holds w.table m ≡ none)
        → is_among m (observe G w) ≡ false
        → V.holds w.table m ≡ none
    unfolding observe
    observe_complete w remembered unseen = elim (Option-cases (G.list_routes w.table)) [
      | inl silent ↦ remembered silent (rw silent at unseen)
      | inr (ids, answered) ↦ V.listed w.table ids m answered (rw answered at unseen)
    ]

    converge-settles :
        (walk : RouteMap → List String) (w : Routing G)
        → ((u : RouteUpdate) → lookup m d ≡ some u → is_among m (walk d) ≡ true)
        → (G.list_routes w.table ≡ none → is_among m w.pushed ≡ false → V.holds w.table m ≡ none)
        → Leaves m (lookup m d) (converge G walk d w)
    unfolding converge push_routes delete_stale
    converge-settles walk w walked remembered quiet =
        let push = push_routes G d (walk d) w in
        let q = mentions-append m push.0 _ quiet in
        elim (Option-cases (lookup m d)) [
          | inr (u, wanted) ↦
              each-keeps (λ k. delete_one G k (lookup k d)) m (lookup m d) delete_one-keeps
                (observe G w) push.1
                (each-reaches (λ k. push_one G k (lookup k d)) m (lookup m d) push_one-keeps
                  (rw wanted (push_one-sets u wanted)) (walk d) w (walked u wanted) q.0)
                q.1
          | inl unwanted ↦ elim (Bool-cases (is_among m (observe G w))) [
            | inl seen ↦
                each-reaches (λ k. delete_one G k (lookup k d)) m (lookup m d) delete_one-keeps
                  (rw unwanted (delete_one-clears unwanted)) (observe G w) push.1 seen q.1
            | inr unseen ↦
                each-keeps (λ k. delete_one G k (lookup k d)) m (lookup m d) delete_one-keeps
                  (observe G w) push.1
                  (each-keeps (λ k. push_one G k (lookup k d)) m (lookup m d) push_one-keeps
                    (walk d) w (observe_complete w remembered unseen ∙ sym unwanted) q.0)
                  q.1
          ]
        ]

  -- On a Gateway that keeps to View, a pass whose ListDeployments answers settles every model that none
  -- of its errors is about, whatever the calls for other models answered: the Gateway then holds the
  -- route that the active deployments ask for, and none when they ask for none. The walk of a map must
  -- meet every key, and a Gateway that cannot be listed may hold the model only if it was pushed.
  pub reconcile-settles :
      (Json Time : Type 0) (has_detail : Json → Bool) (decode : Json → DeploymentDetail)
      (walk : RouteMap → List String) (deps : List (Deployment Json Time)) (w : Routing G)
      (m : String) (errs : List RouteError)
      → ((d : RouteMap) (u : RouteUpdate) → lookup m d ≡ some u → is_among m (walk d) ≡ true)
      → (G.list_routes w.table ≡ none → is_among m w.pushed ≡ false → V.holds w.table m ≡ none)
      → let r = reconcile G walk Json Time has_detail decode (some deps) w in
        r.0 ≡ some errs
        → mentions m errs ≡ false
        → V.holds r.1.table m ≡ lookup m (desired_routes Json Time has_detail decode deps)
  unfolding reconcile desired_routes
  reconcile-settles Json Time has_detail decode walk deps w m errs walked remembered returned
        quiet =
      let d = desired_routes Json Time has_detail decode deps in
      converge-settles d (desired_from-IsKeyed Json Time has_detail decode deps [] none-IsKeyed) m
        walk w (walked d) remembered (subst (λ es. mentions m es ≡ false) (sym same) quiet)
    where
      same : (converge G walk (desired_routes Json Time has_detail decode deps) w).0 ≡ errs
      same = ground (arith, returned)
