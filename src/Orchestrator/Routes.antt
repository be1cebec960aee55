-- ===== src/Orchestrator/Routes.antt =====
-- The route reconciler, go/controlplane/orchestrator/route_reconciler.go: the routes that the Gateway
-- should hold, and one pass that pushes them and deletes the others. The Gateway and the order in
-- which Go walks a map are parameters; a missing or failed listing is `none`.
use purser.Prelude.{
  Bool, false, not, ◌||◌, Option, none, some, List, [], ◌∷◌, ◌++◌, String, str_eq, if◌then◌else◌,
}
use purser.Registry.Rows.{Deployment}
use purser.Orchestrator.Types.{DeploymentDetail, RouteUpdate, state_active, no_detail}

-- The Gateway: a call answers true when it returns nil, and leaves a new table.
pub record Gateway : Type 1 where
  pub Table : Type 0
  pub upsert_route : RouteUpdate → Table → Bool × Table
  pub delete_route : String → Table → Bool × Table
  -- the model IDs of ListRoutes, `none` when the Gateway cannot be listed
  pub list_routes : Table → Option (List String)

abbrev pub is_among : String → List String → Bool
is_among m [] = false
is_among m (id ∷ ids) = str_eq id m || is_among m ids

pub data RouteError : Type 0 where
  upsert_failed delete_failed : String → RouteError

-- A Go map from model IDs, the last assignment first.
abbrev pub RouteMap : Type 0
RouteMap = List (String × RouteUpdate)

abbrev pub lookup : String → RouteMap → Option RouteUpdate
lookup m [] = none
lookup m (r ∷ d) = if str_eq r.0 m then some r.1 else lookup m d

abbrev pub unmark_pushed : String → List String → List String
unmark_pushed m [] = []
unmark_pushed m (id ∷ ids) =
    let rest = unmark_pushed m ids in if str_eq id m then rest else id ∷ rest

module _ (Json Time : Type 0) (has_detail : Json → Bool) (decode : Json → DeploymentDetail) where
  -- the ID of the model: the row's, or the detail's when the row has none
  unfoldable pub routed_model : Deployment Json Time → DeploymentDetail → String
  routed_model dep detail = if str_eq dep.model_id "" then detail.model_id else dep.model_id

  -- the body of the loop over the deployments
  unfoldable pub desired_one : Deployment Json Time → DeploymentDetail → RouteMap → RouteMap
  desired_one dep detail out =
      let m = routed_model dep detail in
      if not (str_eq dep.state state_active)
      then out
      else if str_eq m "" || str_eq detail.endpoint ""
      then out
      else (
        m,
        record {
          model_id = m;
          endpoint = detail.endpoint;
          deployment_id = dep.id;
          quantization = detail.quantization;
          state = "active";
        },
      )
        ∷ out

  unfoldable pub desired_from : List (Deployment Json Time) → RouteMap → RouteMap
  desired_from [] out = out
  desired_from (dep ∷ deps) out =
      let detail = if has_detail dep.detail then decode dep.detail else no_detail in
      desired_from deps (desired_one dep detail out)

  unfoldable pub desired_routes : List (Deployment Json Time) → RouteMap
  desired_routes deps = desired_from deps []

module _ (G : Gateway) where
  -- The Gateway's table and the models whose last push succeeded.
  pub record Routing : Type 0 where
    pub table : G.Table
    pub pushed : List String

  unfoldable pub observe : Routing → List String
  observe w = by_listing (G.list_routes w.table)
    where
      by_listing : Option (List String) → List String
      by_listing (some ids) = ids
      by_listing none = w.pushed

  unfoldable pub mark_pushed : String → List String → List String
  mark_pushed m ids = if is_among m ids then ids else m ∷ ids

  -- one iteration of the first loop; a model that is not a key is never reached
  unfoldable pub push_one : String → Option RouteUpdate → Routing → List RouteError × Routing
  push_one m none w = ([], w)
  push_one m (some u) w =
      let r = G.upsert_route u w.table in
      if r.0
      then ([], record { table = r.1; pushed = mark_pushed m w.pushed })
      else (upsert_failed m ∷ [], record { table = r.1; pushed = w.pushed })

  -- A loop over models that goes on after an error.
  unfoldable pub each :
      (String → Routing → List RouteError × Routing)
      → List String
      → Routing
      → List RouteError × Routing
  each step [] w = ([], w)
  each step (m ∷ ms) w = let r = step m w in let rest = each step ms r.1 in (r.0 ++ rest.0, rest.1)

  unfoldable pub push_routes : RouteMap → List String → Routing → List RouteError × Routing
  push_routes d = each (λ m. push_one m (lookup m d))

  -- one iteration of the second loop
  unfoldable pub delete_one : String → Option RouteUpdate → Routing → List RouteError × Routing
  delete_one m (some u) w = ([], w)
  delete_one m none w =
      let r = G.delete_route m w.table in
      if r.0
      then ([], record { table = r.1; pushed = unmark_pushed m w.pushed })
      else (delete_failed m ∷ [], record { table = r.1; pushed = w.pushed })

  unfoldable pub delete_stale : RouteMap → List String → Routing → List RouteError × Routing
  delete_stale d = each (λ m. delete_one m (lookup m d))

  -- the keys of a map in the order in which `range` meets them
  module _ (walk : RouteMap → List String) where
    unfoldable pub converge : RouteMap → Routing → List RouteError × Routing
    converge d w =
        let observed = observe w in
        let push = push_routes d (walk d) w in
        let del = delete_stale d observed push.1 in (push.0 ++ del.0, del.1)

    module _ (Json Time : Type 0) (has_detail : Json → Bool)
        (decode : Json → DeploymentDetail) where
      -- One pass on the answer of ListDeployments; its own error is `none`, and the errors of the
      -- routes, joined by the source, are a list.
      unfoldable pub reconcile :
          Option (List (Deployment Json Time)) → Routing → Option (List RouteError) × Routing
      reconcile none w = (none, w)
      reconcile (some deps) w =
          let r = converge (desired_routes Json Time has_detail decode deps) w in (some r.0, r.1)
