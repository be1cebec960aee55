-- ===== src/Reconciler/Observe.antt =====
-- What the reconciler sees: observe of
-- go/controlplane/reconciler/reconciler.go.
use purser.Prelude.{
  ℕ, ◌+◌, Bool, true, false, not, ◌&&◌, ◌||◌, Option, none, some, List, [], ◌∷◌, ◌++◌, String,
  str_eq, ltb, ◌==◌, if◌then◌else◌,
}
use purser.Registry.Rows.{Node, Deployment, Plan}
use purser.Orchestrator.Types.{EngineRef, DeploymentDetail, state_active}
use purser.Reconciler.Types.{
  engine_down, node_down, new_node, orphan_deployment, Config, Discrepancy, Event,
}

abbrev pub node_state_ready : String
node_state_ready = "NODE_STATE_READY"

abbrev pub node_state_running : String
node_state_running = "NODE_STATE_RUNNING"

abbrev pub node_state_unreachable : String
node_state_unreachable = "NODE_STATE_UNREACHABLE"

abbrev pub node_state_decommissioned : String
node_state_decommissioned = "NODE_STATE_DECOMMISSIONED"

abbrev pub NodeRow : Type 0 → Type 0 → Type 0
NodeRow Json Num = Node Json ℕ Num

-- What GetModel answers, as far as it is looked at.
pub data Found : Type 0 where
  present not_found other_error : Found

-- The message that the planner returns, less what only the plan's JSON holds.
pub record NewPlan (Json Num : Type 0) : Type 0 where
  pub plan_id : String
  pub model_id : String
  pub quantization : String
  pub cost : Num
  -- protojson.Marshal of the message with another plan ID, `none` for its error
  pub marshal : String → Option Json

-- The registry, the actuator, the planner and the webhook, over a state that they share. `true` is the
-- nil error.
pub record World (Json Num : Type 0) : Type 1 where
  pub State : Type 0
  pub decode : Json → DeploymentDetail
  pub encode : DeploymentDetail → Json
  pub list_deployments : State → Option (List (Deployment Json ℕ))
  pub list_nodes : State → Option (List (NodeRow Json Num))
  pub get_model : State → String → Found
  pub get_deployment : State → String → Option (Deployment Json ℕ)
  pub create_plan : Plan Json ℕ Num → State → Bool × State
  pub update_deployment : Deployment Json ℕ → State → Bool × State
  pub append_audit : String → String → State → State
  pub has_actuator : Bool
  pub restart_engine : String → String → State → Bool × State
  pub failover : String → State → Bool × State
  pub cleanup : String → State → Bool × State
  pub has_planner : Bool
  pub plan : String → State → Option (NewPlan Json Num)
  -- the random suffix of a plan ID, and the delivery that is left to a goroutine
  pub rand_hex : State → String
  pub send_webhook : Event → State → State

module _ (Json Num : Type 0) where
  unfoldable pub is_node_down : Config → NodeRow Json Num → ℕ → Bool
  is_node_down cfg n now =
      if str_eq n.state node_state_unreachable || str_eq n.state node_state_decommissioned
      then true
      else if n.last_seen == 0
      then ltb (n.created_at + cfg.node_timeout) now
      else ltb (n.last_seen + cfg.node_timeout) now

  unfoldable pub engine_healthy : NodeRow Json Num → Bool
  engine_healthy n = str_eq n.state node_state_running || str_eq n.state node_state_ready

  -- byID[n.ID] = n
  unfoldable pub put_node : NodeRow Json Num → List (NodeRow Json Num) → List (NodeRow Json Num)
  put_node n [] = n ∷ []
  put_node n (m ∷ nodes) =
      let rest = put_node n nodes in if str_eq m.id n.id then n ∷ nodes else m ∷ rest

  unfoldable pub index_nodes :
      List (NodeRow Json Num) → List (NodeRow Json Num) → List (NodeRow Json Num)
  index_nodes by_id [] = by_id
  index_nodes by_id (n ∷ nodes) = index_nodes (put_node n by_id) nodes

  unfoldable pub find_node : String → List (NodeRow Json Num) → Option (NodeRow Json Num)
  find_node id [] = none
  find_node id (n ∷ nodes) =
      let rest = find_node id nodes in if str_eq n.id id then some n else rest

  abbrev is_missing_or_down : Config → Option (NodeRow Json Num) → ℕ → Bool
  is_missing_or_down cfg none now = true
  is_missing_or_down cfg (some n) now = is_node_down cfg n now

  abbrev is_unhealthy : Option (NodeRow Json Num) → Bool
  is_unhealthy none = true
  is_unhealthy (some n) = not (engine_healthy n)

  -- the loop over detail.Engines
  unfoldable pub observe_engines :
      Config → String → List (NodeRow Json Num) → ℕ → List EngineRef → List Discrepancy
  unfolding is_node_down engine_healthy find_node
  observe_engines cfg dep by_id now [] = []
  observe_engines cfg dep by_id now (e ∷ engines) =
      let rest = observe_engines cfg dep by_id now engines in
      let n = find_node e.node_id by_id in
      if is_missing_or_down cfg n now
      then record { typ = node_down; dep_id = dep; node_id = e.node_id } ∷ rest
      else if is_unhealthy n
      then record { typ = engine_down; dep_id = dep; node_id = e.node_id } ∷ rest
      else rest

  abbrev node_ids : List EngineRef → List String
  node_ids [] = []
  node_ids (e ∷ engines) = e.node_id ∷ node_ids engines

  abbrev is_claimed : String → List String → Bool
  is_claimed id [] = false
  is_claimed id (c ∷ claimed) = str_eq c id || is_claimed id claimed

  -- the loop over the nodes, in the order of their index; Go's order of iteration is any
  unfoldable pub observe_new : Config → List String → ℕ → List (NodeRow Json Num) → List Discrepancy
  unfolding is_node_down
  observe_new cfg claimed now [] = []
  observe_new cfg claimed now (n ∷ nodes) =
      let rest = observe_new cfg claimed now nodes in
      if is_claimed n.id claimed
      then rest
      else if str_eq n.state node_state_ready && not (is_node_down cfg n now)
      then record { typ = new_node; dep_id = ""; node_id = n.id } ∷ rest
      else rest

  module _ (W : World Json Num) where
    abbrev is_orphan : W.State → DeploymentDetail → Bool
    is_orphan s detail = not (str_eq detail.model_id "") && elim (W.get_model s detail.model_id) [
      | present ↦ false
      | not_found ↦ true
      | other_error ↦ false
    ]

    -- the loop over the deployments: the discrepancies and the claimed nodes
    unfoldable pub observe_deployments :
        Config
        → W.State
        → List (NodeRow Json Num)
        → ℕ
        → List (Deployment Json ℕ)
        → List Discrepancy × List String
    unfolding observe_engines
    observe_deployments cfg s by_id now [] = ([], [])
    observe_deployments cfg s by_id now (d ∷ deps) =
        let rest = observe_deployments cfg s by_id now deps in
        let detail = W.decode d.detail in
        if not (str_eq d.state state_active)
        then rest
        else if is_orphan s detail
        then (record { typ = orphan_deployment; dep_id = d.id; node_id = "" } ∷ rest.0, rest.1)
        else (
          observe_engines cfg d.id by_id now detail.engines ++ rest.0,
          node_ids detail.engines ++ rest.1,
        )

    unfoldable pub observe :
        Config → W.State → List (Deployment Json ℕ) → List (NodeRow Json Num) → ℕ → List Discrepancy
    unfolding observe_deployments observe_new
    observe cfg s deps by_id now =
        let gaps = observe_deployments cfg s by_id now deps in
        gaps.0 ++ observe_new cfg gaps.1 now by_id
