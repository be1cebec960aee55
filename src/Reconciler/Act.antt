-- ===== src/Reconciler/Act.antt =====
-- What the reconciler does about an event: dispatch and handleNodeDown of
-- go/controlplane/reconciler/reconciler.go.
use Prim.Native.String.{◌++◌ as ◌+++◌}
use purser.Prelude.{
  ℕ, Bool, true, false, not, ◌||◌, Option, none, some, String, str_eq, if◌then◌else◌,
}
use purser.Registry.Rows.{Deployment, Plan}
use purser.Orchestrator.Types.{DeploymentDetail, state_stopped, state_failed}
use purser.Reconciler.Types.{
  AutomationLevel, automation_auto, approval_required, notify_only, EventType, engine_down,
  node_down, new_node, orphan_deployment, Config, Event,
}
use purser.Reconciler.Observe.{World, NewPlan}

module _ (Json Num : Type 0) (W : World Json Num) where
  abbrev pub audited : String → Event → Bool → W.State → Bool × W.State
  audited action ev answer s = (answer, W.append_audit action ev.dep_id s)

  -- the call of the actuator's Failover and what follows it
  unfoldable pub run_failover : Event → W.State → Bool × W.State
  run_failover ev s =
      let end = W.failover ev.dep_id s in
      if end.0
      then audited "reconciler.failover.initiated" ev true end.1
      else audited "reconciler.action_failed" ev false end.1

  unfoldable pub is_terminal : String → Bool
  is_terminal state = str_eq state state_stopped || str_eq state state_failed

  abbrev pub plan_row : String → NewPlan Json Num → Json → Plan Json ℕ Num
  plan_row id p json = record {
    id = id;
    model_id = p.model_id;
    quantization = p.quantization;
    cost = p.cost;
    plan = json;
    created_at = 0;
  }

  -- the plan is stored, and the deployment is stamped with its ID
  abbrev pub store_plan :
      Event
      → Deployment Json ℕ
      → DeploymentDetail
      → NewPlan Json Num
      → String
      → W.State
      → Option Json
      → Bool × W.State
  store_plan ev dep detail p id s none = audited "reconciler.action_failed" ev false s
  store_plan ev dep detail p id s (some json) =
      let stored = W.create_plan (plan_row id p json) s in
      let row = record dep { detail = W.encode (record detail { failover_plan_id = id }) } in
      let stamped = W.update_deployment row stored.1 in
      if not stored.0
      then audited "reconciler.action_failed" ev false stored.1
      else if not stamped.0
      then audited "reconciler.action_failed" ev false stamped.1
      else run_failover ev stamped.1

  abbrev pub with_plan :
      Event
      → Deployment Json ℕ
      → DeploymentDetail
      → W.State
      → Option (NewPlan Json Num)
      → Bool × W.State
  with_plan ev dep detail s none = audited "reconciler.failover.no_capacity" ev false s
  with_plan ev dep detail s (some p) =
      let id = p.plan_id +++ ("-fo-" +++ W.rand_hex s) in
      store_plan ev dep detail p id s (p.marshal id)

  abbrev pub with_deployment : Event → W.State → Option (Deployment Json ℕ) → Bool × W.State
  with_deployment ev s none = audited "reconciler.action_failed" ev false s
  with_deployment ev s (some dep) =
      let detail = W.decode dep.detail in
      if is_terminal dep.state
      then (false, s)
      else if str_eq detail.model_id ""
      then run_failover ev s
      else with_plan ev dep detail s (W.plan detail.model_id s)

  unfoldable pub handle_node_down : Event → W.State → Bool × W.State
  unfolding run_failover is_terminal
  handle_node_down ev s =
      if W.has_planner
      then with_deployment ev s (W.get_deployment s ev.dep_id)
      else run_failover ev s

  abbrev pub acted_or_failed : Event → Bool × W.State → Bool × W.State
  acted_or_failed ev (true, s) = audited "reconciler.acted" ev true s
  acted_or_failed ev (false, s) = audited "reconciler.action_failed" ev false s

  abbrev pub act_on : EventType → Event → W.State → Bool × W.State
  act_on node_down ev s = handle_node_down ev s
  act_on engine_down ev s = acted_or_failed ev (W.restart_engine ev.dep_id ev.node_id s)
  act_on orphan_deployment ev s = acted_or_failed ev (W.cleanup ev.dep_id s)
  act_on new_node ev s = audited "reconciler.notify" ev false s

  abbrev pub at_level : AutomationLevel → Config → Event → W.State → Bool × W.State
  at_level notify_only cfg ev s = audited "reconciler.notify" ev false s
  at_level approval_required cfg ev s =
      let told = W.append_audit "reconciler.pending_approval" ev.dep_id s in
      if str_eq cfg.webhook_url "" then (false, told) else (false, W.send_webhook ev told)
  at_level automation_auto cfg ev s = if not W.has_actuator then (false, s) else act_on ev.typ ev s

  unfoldable pub dispatch : Config → Event → W.State → Bool × W.State
  unfolding handle_node_down
  dispatch cfg ev s = at_level ev.level cfg ev s
