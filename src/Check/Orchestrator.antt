-- ===== src/Check/Orchestrator.antt =====
-- A deployment on a worker and a host whose agents answer.
use purser.Prelude.{none, ℕ, ◌≡◌, refl, true, false, some, List, [], ◌∷◌, ◌++◌, String}
use purser.Config.Result.{Result, ok}
use purser.Planner.Types.{Assignment, Role, host, worker}
use purser.Registry.Rows.{Deployment}
use purser.Orchestrator.Types.{
  DeploymentDetail, Endpoint, PlanMessage, ready_event, other_event, no_detail, Outside,
}
use purser.Orchestrator.Calls.{ApplyError, Calls, apply, start_and_wait_ready}
use purser.Orchestrator.Split.{IsSplit, nobody, a_worker, the_host}
use purser.Orchestrator.Deployed.{Ran, first_calls, live_detail, IsDeployed, Outcome}
use purser.Orchestrator.Outcome.{apply-Outcome}
use purser.Orchestrator.Manage.{teardown}
use purser.Orchestrator.Undone.{undoing, teardown-undoes_apply}

abbrev assignment : String → Role → ℕ → ℕ → Assignment
assignment node role start end = record {
  node_id = node;
  layer_start = start;
  layer_end = end;
  role = role;
  draft = false;
}

abbrev first : Assignment
first = assignment "a" worker 0 3

abbrev second : Assignment
second = assignment "b" host 4 7

abbrev plan : PlanMessage
plan = record {
  plan_id = "p";
  model_id = "m";
  quantization = "q4";
  assignments = second ∷ first ∷ [];
}

abbrev address : String → Endpoint
address node = record { agent_addr = node; inference_addr = node }

abbrev ran : List Ran
ran = record { of = first; at = address "a"; handle = "h" } ∷ []

abbrev blank : Deployment DeploymentDetail ℕ
blank = record {
  id = "d";
  model_id = "m";
  plan_id = "p";
  state = "DEPLOYMENT_STATE_ACTIVE";
  detail = no_detail;
  created_at = 0;
  updated_at = 0;
}

abbrev world : DeploymentDetail → Outside DeploymentDetail ℕ
world detail = record {
  zero_time = 0;
  encode = λ d. d;
  decode = λ d. d;
  creates = λ past row. true;
  get_deployment = λ past id. some (record blank { detail = detail });
  resolve = λ past node. some (address node);
  engine_stream = λ past addr req. some (other_event ∷ ready_event "h" ∷ []);
}

abbrev active_world : Outside DeploymentDetail ℕ
active_world =
    world (live_detail DeploymentDetail ℕ (world no_detail) plan "d" second ran (address "b") "h")

split : IsSplit plan.assignments (first ∷ []) (some second)
split = the_host second (first ∷ []) (first ∷ []) refl (a_worker first [] [] none refl nobody)

apply-Outcome_example :
    (run : Result ApplyError String × Calls DeploymentDetail ℕ (world no_detail)) × (apply
        DeploymentDetail ℕ
        (world no_detail)
        true
        (some plan)
        "d"
        []
      ≡ (run.0, first_calls DeploymentDetail ℕ (world no_detail) plan "d" ++ run.1))
    × Outcome DeploymentDetail ℕ
        (world no_detail)
        plan
        "d"
        second
        (first_calls DeploymentDetail ℕ (world no_detail) plan "d")
        (first ∷ [])
        run
apply-Outcome_example =
    apply-Outcome DeploymentDetail ℕ (world no_detail) plan "d" second [] (first ∷ []) split refl

teardown-undoes_apply_example :
    (run : Result ApplyError String × Calls DeploymentDetail ℕ active_world) × (apply
        DeploymentDetail ℕ active_world true
        (some plan)
        "d"
        []
      ≡ (run.0, first_calls DeploymentDetail ℕ active_world plan "d" ++ run.1))
    × (d : IsDeployed DeploymentDetail ℕ active_world plan "d" second
        (first_calls DeploymentDetail ℕ active_world plan "d")
        (first ∷ [])
        run)
    × (teardown DeploymentDetail ℕ active_world "d" []
        ≡ (ok tt, undoing DeploymentDetail ℕ active_world plan "d" second d.ran d.at d.handle))
unfolding apply start_and_wait_ready
teardown-undoes_apply_example =
    teardown-undoes_apply DeploymentDetail ℕ active_world plan "d" second (λ d. refl) [] []
      (first ∷ []) split refl refl refl refl
