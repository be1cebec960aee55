-- ===== src/Check/Reconciler.antt =====
-- A deployment on a node that is gone, and passes over it.
use purser.Prelude.{ℕ, ◌+◌, ◌≡◌, true, false, none, some, [], ◌∷◌}
use purser.Registry.Rows.{Deployment}
use purser.Orchestrator.Types.{DeploymentDetail, no_detail}
use purser.Reconciler.Types.{
  automation_auto, node_down, Config, level, Discrepancy, key, no_reason, Event, Tracker,
}
use purser.Reconciler.Observe.{World, present}
use purser.Reconciler.Act.{dispatch}
use purser.Reconciler.Pass.{Pass, run_pass}
use purser.Reconciler.Streak.{occurs, streak, streak_of}
use purser.Reconciler.History.{after, after-streak}

abbrev config : Config
config = record {
  interval = 30;
  hysteresis = 0;
  failure_threshold = 1;
  node_timeout = 90;
  action_cooldown = 60;
  levels = λ t. some automation_auto;
  webhook_url = "";
}

abbrev deployment : Deployment DeploymentDetail ℕ
deployment = record {
  id = "d";
  model_id = "m";
  plan_id = "p";
  state = "DEPLOYMENT_STATE_ACTIVE";
  detail = record no_detail {
    model_id = "m";
    engines = record { node_id = "n"; agent_addr = "a"; role = "host"; handle = "h" } ∷ [];
  };
  created_at = 0;
  updated_at = 0;
}

abbrev world : World DeploymentDetail ℕ
world = record {
  State = ℕ;
  decode = λ d. d;
  encode = λ d. d;
  list_deployments = λ s. some (deployment ∷ []);
  list_nodes = λ s. some [];
  get_model = λ s id. present;
  get_deployment = λ s id. some deployment;
  create_plan = λ p s. (true, s);
  update_deployment = λ d s. (true, s);
  append_audit = λ action id s. s;
  has_actuator = true;
  restart_engine = λ dep node s. (true, s);
  failover = λ dep s. (true, s + 1);
  cleanup = λ dep s. (true, s);
  has_planner = false;
  plan = λ model s. none;
  rand_hex = λ s. "00";
  send_webhook = λ ev s. s;
}

abbrev gone : Discrepancy
gone = record { typ = node_down; dep_id = "d"; node_id = "n" }

abbrev event : Event
event = record {
  typ = node_down;
  dep_id = "d";
  node_id = "n";
  level = automation_auto;
  acted = true;
  reason = no_reason;
}

abbrev fresh : Tracker
fresh k = none

abbrev pass : Pass (dispatch DeploymentDetail ℕ world)
pass = run_pass (dispatch DeploymentDetail ℕ world) config 100 (gone ∷ []) fresh 0

after-streak_example :
    streak_of (
      (after
          (dispatch DeploymentDetail ℕ world)
          config
          ((130, gone ∷ []) ∷ (100, gone ∷ []) ∷ (70, []) ∷ (40, gone ∷ []) ∷ [])
          0).0
        "node_down|d|n")
    ≡ some (2, 100)
unfolding streak occurs key
after-streak_example =
    after-streak (dispatch DeploymentDetail ℕ world) config "node_down|d|n"
      ((130, gone ∷ []) ∷ (100, gone ∷ []) ∷ (70, []) ∷ (40, gone ∷ []) ∷ []) 0
