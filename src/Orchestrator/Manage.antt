-- ===== src/Orchestrator/Manage.antt =====
-- Teardown and RestartEngine, go/controlplane/orchestrator/orchestrator.go.
use purser.Prelude.{
  ℕ, zero, suc, false, Option, none, some, List, [], ◌∷◌, ◌++◌, String, str_eq, if◌then◌else◌,
}
use purser.Config.Result.{Result, ok, err}
use purser.Planner.Types.{host, worker}
use purser.Registry.Rows.{Deployment}
use purser.Orchestrator.Types.{
  EngineRef, DeploymentDetail, StartEngineRequest, state_active, state_stopping, state_stopped,
  append_audit, start_engine, delete_route, Outside,
}
use purser.Orchestrator.Calls.{Calls, start_and_wait_ready, rollback, persisted}

pub data ManageError : Type 0 where
  no_deployment not_restarted : String → ManageError
  not_part_of : String → String → ManageError

-- the first engine of the node, with its index
unfoldable pub find_engine : String → List EngineRef → Option (ℕ × EngineRef)
find_engine node [] = none
find_engine node (e ∷ engines) =
    if str_eq e.node_id node
    then some (0, e)
    else elim (find_engine node engines) [ none ↦ none | some (i, r) ↦ some (suc i, r) ]

-- detail.Engines[idx].Handle = handle
unfoldable pub set_handle : ℕ → String → List EngineRef → List EngineRef
set_handle i handle [] = []
set_handle zero handle (e ∷ engines) = record e { handle = handle } ∷ engines
set_handle (suc i) handle (e ∷ engines) = e ∷ set_handle i handle engines

module _ (Json Time : Type 0) (out : Outside Json Time) where
  abbrev pub teardown_calls : String → Deployment Json Time → DeploymentDetail → Calls Json Time out
  teardown_calls id dep detail =
      persisted Json Time out dep state_stopping detail
      ∷ append_audit "deployment.stopping" id []
      ∷ (rollback Json Time out detail.engines
          ++ ((if str_eq detail.model_id "" then [] else delete_route detail.model_id ∷ [])
              ++ persisted Json Time out dep state_stopped detail
                ∷ append_audit "deployment.stopped" id []
                ∷ []))

  unfoldable pub teardown :
      String → Calls Json Time out → Result ManageError (Unit {0}) × Calls Json Time out
  unfolding rollback
  teardown id past = elim (out.get_deployment past id) [
    | none ↦ (err (no_deployment id), [])
    | some dep ↦ (ok tt, teardown_calls id dep (out.decode dep.detail))
  ]

  abbrev pub restart_request : DeploymentDetail → EngineRef → StartEngineRequest
  restart_request detail ref = record {
    model_ref = detail.model_id;
    role = if str_eq ref.role "host" then host else worker;
    layer_start = 0;
    layer_end = 0;
    peers = [];
    quantization = detail.quantization;
    draft = false;
  }

  abbrev pub restart_on :
      String
      → Deployment Json Time
      → DeploymentDetail
      → String
      → Calls Json Time out
      → Option (ℕ × EngineRef)
      → Result ManageError (Unit {0}) × Calls Json Time out
  restart_on id dep detail node past none = (err (not_part_of node id), [])
  restart_on id dep detail node past (some (i, ref)) =
      let req = restart_request detail ref in
      elim (start_and_wait_ready Json Time out past ref.agent_addr req) [
        | none ↦ (err (not_restarted node), start_engine ref.agent_addr req ∷ [])
        | some handle ↦ (
          ok tt,
          start_engine ref.agent_addr req
              ∷ persisted Json Time out dep state_active
                  (record detail { engines = set_handle i handle detail.engines })
              ∷ append_audit "engine.restarted" id (("node", node) ∷ [])
              ∷ [],
        )
      ]

  unfoldable pub restart_engine :
      String → String → Calls Json Time out → Result ManageError (Unit {0}) × Calls Json Time out
  unfolding find_engine set_handle start_and_wait_ready
  restart_engine id node past = elim (out.get_deployment past id) [
    | none ↦ (err (no_deployment id), [])
    | some dep ↦
        let detail = out.decode dep.detail in
        restart_on id dep detail node past (find_engine node detail.engines)
  ]
