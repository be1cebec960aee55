-- ===== src/Orchestrator/Calls.antt =====
-- Apply, Teardown and RestartEngine, go/controlplane/orchestrator/orchestrator.go. A function takes the
-- calls made so far and returns those that it makes, in their order. Reading is not a call; log lines
-- are left out.
use Prim.Native.String.{◌++◌ as ◌+++◌}
use purser.Prelude.{
  Bool, true, false, Option, none, some, List, [], ◌∷◌, ◌++◌, String, if◌then◌else◌,
}
use purser.Config.Result.{Result, ok, err}
use purser.Planner.Types.{Assignment, Role, host, worker}
use purser.Registry.Rows.{Deployment}
use purser.Orchestrator.Types.{
  EngineRef, DeploymentDetail, Endpoint, PlanMessage, StartEngineRequest, StreamItem, ready_event,
  error_event, other_event, recv_error, end_of_stream, no_detail, state_provisioning, state_active,
  state_failed, Call, create_deployment, update_deployment, append_audit, start_engine, stop_engine,
  upsert_route, Outside,
}

pub data PlanFault : Type 0 where
  more_than_one_host no_host : PlanFault
  unspecified_role : String → PlanFault

-- the loop of partition, with the workers and the host so far
unfoldable pub partition_from :
    List Assignment
    → Option Assignment
    → List Assignment
    → Result PlanFault (List Assignment × Option Assignment)
partition_from workers found [] = ok (workers, found)
partition_from workers found (a ∷ as') = elim a.role [
  | worker ↦ partition_from (workers ++ a ∷ []) found as'
  | host ↦ elim found [
    | none ↦ partition_from workers (some a) as'
    | some h ↦ err more_than_one_host
  ]
  | Role.unspecified ↦ err (unspecified_role a.node_id)
]

abbrev pub need_host :
    Result PlanFault (List Assignment × Option Assignment)
    → Result PlanFault (List Assignment × Assignment)
need_host (err e) = err e
need_host (ok (workers, none)) = err no_host
need_host (ok (workers, some h)) = ok (workers, h)

unfoldable pub partition : PlanMessage → Result PlanFault (List Assignment × Assignment)
unfolding partition_from
partition plan = need_host (partition_from [] none plan.assignments)

-- the goroutine of startAndWaitReady and the select; a stream that goes on waiting times out
unfoldable pub wait_ready : List StreamItem → Option String
wait_ready [] = none
wait_ready (ready_event handle ∷ items) = some handle
wait_ready (error_event detail ∷ items) = none
wait_ready (other_event ∷ items) = wait_ready items
wait_ready (recv_error ∷ items) = none
wait_ready (end_of_stream ∷ items) = none

pub data Reason : Type 0 where
  resolve_worker worker_not_ready resolve_host host_not_ready : String → Reason

abbrev pub reason_text : Reason → String
reason_text (resolve_worker id) = "resolve worker " +++ id
reason_text (worker_not_ready id) = "worker " +++ (id +++ " not ready")
reason_text (resolve_host id) = "resolve host " +++ id
reason_text (host_not_ready id) = "host " +++ (id +++ " not ready")

pub data ApplyError : Type 0 where
  no_agents nil_plan not_created : ApplyError
  bad_plan : PlanFault → ApplyError
  -- with the ID that is returned beside the error
  failed : String → Reason → ApplyError

module _ (Json Time : Type 0) (out : Outside Json Time) where
  abbrev pub Calls : Type 0
  Calls = List (Call Json Time)

  abbrev stream_ready : Option (List StreamItem) → Option String
  stream_ready none = none
  stream_ready (some items) = wait_ready items

  -- Its one call is start_engine.
  unfoldable pub start_and_wait_ready : Calls → String → StartEngineRequest → Option String
  unfolding wait_ready
  start_and_wait_ready past addr req = stream_ready (out.engine_stream past addr req)

  -- the loop of rollback over the engines in reverse
  unfoldable pub rollback : List EngineRef → Calls
  rollback [] = []
  rollback (e ∷ engines) = rollback engines ++ stop_engine e.agent_addr e.handle ∷ []

  abbrev pub worker_request : PlanMessage → Assignment → StartEngineRequest
  worker_request plan w = record {
    model_ref = plan.model_id;
    role = worker;
    layer_start = w.layer_start;
    layer_end = w.layer_end;
    peers = [];
    quantization = plan.quantization;
    draft = w.draft;
  }

  abbrev pub host_request : PlanMessage → Assignment → List String → StartEngineRequest
  host_request plan h peers = record {
    model_ref = plan.model_id;
    role = host;
    layer_start = h.layer_start;
    layer_end = h.layer_end;
    peers = peers;
    quantization = plan.quantization;
    draft = h.draft;
  }

  abbrev pub engine_of : String → Assignment → Endpoint → String → EngineRef
  engine_of role a ep handle = record {
    node_id = a.node_id;
    agent_addr = ep.agent_addr;
    role = role;
    handle = handle;
  }

  -- How a loop over the workers ends, with the engines started: with their inference addresses, or at a
  -- failure.
  pub data Progress : Type 0 where
    all_ready : List EngineRef → List String → Progress
    stuck : Reason → List EngineRef → Progress

  -- the loop over the workers, with `started` and `peerAddrs`
  unfoldable pub start_workers :
      PlanMessage → Calls → List EngineRef → List String → List Assignment → Progress × Calls
  start_workers plan past started peers [] = (all_ready started peers, [])
  start_workers plan past started peers (w ∷ ws) = elim (out.resolve past w.node_id) [
    | none ↦ (stuck (resolve_worker w.node_id) started, [])
    | some ep ↦
        let call = start_engine ep.agent_addr (worker_request plan w) in
        elim (start_and_wait_ready past ep.agent_addr (worker_request plan w)) [
          | none ↦ (stuck (worker_not_ready w.node_id) started, call ∷ [])
          | some handle ↦
              let rest =
                start_workers plan (past ++ call ∷ [])
                  (started ++ engine_of "worker" w ep handle ∷ []) (peers ++ ep.inference_addr ∷ [])
                  ws in
              (rest.0, call ∷ rest.1)
        ]
  ]

  -- the row after persist
  abbrev pub persisted : Deployment Json Time → String → DeploymentDetail → Call Json Time
  persisted dep state detail =
      update_deployment (record dep { state = state; detail = out.encode detail })

  abbrev pub first_detail : PlanMessage → DeploymentDetail
  first_detail plan = record no_detail {
    model_id = plan.model_id;
    quantization = plan.quantization;
  }

  abbrev pub new_deployment : String → PlanMessage → Deployment Json Time
  new_deployment id plan = record {
    id = id;
    model_id = plan.model_id;
    plan_id = plan.plan_id;
    state = state_provisioning;
    detail = out.encode (first_detail plan);
    created_at = out.zero_time;
    updated_at = out.zero_time;
  }

  -- the function `fail`
  unfoldable pub fail :
      String → PlanMessage → Reason → List EngineRef → Result ApplyError String × Calls
  unfolding rollback
  fail id plan reason started =
      let detail = record (first_detail plan) { error = reason_text reason; engines = started } in
      (
        err (failed id reason),
        rollback started
            ++ persisted (new_deployment id plan) state_failed detail
              ∷ append_audit "deployment.failed" id (("reason", reason_text reason) ∷ [])
              ∷ [],
      )

  abbrev pub active_detail : PlanMessage → Assignment → Endpoint → List EngineRef → DeploymentDetail
  active_detail plan h ep engines = record (first_detail plan) {
    host_node_id = h.node_id;
    endpoint = "http://" +++ ep.inference_addr;
    engines = engines;
  }

  -- steps 3 and 4: the deployment becomes active, and its route is published
  unfoldable pub finish_active :
      String
      → PlanMessage
      → Assignment
      → Endpoint
      → List EngineRef
      → Result ApplyError String × Calls
  finish_active id plan h ep engines =
      let detail = active_detail plan h ep engines in
      (
        ok id,
        persisted (new_deployment id plan) state_active detail
            ∷ append_audit "deployment.active" id
                (("host", h.node_id) ∷ ("endpoint", detail.endpoint) ∷ [])
            ∷ upsert_route (record {
              model_id = detail.model_id;
              endpoint = detail.endpoint;
              deployment_id = id;
              quantization = detail.quantization;
              state = "active";
            })
            ∷ [],
      )

  -- step 2: the host, with the workers as peers
  unfoldable pub start_host :
      String
      → PlanMessage
      → Assignment
      → Calls
      → List EngineRef
      → List String
      → Result ApplyError String × Calls
  unfolding fail finish_active
  start_host id plan h past started peers = elim (out.resolve past h.node_id) [
    | none ↦ fail id plan (resolve_host h.node_id) started
    | some ep ↦
        let call = start_engine ep.agent_addr (host_request plan h peers) in
        elim (start_and_wait_ready past ep.agent_addr (host_request plan h peers)) [
          | none ↦
              let end = fail id plan (host_not_ready h.node_id) started in (end.0, call ∷ end.1)
          | some handle ↦
              let end = finish_active id plan h ep (started ++ engine_of "host" h ep handle ∷ []) in
              (end.0, call ∷ end.1)
        ]
  ]

  abbrev pub after_workers :
      String → PlanMessage → Assignment → Calls → Progress → Result ApplyError String × Calls
  after_workers id plan h past (all_ready started peers) = start_host id plan h past started peers
  after_workers id plan h past (stuck reason started) = fail id plan reason started

  abbrev pub opening : String → PlanMessage → Calls
  opening id plan =
      create_deployment (new_deployment id plan)
      ∷ append_audit "deployment.provisioning" id
          (("model_id", plan.model_id) ∷ ("plan_id", plan.plan_id) ∷ [])
      ∷ []

  abbrev pub roll_out :
      String → PlanMessage → List Assignment → Assignment → Calls → Result ApplyError String × Calls
  roll_out id plan workers h past =
      let run = start_workers plan (past ++ opening id plan) [] [] workers in
      let end = after_workers id plan h ((past ++ opening id plan) ++ run.1) run.0 in
      (end.0, opening id plan ++ (run.1 ++ end.1))

  abbrev pub apply_parts :
      String
      → PlanMessage
      → Calls
      → Result PlanFault (List Assignment × Assignment)
      → Result ApplyError String × Calls
  apply_parts id plan past (err e) = (err (bad_plan e), [])
  apply_parts id plan past (ok (workers, h)) =
      if out.creates past (new_deployment id plan)
      then roll_out id plan workers h past
      else (err not_created, create_deployment (new_deployment id plan) ∷ [])

  -- `id` is what newID returns.
  unfoldable pub apply :
      Bool → Option PlanMessage → String → Calls → Result ApplyError String × Calls
  unfolding partition start_workers start_host fail
  apply false plan id past = (err no_agents, [])
  apply true none id past = (err nil_plan, [])
  apply true (some plan) id past = apply_parts id plan past (partition plan)
