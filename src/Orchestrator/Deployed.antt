-- ===== src/Orchestrator/Deployed.antt =====
-- What Apply, go/controlplane/orchestrator/orchestrator.go, promises, apart from its code: the calls of
-- a deployment that succeeds and of one that is rolled back, written out.
use Prim.Native.String.{◌++◌ as ◌+++◌}
use mathlib.Core.List.{reverse, reverse-cons, map-append}
use purser.Prelude.{
  some, none, List, [], ◌∷◌, ◌++◌, map, String, ◌≡◌, refl, ◌⊎◌, inl, inr, ap, ◌∙◌, sym,
  none-ne-some, Option-cases,
}
use purser.Config.Result.{Result, ok, err}
use purser.Registry.Rows.{Deployment}
use purser.Planner.Types.{Assignment, host, worker}
use purser.Orchestrator.Types.{
  EngineRef, DeploymentDetail, Endpoint, PlanMessage, StartEngineRequest, StreamItem, Call,
  create_deployment, update_deployment, append_audit, start_engine, stop_engine, upsert_route,
  Outside,
}
use purser.Orchestrator.Calls.{
  Reason, reason_text, ApplyError, failed, Calls, start_and_wait_ready, rollback,
}
use purser.Orchestrator.Split.{Reports, wait_ready-Reports, Reports-wait_ready}

-- An assignment whose engine is ready, with its addresses and its handle.
pub record Ran : Type 0 where
  pub of : Assignment
  pub at : Endpoint
  pub handle : String

module _ (Json Time : Type 0) (out : Outside Json Time) (plan : PlanMessage) where
  -- The engine started there reports READY with this handle.
  abbrev pub IsUp : Calls Json Time out → String → StartEngineRequest → String → Type 0
  IsUp past addr req handle =
      (items : List StreamItem) × (out.engine_stream past addr req ≡ some items)
      × Reports handle items

  pub start_and_wait_ready-IsUp :
      (past : Calls Json Time out) (addr : String) (req : StartEngineRequest) (handle : String)
      → start_and_wait_ready Json Time out past addr req ≡ some handle
      → IsUp past addr req handle
  unfolding start_and_wait_ready
  start_and_wait_ready-IsUp past addr req handle h =
      elim (Option-cases (out.engine_stream past addr req)) [
        | inl refused ↦ absurd (none-ne-some _ refl (rw refused at h))
        | inr (items, opened) ↦ (items, opened, wait_ready-Reports items handle (rw opened at h))
      ]

  pub start_and_wait_ready-none :
      (past : Calls Json Time out) (addr : String) (req : StartEngineRequest)
      → start_and_wait_ready Json Time out past addr req ≡ none
      → (handle : String) → ¬ IsUp past addr req handle
  unfolding start_and_wait_ready
  start_and_wait_ready-none past addr req h handle (items, opened, reports) =
      none-ne-some handle (rw opened at h) (Reports-wait_ready handle items reports)

  abbrev pub worker_start : Assignment → StartEngineRequest
  worker_start w = record {
    model_ref = plan.model_id;
    role = worker;
    layer_start = w.layer_start;
    layer_end = w.layer_end;
    peers = [];
    quantization = plan.quantization;
    draft = w.draft;
  }

  abbrev pub start_call : Ran → Call Json Time
  start_call r = start_engine r.at.agent_addr (worker_start r.of)

  abbrev pub host_start : Assignment → List String → StartEngineRequest
  host_start h peers = record {
    model_ref = plan.model_id;
    role = host;
    layer_start = h.layer_start;
    layer_end = h.layer_end;
    peers = peers;
    quantization = plan.quantization;
    draft = h.draft;
  }

  abbrev pub refs : List Ran → List EngineRef
  refs = map {A = Ran} (λ r. record {
    node_id = r.of.node_id;
    agent_addr = r.at.agent_addr;
    role = "worker";
    handle = r.handle;
  })

  abbrev pub addresses : List Ran → List String
  addresses = map (λ r. r.at.inference_addr)

  -- the engines are stopped, the last one first
  abbrev pub stops : List Ran → Calls Json Time out
  stops ran = map (λ r. stop_engine r.at.agent_addr r.handle) (reverse ran)

  pub rollback-refs : (ran : List Ran) → rollback Json Time out (refs ran) ≡ stops ran
  unfolding rollback
  rollback-refs [] = refl
  rollback-refs (r ∷ ran) =
      ap (λ c. c ++ stop_engine r.at.agent_addr r.handle ∷ []) (rollback-refs ran)
      ∙ sym (ap (map stop) (reverse-cons r ran) ∙ map-append stop (reverse ran) (r ∷ []))
    where
      stop : Ran → Call Json Time
      stop r = stop_engine r.at.agent_addr r.handle

  -- Each engine in turn was resolved and reported READY after the calls before it.
  abbrev pub AreReady : Calls Json Time out → List Ran → Type 0
  AreReady past [] = Unit {0}
  AreReady past (r ∷ ran) =
      (out.resolve past r.of.node_id ≡ some r.at)
      × IsUp past r.at.agent_addr (worker_start r.of) r.handle
      × AreReady (past ++ start_call r ∷ []) ran

  -- The address of the node is not known, and nothing is called; or the engine was started there and
  -- did not report READY.
  abbrev pub FailsAt :
      Calls Json Time out → Assignment → StartEngineRequest → Calls Json Time out → Type 0
  FailsAt past a req attempt =
      ((out.resolve past a.node_id ≡ none) × (attempt ≡ []))
      ⊎ ((at : Endpoint) × (out.resolve past a.node_id ≡ some at)
          × ((handle : String) → ¬ IsUp past at.agent_addr req handle)
          × (attempt ≡ start_engine at.agent_addr req ∷ []))

  -- The assignment after those that ran fails: the next worker, or the host after the last of them.
  abbrev pub NextFails :
      Calls Json Time out → Assignment → List Ran → List Assignment → Calls Json Time out → Type 0
  NextFails past h ran [] attempt = FailsAt past h (host_start h (addresses ran)) attempt
  NextFails past h ran (w ∷ rest) attempt = FailsAt past w (worker_start w) attempt

  module _ (id : String) where
    -- the row of the deployment
    abbrev pub row : String → DeploymentDetail → Deployment Json Time
    row state detail = record {
      id = id;
      model_id = plan.model_id;
      plan_id = plan.plan_id;
      state = state;
      detail = out.encode detail;
      created_at = out.zero_time;
      updated_at = out.zero_time;
    }

    abbrev pub opening_row : Deployment Json Time
    opening_row = row "DEPLOYMENT_STATE_PROVISIONING" (record {
      model_id = plan.model_id;
      quantization = plan.quantization;
      host_node_id = "";
      endpoint = "";
      engines = [];
      failover_plan_id = "";
      error = "";
    })

    abbrev pub first_calls : Calls Json Time out
    first_calls =
        create_deployment opening_row
        ∷ append_audit "deployment.provisioning" id
            (("model_id", plan.model_id) ∷ ("plan_id", plan.plan_id) ∷ [])
        ∷ []

    abbrev pub failed_detail : Reason → List Ran → DeploymentDetail
    failed_detail reason ran = record {
      model_id = plan.model_id;
      quantization = plan.quantization;
      host_node_id = "";
      endpoint = "";
      engines = refs ran;
      failover_plan_id = "";
      error = reason_text reason;
    }

    -- the last calls of a failed deployment: it is recorded as FAILED, with the engines that were ready
    abbrev pub closing : Reason → List Ran → Calls Json Time out
    closing reason ran =
        update_deployment (row "DEPLOYMENT_STATE_FAILED" (failed_detail reason ran))
        ∷ append_audit "deployment.failed" id (("reason", reason_text reason) ∷ [])
        ∷ []

    pub rolled_back :
        (reason : Reason) (ran : List Ran) (attempt : Calls Json Time out)
        → map start_call ran
            ++ (attempt ++ (rollback Json Time out (refs ran) ++ closing reason ran))
          ≡ map start_call ran ++ (attempt ++ (stops ran ++ closing reason ran))
    rolled_back reason ran attempt =
        ap (λ c. map start_call ran ++ (attempt ++ (c ++ closing reason ran))) (rollback-refs ran)

    module _ (h : Assignment) where
      abbrev pub live_detail : List Ran → Endpoint → String → DeploymentDetail
      live_detail ran at handle = record {
        model_id = plan.model_id;
        quantization = plan.quantization;
        host_node_id = h.node_id;
        endpoint = "http://" +++ at.inference_addr;
        engines =
            refs ran
            ++ record {
              node_id = h.node_id;
              agent_addr = at.agent_addr;
              role = "host";
              handle = handle;
            }
              ∷ [];
        failover_plan_id = "";
        error = "";
      }

      -- the last calls of a deployment: it is recorded as ACTIVE with all the engines, and its route is
      -- published
      abbrev pub going_live : List Ran → Endpoint → String → Calls Json Time out
      going_live ran at handle =
          update_deployment (row "DEPLOYMENT_STATE_ACTIVE" (live_detail ran at handle))
          ∷ append_audit "deployment.active" id
              (("host", h.node_id) ∷ ("endpoint", "http://" +++ at.inference_addr) ∷ [])
          ∷ upsert_route (record {
            model_id = plan.model_id;
            endpoint = "http://" +++ at.inference_addr;
            deployment_id = id;
            quantization = plan.quantization;
            state = "active";
          })
          ∷ []

      -- A finished deployment.
      pub record IsDeployed (past : Calls Json Time out) (workers : List Assignment)
          (run : Result ApplyError String × Calls Json Time out) : Type 0 where
        pub ran : List Ran
        pub all_workers : map (λ r. r.of) ran ≡ workers
        pub workers_ready : AreReady past ran
        pub at : Endpoint
        pub handle : String
        pub host_resolved : out.resolve (past ++ map start_call ran) h.node_id ≡ some at
        pub host_ready :
            IsUp (past ++ map start_call ran) at.agent_addr (host_start h (addresses ran)) handle
        pub answer : run.0 ≡ ok id
        pub calls :
            run.1
            ≡ map start_call ran
              ++ start_engine at.agent_addr (host_start h (addresses ran))
                ∷ going_live ran at handle

      -- A failed one: the engines that were ready are stopped, the last one first.
      pub record IsRolledBack (past : Calls Json Time out) (workers : List Assignment)
          (run : Result ApplyError String × Calls Json Time out) : Type 0 where
        pub ran : List Ran
        pub rest : List Assignment
        pub some_workers : map (λ r. r.of) ran ++ rest ≡ workers
        pub workers_ready : AreReady past ran
        pub reason : Reason
        pub attempt : Calls Json Time out
        pub next_fails : NextFails (past ++ map start_call ran) h ran rest attempt
        pub answer : run.0 ≡ err (failed id reason)
        pub calls : run.1 ≡ map start_call ran ++ (attempt ++ (stops ran ++ closing reason ran))

      abbrev pub Outcome :
          Calls Json Time out
          → List Assignment
          → Result ApplyError String × Calls Json Time out
          → Type 0
      Outcome past workers run = IsDeployed past workers run ⊎ IsRolledBack past workers run
