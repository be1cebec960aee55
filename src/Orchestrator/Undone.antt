-- ===== src/Orchestrator/Undone.antt =====
-- Teardown after Apply, go/controlplane/orchestrator/orchestrator.go.
use purser.Prelude.{
  Option, none, some, List, [], ◌∷◌, ◌++◌, map, String, str_eq, true, false, ◌≡◌, refl, ap, ◌∙◌,
  sym, inl, inr, arith,
}
use mathlib.Core.List.{append_assoc, append-nil}
use purser.Config.Result.{Result, ok}
use purser.Planner.Types.{Assignment}
use purser.Registry.Rows.{Deployment}
use purser.Orchestrator.Types.{
  EngineRef, DeploymentDetail, Endpoint, PlanMessage, Call, create_deployment, update_deployment,
  append_audit, start_engine, stop_engine, upsert_route, delete_route, Outside,
}
use purser.Orchestrator.Calls.{Calls, ApplyError, rollback, apply}
use purser.Orchestrator.Split.{IsSplit}
use purser.Orchestrator.Deployed.{
  Ran, start_call, refs, addresses, stops, rollback-refs, host_start, row, opening_row, first_calls,
  live_detail, going_live, IsDeployed,
}
use purser.Orchestrator.Outcome.{apply-Outcome}
use purser.Orchestrator.Manage.{teardown}

module _ (Json Time : Type 0) (out : Outside Json Time) where
  rollback-append :
      (xs ys : List EngineRef)
      → rollback Json Time out (xs ++ ys) ≡ rollback Json Time out ys ++ rollback Json Time out xs
  unfolding rollback
  rollback-append [] ys = sym (append-nil (rollback Json Time out ys))
  rollback-append (x ∷ xs) ys =
      ap (λ c. c ++ stop_engine x.agent_addr x.handle ∷ []) (rollback-append xs ys)
      ∙ append_assoc (rollback Json Time out ys) (rollback Json Time out xs) _

  -- the row that a call writes
  abbrev written : Call Json Time → Option (Deployment Json Time)
  written (create_deployment r) = some r
  written (update_deployment r) = some r
  written (append_audit action target details) = none
  written (start_engine addr req) = none
  written (stop_engine addr handle) = none
  written (upsert_route u) = none
  written (delete_route m) = none

  abbrev latest :
      Option (Deployment Json Time) → Option (Deployment Json Time) → Option (Deployment Json Time)
  latest none old = old
  latest (some r) old = some r

  -- The row that calls for one deployment leave in the registry: the last that they write.
  abbrev pub last_row : Calls Json Time out → Option (Deployment Json Time)
  last_row [] = none
  last_row (c ∷ calls) = latest (last_row calls) (written c)

  last_row-append :
      (xs ys : Calls Json Time out) (r : Deployment Json Time)
      → last_row ys ≡ some r
      → last_row (xs ++ ys) ≡ some r
  last_row-append [] ys r h = h
  last_row-append (x ∷ xs) ys r h = ap (λ o. latest o (written x)) (last_row-append xs ys r h)

  module _ (plan : PlanMessage) (id : String) (h : Assignment) where
    -- What Teardown calls for a deployment with these engines.
    abbrev pub undoing : List Ran → Endpoint → String → Calls Json Time out
    undoing ran at handle =
        let live = live_detail Json Time out plan id h ran at handle in
        update_deployment (row Json Time out plan id "DEPLOYMENT_STATE_STOPPING" live)
        ∷ append_audit "deployment.stopping" id []
        ∷ stop_engine at.agent_addr handle
        ∷ (stops Json Time out plan ran
            ++ delete_route plan.model_id
              ∷ update_deployment (row Json Time out plan id "DEPLOYMENT_STATE_STOPPED" live)
              ∷ append_audit "deployment.stopped" id []
              ∷ [])

    teardown-undoing :
        (json : (d : DeploymentDetail) → out.decode (out.encode d) ≡ d) (ran : List Ran)
        (at : Endpoint) (handle : String) (later : Calls Json Time out)
        → str_eq plan.model_id "" ≡ false
        → out.get_deployment later id
          ≡ some (
              row Json Time out plan id "DEPLOYMENT_STATE_ACTIVE"
                (live_detail Json Time out plan id h ran at handle))
        → teardown Json Time out id later ≡ (ok tt, undoing ran at handle)
    unfolding teardown
    teardown-undoing json ran at handle later named found =
        rw
          (
            teardown,
            found,
            json _,
            named,
            rollback-append (refs Json Time out plan ran) _,
            rollback-refs Json Time out plan ran,
          )
          refl

    deployed-last_row :
        (past : Calls Json Time out) (workers : List Assignment)
        (run : Result ApplyError String × Calls Json Time out)
        (d : IsDeployed Json Time out plan id h past workers run)
        → last_row (first_calls Json Time out plan id ++ run.1)
          ≡ some (
              row Json Time out plan id "DEPLOYMENT_STATE_ACTIVE"
                (live_detail Json Time out plan id h d.ran d.at d.handle))
    deployed-last_row past workers run d =
        let starts = map (start_call Json Time out plan) d.ran in
        let start =
          start_engine d.at.agent_addr
            (host_start Json Time out plan h (addresses Json Time out plan d.ran)) in
        let live = going_live Json Time out plan id h d.ran d.at d.handle in
        let active =
          row Json Time out plan id "DEPLOYMENT_STATE_ACTIVE"
            (live_detail Json Time out plan id h d.ran d.at d.handle) in
        ap (λ c. last_row (first_calls Json Time out plan id ++ c)) d.calls
        ∙ last_row-append (first_calls Json Time out plan id) (starts ++ start ∷ live) active
            (last_row-append starts (start ∷ live) active refl)

    -- The plan splits into workers and the host, the row of its deployment is created, its model has a
    -- name, details survive their JSON, and Apply returned the ID. Then Apply started the engines of
    -- the workers and the host, each reported READY with its handle, and they are what it called
    -- besides going live; and Teardown, at a time when the registry holds the last row that Apply
    -- wrote, succeeds and stops exactly these engines with these handles: the host first, then the
    -- workers from the last to the first. Before that the row goes to STOPPING; after it the route of
    -- the model is deleted and the row goes to STOPPED.
    pub teardown-undoes_apply :
        (json : (d : DeploymentDetail) → out.decode (out.encode d) ≡ d)
        (past later : Calls Json Time out) (workers : List Assignment)
        → IsSplit plan.assignments workers (some h)
        → out.creates past (opening_row Json Time out plan id) ≡ true
        → str_eq plan.model_id "" ≡ false
        → (apply Json Time out true (some plan) id past).0 ≡ ok id
        → out.get_deployment later id ≡ last_row (apply Json Time out true (some plan) id past).1
        → (run : Result ApplyError String × Calls Json Time out) × (apply Json Time out true
              (some plan)
              id
              past
            ≡ (run.0, first_calls Json Time out plan id ++ run.1))
          × (d : IsDeployed Json Time out plan id h
              (past ++ first_calls Json Time out plan id)
              workers
              run)
          × (teardown Json Time out id later ≡ (ok tt, undoing d.ran d.at d.handle))
    teardown-undoes_apply json past later workers split created named returned kept =
        let (run, same, end) = apply-Outcome Json Time out plan id h past workers split created in
        elim end [
          | inr bad ↦ absurd (ground (arith, sym returned ∙ ap (λ r. r.0) same ∙ bad.answer))
          | inl d ↦ (
            run,
            same,
            d,
            teardown-undoing json d.ran d.at d.handle later named (
                kept
                ∙ ap (λ r. last_row r.1) same
                ∙ deployed-last_row (past ++ first_calls Json Time out plan id) workers run d),
          )
        ]
