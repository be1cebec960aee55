-- ===== src/Orchestrator/Apply.antt =====
-- What Apply, go/controlplane/orchestrator/orchestrator.go, calls and in which order.
use mathlib.Core.List.{append_assoc, append-nil}
use purser.Prelude.{
  sym, subst, some, List, [], ◌∷◌, ◌++◌, map, String, ◌≡◌, refl, inl, inr, ap, Option-cases,
}
use purser.Planner.Types.{Assignment}
use purser.Orchestrator.Types.{EngineRef, PlanMessage, start_engine, Outside}
use purser.Orchestrator.Calls.{
  Reason, resolve_worker, worker_not_ready, resolve_host, host_not_ready, Progress, all_ready,
  stuck, Calls, start_and_wait_ready, worker_request, host_request, engine_of, start_workers, fail,
  start_host,
}
use purser.Orchestrator.Deployed.{
  Ran, IsUp, start_and_wait_ready-IsUp, start_call, refs, addresses, rolled_back, AreReady,
  worker_start, FailsAt, start_and_wait_ready-none, Outcome,
}

module _ (Json Time : Type 0) (out : Outside Json Time) (plan : PlanMessage) where
  -- How the loop over the workers ends.
  pub data Ends (past : Calls Json Time out) (started : List EngineRef) (peers : List String)
      (ws : List Assignment) (run : Progress Json Time out × Calls Json Time out) : Type 0 where
    all :
        (ran : List Ran)
        → map (λ r. r.of) ran ≡ ws
        → AreReady Json Time out plan past ran
        → run ≡ (
          all_ready
              (started ++ refs Json Time out plan ran)
              (peers ++ addresses Json Time out plan ran),
          map (start_call Json Time out plan) ran,
        )
        → Ends past started peers ws run
    part :
        (ran : List Ran) (reason : Reason) (attempt : Calls Json Time out) (w : Assignment)
        (rest : List Assignment)
        → map (λ r. r.of) ran ++ w ∷ rest ≡ ws
        → AreReady Json Time out plan past ran
        → FailsAt Json Time out plan
            (past ++ map (start_call Json Time out plan) ran)
            w
            (worker_start Json Time out plan w)
            attempt
        → run ≡ (
          stuck reason (started ++ refs Json Time out plan ran),
          map (start_call Json Time out plan) ran ++ attempt,
        )
        → Ends past started peers ws run

  cons-Ends :
      (past : Calls Json Time out) (started : List EngineRef) (peers : List String) (r : Ran)
      (ws : List Assignment) (run : Progress Json Time out × Calls Json Time out)
      → out.resolve past r.of.node_id ≡ some r.at
      → IsUp Json Time out plan past r.at.agent_addr
          (worker_request Json Time out plan r.of)
          r.handle
      → Ends
          (past ++ start_call Json Time out plan r ∷ [])
          (started ++ engine_of Json Time out "worker" r.of r.at r.handle ∷ [])
          (peers ++ r.at.inference_addr ∷ [])
          ws
          run
      → Ends past started peers (r.of ∷ ws) (run.0, start_call Json Time out plan r ∷ run.1)
  cons-Ends past started peers r ws run found ready (all ran e rs h) =
      all (r ∷ ran) (ap (λ x. r.of ∷ x) e) (found, ready, rs)
        (rw h (rw (append_assoc started, append_assoc peers) refl))
  cons-Ends past started peers r ws run found ready (part ran reason attempt w rest e rs a h) =
      part (r ∷ ran) reason attempt w rest (ap (λ x. r.of ∷ x) e) (found, ready, rs)
        (subst (λ p. FailsAt Json Time out plan p w (worker_start Json Time out plan w) attempt)
          (append_assoc past (start_call Json Time out plan r ∷ []) _) a)
        (rw h (rw (append_assoc started) refl))

  at_once :
      (past : Calls Json Time out) (w : Assignment) (attempt : Calls Json Time out)
      → FailsAt Json Time out plan past w (worker_start Json Time out plan w) attempt
      → FailsAt Json Time out plan (past ++ []) w (worker_start Json Time out plan w) attempt
  at_once past w attempt f =
      subst (λ p. FailsAt Json Time out plan p w (worker_start Json Time out plan w) attempt)
        (sym (append-nil past)) f

  pub start_workers-Ends :
      (past : Calls Json Time out) (started : List EngineRef) (peers : List String)
      (ws : List Assignment)
      → Ends past started peers ws (start_workers Json Time out plan past started peers ws)
  unfolding start_workers
  start_workers-Ends past started peers [] =
      all [] refl tt (rw (append-nil started, append-nil peers) refl)
  start_workers-Ends past started peers (w ∷ ws) =
      elim (Option-cases (out.resolve past w.node_id)) [
        | inl missing ↦
            rw (start_workers, missing)
              (part [] (resolve_worker w.node_id) [] w ws refl tt
                (at_once past w [] (inl (missing, refl))) (rw (append-nil started) refl))
        | inr (ep, found) ↦
            let req = worker_request Json Time out plan w in
            elim (Option-cases (start_and_wait_ready Json Time out past ep.agent_addr req)) [
              | inl late ↦
                  rw (start_workers, found, late)
                    (part [] (worker_not_ready w.node_id) (start_engine ep.agent_addr req ∷ []) w ws
                      refl tt
                      (at_once past w (start_engine ep.agent_addr req ∷ []) (
                        inr (
                          ep,
                          found,
                          start_and_wait_ready-none Json Time out plan past ep.agent_addr req late,
                          refl,
                        )))
                      (rw (append-nil started) refl))
              | inr (handle, ready) ↦
                  let r : Ran = record { of = w; at = ep; handle = handle } in
                  rw (start_workers, found, ready)
                    (cons-Ends past started peers r ws _ found
                      (start_and_wait_ready-IsUp Json Time out plan past ep.agent_addr req handle
                        ready)
                      (start_workers-Ends (past ++ start_call Json Time out plan r ∷ [])
                        (started ++ engine_of Json Time out "worker" w ep handle ∷ [])
                        (peers ++ ep.inference_addr ∷ []) ws))
            ]
      ]

  module _ (id : String) (h : Assignment) where
    pub host-Outcome :
        (past : Calls Json Time out) (ran : List Ran)
        → AreReady Json Time out plan past ran
        → let end =
            start_host Json Time out id plan h
              (past ++ map (start_call Json Time out plan) ran)
              (refs Json Time out plan ran)
              (addresses Json Time out plan ran) in
          Outcome Json Time out plan id h past
            (map (λ r. r.of) ran)
            (end.0, map (start_call Json Time out plan) ran ++ end.1)
    unfolding start_host fail
    host-Outcome past ran ready =
        let before = past ++ map (start_call Json Time out plan) ran in
        let req = host_request Json Time out plan h (addresses Json Time out plan ran) in
        elim (Option-cases (out.resolve before h.node_id)) [
          | inl missing ↦
              rw (start_host, missing)
                (inr (record {
                  ran = ran;
                  rest = [];
                  some_workers = append-nil _;
                  workers_ready = ready;
                  reason = resolve_host h.node_id;
                  attempt = [];
                  next_fails = inl (missing, refl);
                  answer = refl;
                  calls = rolled_back Json Time out plan id (resolve_host h.node_id) ran [];
                }))
          | inr (ep, found) ↦
              elim (Option-cases (start_and_wait_ready Json Time out before ep.agent_addr req)) [
                | inl late ↦
                    rw (start_host, found, late)
                      (inr (record {
                        ran = ran;
                        rest = [];
                        some_workers = append-nil _;
                        workers_ready = ready;
                        reason = host_not_ready h.node_id;
                        attempt = start_engine ep.agent_addr req ∷ [];
                        next_fails = inr (
                          ep,
                          found,
                          start_and_wait_ready-none Json Time out plan before ep.agent_addr req
                              late,
                          refl,
                        );
                        answer = refl;
                        calls =
                            rolled_back Json Time out plan id (host_not_ready h.node_id) ran
                              (start_engine ep.agent_addr req ∷ []);
                      }))
                | inr (handle, up) ↦
                    rw (start_host, found, up)
                      (inl (record {
                        ran = ran;
                        all_workers = refl;
                        workers_ready = ready;
                        at = ep;
                        handle = handle;
                        host_resolved = found;
                        host_ready =
                            start_and_wait_ready-IsUp Json Time out plan before ep.agent_addr req
                              handle up;
                        answer = refl;
                        calls = refl;
                      }))
              ]
        ]
