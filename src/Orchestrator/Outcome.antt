-- ===== src/Orchestrator/Outcome.antt =====
-- How Apply, go/controlplane/orchestrator/orchestrator.go, ends.
use mathlib.Core.List.{append_assoc}
use purser.Prelude.{◌∷◌, ◌∙◌, true, some, List, [], ◌++◌, map, String, ◌≡◌, refl, inr, sym, subst}
use purser.Config.Result.{Result}
use purser.Planner.Types.{Assignment}
use purser.Orchestrator.Types.{PlanMessage, Outside}
use purser.Orchestrator.Calls.{
  ApplyError, Progress, Calls, fail, start_workers, after_workers, opening, apply,
}
use purser.Orchestrator.Split.{IsSplit, partition-IsSplit}
use purser.Orchestrator.Deployed.{rolled_back, opening_row, first_calls, Outcome}
use purser.Orchestrator.Apply.{Ends, all, part, start_workers-Ends, host-Outcome}

module _ (Json Time : Type 0) (out : Outside Json Time) (plan : PlanMessage) (id : String)
    (h : Assignment) where
  Ends-Outcome :
      (past : Calls Json Time out) (workers : List Assignment)
      (run : Progress Json Time out × Calls Json Time out)
      → Ends Json Time out plan past [] [] workers run
      → let end = after_workers Json Time out id plan h (past ++ run.1) run.0 in
        Outcome Json Time out plan id h past workers (end.0, run.1 ++ end.1)
  unfolding fail
  Ends-Outcome past workers run (all ran e ready same) =
      subst
        (λ r.
          let end = after_workers Json Time out id plan h (past ++ r.1) r.0 in
          Outcome Json Time out plan id h past workers (end.0, r.1 ++ end.1))
        (sym same) (renamed _ e (host-Outcome Json Time out plan id h past ran ready))
    where
      renamed :
          (end : Result ApplyError String × Calls Json Time out)
          → map (λ r. r.of) ran ≡ workers
          → Outcome Json Time out plan id h past (map (λ r. r.of) ran) end
          → Outcome Json Time out plan id h past workers end
      renamed end e o = subst (λ ws. Outcome Json Time out plan id h past ws end) e o
  Ends-Outcome past workers run (part ran reason attempt w rest e ready fails same) =
      subst
        (λ r.
          let end = after_workers Json Time out id plan h (past ++ r.1) r.0 in
          Outcome Json Time out plan id h past workers (end.0, r.1 ++ end.1))
        (sym same)
        (inr (record {
          ran = ran;
          rest = w ∷ rest;
          some_workers = e;
          workers_ready = ready;
          reason = reason;
          attempt = attempt;
          next_fails = fails;
          answer = refl;
          calls = append_assoc _ attempt _ ∙ rolled_back Json Time out plan id reason ran attempt;
        }))

  -- For a plan that splits into workers and one host, and whose deployment row is created: Apply first
  -- creates the row and records this. Then it either starts the workers in the order of the plan, each
  -- when the ones before it have reported READY, then the host with the addresses of all of them as its
  -- peers, records the deployment as ACTIVE with all the engines, publishes its route and returns its
  -- ID; or the node of the next of these is not resolved or its engine, started in vain, does not report
  -- READY, and then it stops the engines that were ready, the last one first, records the deployment as
  -- FAILED and returns an error.
  pub apply-Outcome :
      (past : Calls Json Time out) (workers : List Assignment)
      → IsSplit plan.assignments workers (some h)
      → out.creates past (opening_row Json Time out plan id) ≡ true
      → (run : Result ApplyError String × Calls Json Time out) × (apply Json Time out true
            (some plan)
            id
            past
          ≡ (run.0, first_calls Json Time out plan id ++ run.1))
        × Outcome Json Time out plan id h (past ++ first_calls Json Time out plan id) workers run
  unfolding apply
  apply-Outcome past workers split created =
      let open_past = past ++ opening Json Time out id plan in
      let run = start_workers Json Time out plan open_past [] [] workers in
      let end = after_workers Json Time out id plan h (open_past ++ run.1) run.0 in
      (
        (end.0, run.1 ++ end.1),
        rw (partition-IsSplit plan workers h split, created) refl,
        Ends-Outcome open_past workers run
            (start_workers-Ends Json Time out plan open_past [] [] workers),
      )
