-- ===== src/Orchestrator/Split.antt =====
-- What partition and startAndWaitReady, go/controlplane/orchestrator/orchestrator.go, decide: the parts of
-- a plan, and whether a stream reports READY.
use mathlib.Core.List.{append-nil, append_assoc}
use mathlib.Core.Option.{some-injective}
use purser.Prelude.{
  some, none, Option, List, [], ◌∷◌, ◌++◌, String, ◌≡◌, refl, ap, ◌∙◌, sym, subst, none-ne-some,
}
use purser.Config.Result.{ok}
use purser.Planner.Types.{Assignment, host, worker}
use purser.Orchestrator.Types.{
  PlanMessage, StreamItem, ready_event, error_event, other_event, recv_error, end_of_stream,
}
use purser.Orchestrator.Calls.{partition, partition_from, need_host, wait_ready}

-- The assignments of a plan are these workers, in their order, and this host.
pub data IsSplit : List Assignment → List Assignment → Option Assignment → Type 0 where
  nobody : IsSplit [] [] none
  a_worker :
      (a : Assignment) (as' ws : List Assignment) (h : Option Assignment)
      → a.role ≡ worker
      → IsSplit as' ws h
      → IsSplit (a ∷ as') (a ∷ ws) h
  the_host :
      (a : Assignment) (as' ws : List Assignment)
      → a.role ≡ host
      → IsSplit as' ws none
      → IsSplit (a ∷ as') ws (some a)

worker_step :
    (a : Assignment) (as' workers : List Assignment) (found : Option Assignment)
    → a.role ≡ worker
    → partition_from workers found (a ∷ as') ≡ partition_from (workers ++ a ∷ []) found as'
unfolding partition_from
worker_step a as' workers found role = simp (partition_from, role)

host_step :
    (a : Assignment) (as' workers : List Assignment)
    → a.role ≡ host
    → partition_from workers none (a ∷ as') ≡ partition_from workers (some a) as'
unfolding partition_from
host_step a as' workers role = simp (partition_from, role)

partition_from-host :
    (as' ws workers : List Assignment) (found : Assignment) (h : Option Assignment)
    → IsSplit as' ws h
    → h ≡ none
    → partition_from workers (some found) as' ≡ ok (workers ++ ws, some found)
unfolding partition_from
partition_from-host as' ws workers found h nobody e =
    ap (λ x. ok (x, some found)) (sym (append-nil workers))
partition_from-host as' ws workers found h (a_worker a rest us h' role split) e =
    worker_step a rest workers (some found) role
    ∙ (partition_from-host rest us (workers ++ a ∷ []) found h split e
        ∙ ap (λ x. ok (x, some found)) (append_assoc workers (a ∷ []) us))
partition_from-host as' ws workers found h (the_host a rest us role split) e =
    absurd (none-ne-some _ refl (sym e))

partition_from-IsSplit :
    (as' ws workers : List Assignment) (h : Option Assignment)
    → IsSplit as' ws h
    → partition_from workers none as' ≡ ok (workers ++ ws, h)
unfolding partition_from
partition_from-IsSplit as' ws workers h nobody = ap (λ x. ok (x, none)) (sym (append-nil workers))
partition_from-IsSplit as' ws workers h (a_worker a rest us h' role split) =
    worker_step a rest workers none role
    ∙ (partition_from-IsSplit rest us (workers ++ a ∷ []) h split
        ∙ ap (λ x. ok (x, h)) (append_assoc workers (a ∷ []) us))
partition_from-IsSplit as' ws workers h (the_host a rest us role split) =
    host_step a rest workers role ∙ partition_from-host rest us workers a none split refl

pub partition-IsSplit :
    (plan : PlanMessage) (ws : List Assignment) (h : Assignment)
    → IsSplit plan.assignments ws (some h)
    → partition plan ≡ ok (ws, h)
unfolding partition
partition-IsSplit plan ws h split =
    ap need_host (partition_from-IsSplit plan.assignments ws [] (some h) split)

-- The stream reports READY with this handle, after events that say nothing.
pub data Reports (handle : String) : List StreamItem → Type 0 where
  now : (later : List StreamItem) → Reports handle (ready_event handle ∷ later)
  wait : (later : List StreamItem) → Reports handle later → Reports handle (other_event ∷ later)

pub wait_ready-Reports :
    (items : List StreamItem) (handle : String)
    → wait_ready items ≡ some handle
    → Reports handle items
unfolding wait_ready
wait_ready-Reports [] handle h = absurd (none-ne-some _ refl h)
wait_ready-Reports (ready_event other ∷ items) handle h =
    subst (λ x. Reports handle (ready_event x ∷ items)) (sym (some-injective _ _ h)) (now items)
wait_ready-Reports (error_event detail ∷ items) handle h = absurd (none-ne-some _ refl h)
wait_ready-Reports (other_event ∷ items) handle h = wait items (wait_ready-Reports items handle h)
wait_ready-Reports (recv_error ∷ items) handle h = absurd (none-ne-some _ refl h)
wait_ready-Reports (end_of_stream ∷ items) handle h = absurd (none-ne-some _ refl h)

pub Reports-wait_ready :
    (handle : String) (items : List StreamItem)
    → Reports handle items
    → wait_ready items ≡ some handle
unfolding wait_ready
Reports-wait_ready handle items (now later) = refl
Reports-wait_ready handle items (wait later r) = Reports-wait_ready handle later r
