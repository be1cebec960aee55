-- ===== src/Planner/Replica.antt =====
-- PlanReplicaSet, go/planner/plan/replica.go, over any Plan. sort.Slice leaves the order of equal nodes
-- open, so the ranking is a parameter. A count that is not positive is 0.
use purser.Prelude.{
  ℕ, zero, suc, ◌+◌, ◌-◌, ◌*◌, ◌/◌, Bool, true, false, List, [], ◌∷◌, String, if◌then◌else◌, length,
  ltb, ◌==◌,
}
use purser.Config.Result.{Result, ok, err}
use purser.Planner.Float.{Float64}
use purser.Planner.Types.{Node, ModelSpec}
use purser.Planner.Draft.{DeploymentPlan}
use purser.Planner.Subsets.{take}
pub mod Disjoint

pub data RoutingPolicy : Type 0 where
  round_robin least_loaded : RoutingPolicy

pub record ReplicaSet : Type 0 where
  pub model_id : String
  pub replicas : List DeploymentPlan
  pub routing : RoutingPolicy

pub data ReplicaError (E : Type 0) : Type 0 where
  bad_count no_nodes : ReplicaError E
  plan_failed does_not_fit : E → ReplicaError E
  -- the nodes, the replicas and the nodes per replica
  too_few_nodes : ℕ → ℕ → ℕ → ReplicaError E
  replica_failed : ℕ → E → ReplicaError E

-- xs[n:]
abbrev pub drop {ℓ} : {A : Type ℓ} → ℕ → List A → List A
drop zero xs = xs
drop (suc n) [] = []
drop (suc n) (x ∷ xs) = drop n xs

module _ (F : Float64) {E : Type 0} (plan : List (Node F) → Result E DeploymentPlan) where
  -- ranked[start:end] of replica `i`
  unfoldable pub group : List (Node F) → ℕ → ℕ → ℕ → List (Node F)
  group ranked count size i =
      let start = i * size in
      let end = if i == count - 1 then length ranked else start + size in
      take (end - start) (drop start ranked)

  -- the loop over the replicas from `i`, with the rounds left
  unfoldable pub groups_from : List (Node F) → ℕ → ℕ → ℕ → ℕ → List (List (Node F))
  unfolding group
  groups_from ranked count size zero i = []
  groups_from ranked count size (suc left) i =
      group ranked count size i ∷ groups_from ranked count size left (suc i)

  abbrev pub add_plan :
      ℕ
      → Result E DeploymentPlan
      → Result (ReplicaError E) (List DeploymentPlan)
      → Result (ReplicaError E) (List DeploymentPlan)
  add_plan i (err e) rest = err (replica_failed i e)
  add_plan i (ok p) (err e) = err e
  add_plan i (ok p) (ok ps) = ok (p ∷ ps)

  -- the plans of the groups, or the first error
  unfoldable pub plan_groups :
      ℕ → List (List (Node F)) → Result (ReplicaError E) (List DeploymentPlan)
  plan_groups i [] = ok []
  plan_groups i (g ∷ groups) = let rest = plan_groups (suc i) groups in add_plan i (plan g) rest

  abbrev pub set_of :
      String → Result (ReplicaError E) (List DeploymentPlan) → Result (ReplicaError E) ReplicaSet
  set_of id (err e) = err e
  set_of id (ok ps) = ok (record { model_id = id; replicas = ps; routing = round_robin })

  abbrev pub single : String → Result E DeploymentPlan → Result (ReplicaError E) ReplicaSet
  single id (err e) = err (plan_failed e)
  single id (ok p) = ok (record { model_id = id; replicas = p ∷ []; routing = round_robin })

  abbrev pub or_full : List (Node F) → Result E DeploymentPlan → Result E DeploymentPlan
  or_full ranked (ok p) = ok p
  or_full ranked (err e) = plan ranked

  abbrev pub with_trial :
      String → List (Node F) → ℕ → Result E DeploymentPlan → Result (ReplicaError E) ReplicaSet
  with_trial id ranked count (err e) = err (does_not_fit e)
  with_trial id ranked count (ok trial) =
      let k_min = length trial.assignments in
      if ltb (length ranked) (k_min * count)
      then err (too_few_nodes (length ranked) count k_min)
      else set_of id (plan_groups 0 (groups_from ranked count (length ranked / count) count 0))

  abbrev pub split_fleet :
      String
      → (List (Node F) → List (Node F))
      → List (Node F)
      → ℕ
      → Result (ReplicaError E) ReplicaSet
  split_fleet id rank nodes count =
      let ranked = rank nodes in
      with_trial id ranked count (or_full ranked (plan (take (length ranked / 2 + 1) ranked)))

  unfoldable pub plan_replica_set :
      (List (Node F) → List (Node F))
      → List (Node F)
      → ModelSpec F
      → ℕ
      → Result (ReplicaError E) ReplicaSet
  unfolding plan_groups groups_from
  plan_replica_set rank nodes model zero = err bad_count
  plan_replica_set rank nodes model (suc zero) = single model.id (plan nodes)
  plan_replica_set rank [] model (suc (suc count)) = err no_nodes
  plan_replica_set rank (n ∷ nodes) model (suc (suc count)) =
      split_fleet model.id rank (n ∷ nodes) (suc (suc count))
