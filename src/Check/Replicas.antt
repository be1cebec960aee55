-- ===== src/Check/Replicas.antt =====
-- Failover plans and replicas of four nodes, with a planner that puts every layer on the first node.
use mathlib.Core.List.Perm
use purser.Prelude.{◌≡◌, refl, false, some, none, List, [], ◌∷◌, String}
use purser.Config.Result.{Result, ok, err}
use purser.Planner.Types.{Node, host}
use purser.Planner.Draft.{DeploymentPlan}
use purser.Planner.Failover.{Primary, compute_failover_plans}
use purser.Planner.Failover.Covered.{IsCovered, compute_failover_plans-IsCovered}
use purser.Planner.Replica.{
  ReplicaSet, round_robin, plan_replica_set, plan_groups, groups_from, group,
}
use purser.Planner.Replica.Disjoint.{IsDisjoint, plan_replica_set-IsDisjoint}
use purser.Check.Fixed.{fixed}
use purser.Check.Fleet.{node, model}

abbrev on_node : String → DeploymentPlan
on_node id = record {
  assignments =
      record { node_id = id; role = host; layer_start = 0; layer_end = 3; draft = false } ∷ [];
  explanation = [];
}

abbrev plan : List (Node fixed) → Result String DeploymentPlan
plan [] = err "no nodes"
plan (n ∷ nodes) = ok (on_node n.id)

abbrev fleet : List (Node fixed)
fleet = node "a" 40 200 ∷ node "b" 30 100 ∷ node "c" 30 100 ∷ node "d" 30 100 ∷ []

abbrev primary : Primary fixed plan
primary = record { assignments = (on_node "a").assignments; failover_alt = λ k. none; lost = [] }

compute_failover_plans-IsCovered_example :
    (out : Primary fixed plan) × (compute_failover_plans fixed plan (some primary) fleet ≡ some out)
    × IsCovered fixed plan fleet primary out
compute_failover_plans-IsCovered_example =
    compute_failover_plans-IsCovered fixed plan fleet primary (λ k. refl)

abbrev two_replicas : ReplicaSet
two_replicas = record {
  model_id = "m";
  replicas = on_node "a" ∷ on_node "c" ∷ [];
  routing = round_robin;
}

plan_replica_set-IsDisjoint_example : IsDisjoint fixed plan fleet 2 two_replicas
unfolding plan_replica_set plan_groups groups_from group
plan_replica_set-IsDisjoint_example =
    plan_replica_set-IsDisjoint fixed plan (λ nodes. nodes) (λ nodes. Perm.refl nodes) fleet model 2
      two_replicas refl
