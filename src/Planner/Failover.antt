-- ===== src/Planner/Failover.antt =====
-- Phase F, computeFailoverPlans of go/planner/plan/failover.go, over any planInternal. The plans of the
-- goroutines do not depend on each other, so they are computed where they are collected.
use purser.Prelude.{
  ℕ, Bool, true, false, ◌||◌, Option, none, some, List, [], ◌∷◌, ◌++◌, String, str_eq,
  if◌then◌else◌,
}
use purser.Config.Result.{Result, ok, err}
use purser.Planner.Float.{Float64}
use purser.Planner.Types.{Node, Assignment}
use purser.Planner.Ordering.{nodes_excluding}
pub mod Covered

module _ (F : Float64) {P E : Type 0} (plan_internal : List (Node F) → Result E P) where
  -- the map FailoverAlt; a nil plan is `none`
  abbrev pub Alternatives : Type 0
  Alternatives = String → Option (Option P)

  unfoldable pub set : String → Option P → Alternatives → Alternatives
  set id p alt k = if str_eq id k then some p else alt k

  abbrev pub is_present : Option (Option P) → Bool
  is_present none = false
  is_present (some p) = true

  -- the first loop: the slots, and the distinct nodes in the order of the assignments
  unfoldable pub claim_slots :
      List Assignment → Alternatives → List String → Alternatives × List String
  unfolding set
  claim_slots [] alt order = (alt, order)
  claim_slots (a ∷ as') alt order =
      if is_present (alt a.node_id)
      then claim_slots as' alt order
      else claim_slots as' (set a.node_id none alt) (order ++ a.node_id ∷ [])

  -- the last loop, with the nodes of the degrade/notify lines
  unfoldable pub fill_slots :
      List (Node F) → List String → Alternatives → List String → Alternatives × List String
  unfolding set nodes_excluding
  fill_slots nodes [] alt lost = (alt, lost)
  fill_slots nodes (dead ∷ order) alt lost = elim (plan_internal (nodes_excluding F nodes dead)) [
    | err e ↦ fill_slots nodes order alt (lost ++ dead ∷ [])
    | ok p ↦ fill_slots nodes order (set dead (some p) alt) lost
  ]

  -- What phase F reads and writes of a plan; the explanation is the nodes that its lines name. A nil map
  -- is the empty one.
  pub record Primary : Type 0 where
    pub assignments : List Assignment
    pub failover_alt : Alternatives
    pub lost : List String

  unfoldable pub compute_failover_plans : Option Primary → List (Node F) → Option Primary
  unfolding claim_slots fill_slots
  compute_failover_plans none nodes = none
  compute_failover_plans (some plan) nodes =
      let slots = claim_slots plan.assignments plan.failover_alt [] in
      let filled = fill_slots nodes slots.1 slots.0 plan.lost in
      some (record plan { failover_alt = filled.0; lost = filled.1 })
