-- ===== src/Planner/Replica/Disjoint.antt =====
-- The replicas of PlanReplicaSet, go/planner/plan/replica.go, share no node.
use mathlib.Core.List.{Perm}
use mathlib.Core.List.Perm
use mathlib.Core.List.{append-nil}
use purser.Prelude.{
  ℕ, zero, suc, ◌+◌, ◌-◌, ◌*◌, ◌/◌, ◌≤◌, ◌≡◌, refl, true, false, List, [], ◌∷◌, ◌++◌, String,
  length, ltb, ◌==◌, Bool-cases, inl, inr, arith, ap, sym, ◌∙◌, subst,
}
use purser.Config.Result.{Result, ok, err}
use purser.Planner.Float.{Float64}
use purser.Planner.Types.{Node, ModelSpec}
use purser.Planner.Draft.{DeploymentPlan}
use purser.Planner.Subsets.{take}
use purser.Planner.Replica.{
  ReplicaSet, ReplicaError, drop, group, groups_from, add_plan, plan_groups, set_of, single,
  with_trial, plan_replica_set,
}

module _ {ℓ} {A : Type ℓ} where
  abbrev pub concat : List (List A) → List A
  concat [] = []
  concat (xs ∷ xss) = xs ++ concat xss

  take-drop : (n : ℕ) (xs : List A) → take n xs ++ drop n xs ≡ xs
  take-drop zero xs = refl
  take-drop (suc n) [] = refl
  take-drop (suc n) (x ∷ xs) = ap (λ r. x ∷ r) (take-drop n xs)

  drop-nil : (n : ℕ) → drop {A = A} n [] ≡ []
  drop-nil zero = refl
  drop-nil (suc n) = refl

  drop_add : (m n : ℕ) (xs : List A) → drop n (drop m xs) ≡ drop (m + n) xs
  drop_add zero n xs = ap (λ k. drop k xs) (omega arith)
  drop_add (suc m) n [] = drop-nil n ∙ sym (drop-nil (suc m + n))
  drop_add (suc m) n (x ∷ xs) =
      drop_add m n xs
      ∙ ap (λ k. drop k (x ∷ xs)) (let e : suc (m + n) ≡ suc m + n = omega arith in e)

  length-drop : (n : ℕ) (xs : List A) → length (drop n xs) ≡ length xs - n
  length-drop zero xs = omega arith
  length-drop (suc n) [] = omega arith
  length-drop (suc n) (x ∷ xs) = omega (arith, length-drop n xs)

  take_all : (n : ℕ) (xs : List A) → length xs ≤ n → take n xs ≡ xs
  take_all zero [] h = refl
  take_all (suc n) [] h = refl
  take_all zero (x ∷ xs) h = absurd (omega arith)
  take_all (suc n) (x ∷ xs) h = ap (λ r. x ∷ r) (take_all n xs (omega arith))

module _ (F : Float64) {E : Type 0} (plan : List (Node F) → Result E DeploymentPlan) where
  groups_concat :
      (ranked : List (Node F)) (count size left i : ℕ)
      → suc left + i ≡ count
      → concat (groups_from F plan ranked count size (suc left) i) ≡ drop (i * size) ranked
  unfolding groups_from group
  groups_concat ranked count size zero i e =
      let start = i * size in
      let last : (i == count - 1) ≡ true = ground (arith, e) in
      rw last (
        append-nil _
        ∙ take_all (length ranked - start) (drop start ranked)
            (omega (arith, length-drop start ranked)))
  groups_concat ranked count size (suc left) i e =
      let start = i * size in
      let earlier : (i == count - 1) ≡ false = ground (arith, e) in
      let next : suc i * size ≡ start + size = omega arith in
      rw earlier (
        ap (λ r. take (start + size - start) (drop start ranked) ++ r)
          (groups_concat ranked count size left (suc i) (omega (arith, e))
            ∙ (ap (λ k. drop k ranked) next ∙ sym (drop_add start size ranked)))
        ∙ (ap (λ k. take k (drop start ranked) ++ drop size (drop start ranked)) (omega arith)
            ∙ take-drop size (drop start ranked)))

  groups_length :
      (ranked : List (Node F)) (count size left i : ℕ)
      → length (groups_from F plan ranked count size left i) ≡ left
  unfolding groups_from
  groups_length ranked count size zero i = refl
  groups_length ranked count size (suc left) i =
      ap suc (groups_length ranked count size left (suc i))

  -- Each replica is the plan of the group at its place.
  abbrev pub ArePlanned : List (List (Node F)) → List DeploymentPlan → Type 0
  ArePlanned [] [] = Unit {0}
  ArePlanned [] (p ∷ ps) = ⊥
  ArePlanned (g ∷ gs) [] = ⊥
  ArePlanned (g ∷ gs) (p ∷ ps) = (plan g ≡ ok p) × ArePlanned gs ps

  add_plan-ok :
      (i : ℕ) (r : Result E DeploymentPlan) (rest : Result (ReplicaError E) (List DeploymentPlan))
      (ps : List DeploymentPlan)
      → add_plan F plan i r rest ≡ ok ps
      → (p : DeploymentPlan) × (qs : List DeploymentPlan) × (r ≡ ok p)
        × (rest ≡ ok qs)
        × (p ∷ qs ≡ ps)
  add_plan-ok i (err e) rest ps h = absurd (ground (arith, h))
  add_plan-ok i (ok p) (err e) ps h = absurd (ground (arith, h))
  add_plan-ok i (ok p) (ok qs) ps h = (p, qs, refl, refl, ground (arith, h))

  plan_groups-ArePlanned :
      (i : ℕ) (groups : List (List (Node F))) (ps : List DeploymentPlan)
      → plan_groups F plan i groups ≡ ok ps
      → ArePlanned groups ps
  unfolding plan_groups
  plan_groups-ArePlanned i [] [] h = tt
  plan_groups-ArePlanned i [] (p ∷ ps) h = absurd (ground (arith, h))
  plan_groups-ArePlanned i (g ∷ groups) ps h =
      let (p, qs, planned, rest, same) =
        add_plan-ok i (plan g) (plan_groups F plan (suc i) groups) ps h in
      subst (ArePlanned (g ∷ groups)) same (planned, plan_groups-ArePlanned (suc i) groups qs rest)

  -- The replicas run on groups that are as many as asked for and that together hold each node once.
  pub record IsDisjoint (nodes : List (Node F)) (count : ℕ) (set : ReplicaSet) : Type 0 where
    pub groups : List (List (Node F))
    pub as_many : length groups ≡ count
    pub covers : Perm nodes (concat groups)
    pub planned : ArePlanned groups set.replicas

  set_of-replicas :
      (id : String) (r : Result (ReplicaError E) (List DeploymentPlan)) (set : ReplicaSet)
      → set_of F plan id r ≡ ok set
      → r ≡ ok set.replicas
  set_of-replicas id (err e) set h = absurd (ground (arith, h))
  set_of-replicas id (ok ps) set h = ground (arith, h)

  module _ (rank : List (Node F) → List (Node F))
      (ranks : (nodes : List (Node F)) → Perm nodes (rank nodes)) where
    trial-IsDisjoint :
        (id : String) (nodes : List (Node F)) (count : ℕ) (trial : Result E DeploymentPlan)
        (set : ReplicaSet)
        → with_trial F plan id (rank nodes) (suc count) trial ≡ ok set
        → IsDisjoint nodes (suc count) set
    trial-IsDisjoint id nodes count (err e) set h = absurd (ground (arith, h))
    trial-IsDisjoint id nodes count (ok trial) set h =
        let ranked = rank nodes in
        let size = length ranked / suc count in
        let first : 0 * size ≡ 0 = omega arith in
        let groups = groups_from F plan ranked (suc count) size (suc count) 0 in
        elim (Bool-cases (ltb (length ranked) (length trial.assignments * suc count))) [
          | inl few ↦ absurd (ground (arith, rw few at h))
          | inr enough ↦ record {
            groups = groups;
            as_many = groups_length ranked (suc count) size (suc count) 0;
            covers =
                subst (Perm nodes)
                  (sym (
                    groups_concat ranked (suc count) size count 0 (omega arith)
                    ∙ ap (λ k. drop k ranked) first))
                  (ranks nodes);
            planned =
                plan_groups-ArePlanned 0 groups set.replicas
                  (set_of-replicas id _ set (rw enough at h));
          }
        ]

    -- A replica set that PlanReplicaSet returns has as many replicas as asked for, each of them what Plan
    -- makes of its group of nodes; together the groups hold each node of the fleet exactly once. The
    -- ranking of the nodes may be any that permutes them.
    pub plan_replica_set-IsDisjoint :
        (nodes : List (Node F)) (model : ModelSpec F) (count : ℕ) (set : ReplicaSet)
        → plan_replica_set F plan rank nodes model count ≡ ok set
        → IsDisjoint nodes count set
    unfolding plan_replica_set
    plan_replica_set-IsDisjoint nodes model zero set h = absurd (ground (arith, h))
    plan_replica_set-IsDisjoint nodes model (suc zero) set h = by_plan (plan nodes) refl h
      where
        by_plan :
            (r : Result E DeploymentPlan)
            → plan nodes ≡ r
            → single F plan model.id r ≡ ok set
            → IsDisjoint nodes 1 set
        by_plan (err e) planned h = absurd (ground (arith, h))
        by_plan (ok p) planned h =
            let same : p ∷ [] ≡ set.replicas = ground (arith, h) in
            record {
              groups = nodes ∷ [];
              as_many = refl;
              covers = subst (Perm nodes) (sym (append-nil nodes)) (Perm.refl nodes);
              planned = subst (ArePlanned (nodes ∷ [])) same (planned, tt);
            }
    plan_replica_set-IsDisjoint [] model (suc (suc count)) set h = absurd (ground (arith, h))
    plan_replica_set-IsDisjoint (n ∷ nodes) model (suc (suc count)) set h =
        trial-IsDisjoint model.id (n ∷ nodes) (suc count) _ set h
