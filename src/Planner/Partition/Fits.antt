-- ===== src/Planner/Partition/Fits.antt =====
-- Memory in dpPartition: the answer respects it on every node, and the early `break` of the loop is
-- justified by the growth of stageMemNeed.
use purser.Prelude.{
  ℕ, suc, ◌-◌, ◌≡◌, true, false, some, List, [], ◌∷◌, arith, get_elem?, Bool-cases, inl, inr,
}
use purser.Planner.Float.{Float64, OrderLaws}
use purser.Planner.Types.{Node, Link, ModelSpec, Quantization, Assignment}
use purser.Planner.Stage.{stage_time_at_idx, stage_time_with, stage_time_on, stage_fits}
use purser.Planner.Partition.Split.{bottleneck}
use purser.Planner.Partition.Best.{stage_of, IsAchieved}

module _ (F : Float64) (order : List (Node F)) (links : List (Link F)) (model : ModelSpec F)
    (quant : Quantization F) (context : ℕ) where
  abbrev stage_time : ℕ → ℕ → ℕ → F.T
  stage_time = stage_of F order links model quant context

  -- The nodes of the order from number `p` on have room for the shards that end at `ends`.
  abbrev pub AllFit : ℕ → ℕ → List ℕ → Type 0
  AllFit p i [] = Unit {0}
  AllFit p i (e ∷ ends) =
      ((n : Node F) → get_elem? order p ≡ some n → stage_fits F n model quant i e context ≡ true)
      × AllFit (suc p) e ends

  pred_suc : (p : ℕ) → suc p - 1 ≡ p
  pred_suc p = omega arith

  -- A shard that does not fit has infinite time.
  stage_time-inf :
      (p i e : ℕ) (n : Node F)
      → get_elem? order p ≡ some n
      → stage_fits F n model quant i e context ≡ false
      → stage_time (suc p) i e ≡ F.inf
  unfolding stage_time_at_idx stage_time_with
  stage_time-inf p i e n found full = rw (pred_suc p, found) (unfold stage_time_on in rw full)

  module _ (laws : OrderLaws F) where
    bottleneck-acc :
        (p i : ℕ) (acc : F.T) (ends : List ℕ)
        → F.lt (bottleneck F stage_time p acc i ends) F.inf ≡ true
        → F.lt acc F.inf ≡ true
    unfolding bottleneck
    bottleneck-acc p i acc [] h = h
    bottleneck-acc p i acc (e ∷ ends) h =
        let rest = bottleneck-acc (suc p) e _ ends h in
        ground (arith, rest, laws.max_lt acc (stage_time (suc p) i e) F.inf)

    bottleneck-AllFit :
        (p i : ℕ) (acc : F.T) (ends : List ℕ)
        → F.lt (bottleneck F stage_time p acc i ends) F.inf ≡ true
        → AllFit p i ends
    unfolding bottleneck
    bottleneck-AllFit p i acc [] h = tt
    bottleneck-AllFit p i acc (e ∷ ends) h = (
      λ n found. elim (Bool-cases (stage_fits F n model quant i e context)) [
        | inl fits ↦ fits
        | inr full ↦ absurd (
            ground (
              arith,
              bottleneck-acc (suc p) e _ ends h,
              stage_time-inf p i e n found full,
              laws.max_lt acc (stage_time (suc p) i e) F.inf,
              laws.lt_irrefl F.inf,
            ))
      ],
      bottleneck-AllFit (suc p) e _ ends h,
    )

    -- In a feasible answer of dpPartition every shard fits the useful memory of its node, with the
    -- headroom margin.
    pub IsAchieved-AllFit :
        (assignments : List Assignment) (best : F.T)
        → (a : IsAchieved F order links model quant context assignments best) → AllFit 0 0 a.ends
    IsAchieved-AllFit assignments best a =
        bottleneck-AllFit 0 0 (F.of_nat 0) a.ends (rw a.time a.finite)
