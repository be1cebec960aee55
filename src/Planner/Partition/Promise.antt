-- ===== src/Planner/Partition/Promise.antt =====
-- What dpPartition promises its caller, from hypotheses on its inputs alone.
use purser.Prelude.{
  ℕ, ◌≤◌, ◌≡◌, ◌⊎◌, inl, inr, false, none, some, List, length, get_elem?, ◌-◌, map, ap, sym, ◌∙◌,
  subst, none-ne-some,
}
use mathlib.Core.Option.{some-injective}
use purser.Planner.Float.{Float64, OrderLaws, GrowthLaws}
use purser.Planner.Types.{Node, Link, ModelSpec, Quantization, Assignment, host}
use purser.Planner.Stage.{build_link_index, compute_time, received}
use purser.Planner.Partition.Split.{IsSplit, place}
use purser.Planner.Partition.Cuts.{dp_partition}
use purser.Planner.Partition.Best.{
  slowest, InfiniteGrows, IsAchieved, dp_partition-least, dp_partition-outcome,
}
use purser.Planner.Partition.Fits.{AllFit, IsAchieved-AllFit}
use purser.Planner.Partition.Growth.{IsSized, stage_of-InfiniteGrows}

-- The time of a shard is finite on every node of the order, with what it waits for its input.
abbrev pub TimesAreFinite :
    (F : Float64) → List (Node F) → List (Link F) → ModelSpec F → Quantization F → Type 0
TimesAreFinite F order links model quant =
    (m i j : ℕ) (n : Node F)
    → get_elem? order (m - 1) ≡ some n
    → F.is_inf (
        F.add (compute_time F n model quant i j)
          (received F order model (build_link_index F links) m n))
      ≡ false

module _ (F : Float64) (laws : OrderLaws F) (growth : GrowthLaws F) (order : List (Node F))
    (links : List (Link F)) (model : ModelSpec F) (quant : Quantization F) (context : ℕ)
    (sized : IsSized F model quant context)
    (finite : TimesAreFinite F order links model quant) where
  grows : InfiniteGrows F order links model quant context
  grows = stage_of-InfiniteGrows F growth model quant context sized laws order links finite

  -- For a sized model whose shards have finite times: no split of the layers into non-empty
  -- contiguous shards, one for each node of a prefix of the order, has a slowest stage that is faster
  -- than the time dpPartition returns.
  pub dp_partition-optimal :
      (ends : List ℕ)
      → IsSplit 0 model.layers ends
      → length ends ≤ length order
      → F.lt
          (slowest F order links model quant context ends)
          (dp_partition F order links model quant context).1
        ≡ false
  dp_partition-optimal ends split fits =
      dp_partition-least F order links model quant context laws grows ends sized.some_layers split
        fits

  -- For a sized model whose shards have finite times: if dpPartition returns assignments with a time,
  -- then they place a split of all the layers on a prefix of the order, the first node as the host,
  -- each shard fits the memory of its node with the headroom margin, and the time is that of the
  -- slowest stage.
  pub dp_partition_sound :
      (assignments : List Assignment) (best : F.T)
      → dp_partition F order links model quant context ≡ (some assignments, best)
      → (ends : List ℕ) × IsSplit 0 model.layers ends
        × (length ends ≤ length order)
        × (assignments ≡ place host (map (λ n. n.id) order) 0 ends)
        × AllFit F order links model quant context 0 0 ends
        × (slowest F order links model quant context ends ≡ best)
  dp_partition_sound assignments best e =
      go (dp_partition-outcome F order links model quant context laws grows)
    where
      go :
          (dp_partition F order links model quant context ≡ (none, F.inf))
            ⊎ ((as' : List Assignment) × (best' : F.T) × (dp_partition F order links model quant
                    context
                  ≡ (some as', best'))
                × IsAchieved F order links model quant context as' best')
          → (ends : List ℕ) × IsSplit 0 model.layers ends
            × (length ends ≤ length order)
            × (assignments ≡ place host (map (λ n. n.id) order) 0 ends)
            × AllFit F order links model quant context 0 0 ends
            × (slowest F order links model quant context ends ≡ best)
      go (inl failed) = absurd (none-ne-some assignments (ap (λ r. r.0) failed) (ap (λ r. r.0) e))
      go (inr (as', best', e', a)) = (
        a.ends,
        a.split,
        a.fits,
        some-injective _ _ (ap (λ r. r.0) (sym e ∙ e')) ∙ a.placed,
        IsAchieved-AllFit F order links model quant context laws as' best' a,
        a.time ∙ ap (λ r. r.1) (sym e' ∙ e),
      )

  -- For a sized model whose shards have finite times: if dpPartition returns nil, then the slowest
  -- stage of every split of the layers on a prefix of the order does not take a time below infinity.
  pub dp_partition-infeasible :
      (dp_partition F order links model quant context).0 ≡ none
      → (ends : List ℕ) → IsSplit 0 model.layers ends
      → length ends ≤ length order
      → F.lt (slowest F order links model quant context ends) F.inf ≡ false
  dp_partition-infeasible e ends split fits =
      elim (dp_partition-outcome F order links model quant context laws grows) [
        | inl failed ↦
            subst (λ b. F.lt (slowest F order links model quant context ends) b ≡ false)
              (ap (λ r. r.1) failed) (dp_partition-optimal ends split fits)
        | inr (as', best', e', _) ↦ absurd (none-ne-some as' e (ap (λ r. r.0) e'))
      ]
