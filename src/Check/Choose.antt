-- ===== src/Check/Choose.antt =====
-- Phases A and E on the small fleet.
use purser.Prelude.{◌≡◌, refl, true, false, none, some, [], ◌∷◌, length}
use purser.Planner.Types.{ModelSpec, Constraints, auto, Assignment, host, worker}
use purser.Planner.Choose.{select_quantization, chosen, rank_quants, rank_quant, first_fit}
use purser.Planner.Ranked.{Selects, select_quantization-Selects}
use purser.Planner.Draft.{DeploymentPlan, IsPlaced, place_draft, place_draft-IsPlaced}
use purser.Planner.Subsets.{IsSubsets, rank_nodes, candidate_subsets, candidate_subsets-IsSubsets}
use purser.Check.Fixed.{fixed, fixed_order}
use purser.Check.Fleet.{gb, order, model, quant}

-- 100 GB do not fit 70 GB, the next best does.
abbrev offered : ModelSpec fixed
offered = record model {
  quantizations =
      quant
      ∷ record quant { name = "fp16"; size_gb = gb 100; quality = gb 3 }
      ∷ record quant { name = "q8"; size_gb = gb 60; quality = gb 2 }
      ∷ [];
  draft = record { available = true; kind = "mtp"; tail_layers = 1 };
}

abbrev free : Constraints fixed
free = record {
  pinned = [];
  include_nodes = [];
  exclude_nodes = [];
  force_node_count = none;
  force_quant = none;
  force_host = none;
  quality_weight_bias = gb 0;
  mode = auto;
  replica_count = 0;
  allowed_node_ids = [];
}

select_quantization-q8 :
    select_quantization fixed order offered (gb 1) free
    ≡ chosen (record quant { name = "q8"; size_gb = gb 60; quality = gb 2 })
unfolding select_quantization rank_quants rank_quant first_fit
select_quantization-q8 = refl

select_quantization-Selects_example :
    Selects fixed fixed_order order
      (gb 1)
      offered.quantizations
      (select_quantization fixed order offered (gb 1) free)
select_quantization-Selects_example =
    select_quantization-Selects fixed fixed_order order (gb 1) offered free refl
      (refl, (refl, (refl, tt)))

abbrev shard_a : Assignment
shard_a = record { node_id = "a"; role = host; layer_start = 0; layer_end = 2; draft = true }

abbrev shard_b : Assignment
shard_b = record { node_id = "b"; role = worker; layer_start = 3; layer_end = 3; draft = false }

place_draft-IsPlaced_example :
    (out : DeploymentPlan) × (place_draft fixed
        (some (record { assignments = shard_a ∷ shard_b ∷ []; explanation = [] }))
        offered
      ≡ some out)
    × IsPlaced (shard_a ∷ shard_b ∷ []) out.assignments
    × (length out.explanation ≡ 1)
place_draft-IsPlaced_example = place_draft-IsPlaced fixed offered shard_a (shard_b ∷ []) [] refl

candidate_subsets-IsSubsets_example :
    IsSubsets fixed
      (fixed.add quant.size_gb (gb 1))
      (rank_nodes fixed order)
      (candidate_subsets fixed order quant (gb 1) free)
candidate_subsets-IsSubsets_example = candidate_subsets-IsSubsets fixed order quant (gb 1) free refl
