-- ===== src/Planner/Partition/Cuts.antt =====
-- dpPartition and reconstructCuts, go/planner/plan/partition.go.
use purser.Prelude.{
  ℕ, ◌-◌, false, Option, none, some, List, [], ◌∷◌, if◌then◌else◌, leb, length, map, String,
}
use purser.Planner.Float.{Float64}
use purser.Planner.Types.{Node, Link, ModelSpec, Quantization, Assignment, Role, host, worker}
use purser.Planner.Stage.{build_link_index, stage_time_at_idx}
use purser.Planner.Partition.Table.{Tables, fresh, columns_loop, pick_loop, cut_starts}

-- The second loop of reconstructCuts, over consecutive entries of `starts`: the first stage is the
-- host. The order is the list of the node names that are left.
unfoldable pub shards : Role → List String → List ℕ → List Assignment
shards role [] starts = []
shards role (id ∷ order) [] = []
shards role (id ∷ order) (start ∷ []) = []
shards role (id ∷ order) (start ∷ end ∷ starts) =
    let rest = shards worker order (end ∷ starts) in
    if leb end start
    then rest
    else record {
      node_id = id;
      role = role;
      layer_start = start;
      layer_end = end - 1;
      draft = false;
    }
      ∷ rest

module _ (F : Float64) where
  open F use {T, inf, is_inf}

  unfoldable pub reconstruct_cuts :
      (ℕ → ℕ → Option ℕ) → ℕ → ℕ → List (Node F) → Option (List Assignment)
  unfolding cut_starts shards
  reconstruct_cuts cut L used_m order = elim (cut_starts cut used_m L (L ∷ [])) [
    | none ↦ none
    | some starts ↦ some (shards host (map (λ n. n.id) order) starts)
  ]

  -- `none` is the nil slice.
  unfoldable pub finish : Tables T → ℕ → List (Node F) → Option ℕ × T → Option (List Assignment) × T
  unfolding reconstruct_cuts
  finish t L order (none, best) = (none, inf)
  finish t L order (some best_m, best) =
      if is_inf best then (none, inf) else (reconstruct_cuts t.cut L best_m order, best)

  unfoldable pub dp_partition :
      List (Node F)
      → List (Link F)
      → ModelSpec F
      → Quantization F
      → ℕ
      → Option (List Assignment) × T
  unfolding finish pick_loop columns_loop fresh build_link_index stage_time_at_idx
  dp_partition order links model quant context =
      let idx = build_link_index F links in
      let stage = stage_time_at_idx F order idx model quant context in
      let t = columns_loop F stage model.layers (length order) 0 (fresh F stage) in
      finish t model.layers order (pick_loop F stage t model.layers (length order) 0 (none, inf))
