-- ===== src/Planner/Stage.antt =====
-- The stage-time model of go/planner/plan/partition.go. The two link look-ups, by scan and by index,
-- are both modelled: the index is built by successive insertion, so a later link replaces an earlier
-- one with the same ends.
use purser.Prelude.{
  ℕ, ◌-◌, Bool, ◌||◌, ◌&&◌, not, if◌then◌else◌, ◌==◌, String, str_eq, Option, none, some, List, [],
  ◌∷◌, get_elem?, ltb,
}
use purser.Planner.Float.{Float64}
use purser.Planner.Types.{Node, Link, ModelSpec, Quantization}
use purser.Planner.Memory.{
  bytes_fp16, overhead_os_runtime_gb, fit_fraction, reference_mem_bandwidth_gbs,
  kv_ssd_read_bandwidth_gbs, giga, kv_cache_per_node, useful_memory_for_fit,
}

module _ (F : Float64) where
  open F use {T, of_nat, add, sub, mul, div, lt, le, inf, min_of}

  unfoldable pub activation_bytes : ModelSpec F → T
  activation_bytes model = mul (of_nat model.hidden_size) (bytes_fp16 F)

  unfoldable pub lookup_link : List (Link F) → String → String → Option (Link F)
  lookup_link [] source target = none
  lookup_link (l ∷ links) source target =
      if str_eq l.source source && str_eq l.target target
      then some l
      else lookup_link links source target

  -- The map from the pair of ends: what a look-up finds after the links so far.
  abbrev pub LinkIndex : Type 0
  LinkIndex = String → String → Option (Link F)

  unfoldable pub index_from : List (Link F) → LinkIndex → LinkIndex
  index_from [] idx = idx
  index_from (l ∷ links) idx = index_from links (λ source target.
      if str_eq l.source source && str_eq l.target target then some l else idx source target)

  unfoldable pub build_link_index : List (Link F) → LinkIndex
  build_link_index links = index_from links (λ source target. none)

  unfoldable pub comm_time : ModelSpec F → Option (Link F) → T
  comm_time model none = of_nat 0
  comm_time model (some link) =
      let t = div link.rtt_ms (of_nat 1000) in
      if lt (of_nat 0) link.bandwidth_gbs
      then add t (div (activation_bytes model) (mul link.bandwidth_gbs (giga F)))
      else t

  unfoldable pub effective_bandwidth : Node F → T → T → T
  effective_bandwidth n shard_weight_bytes shard_kv_bytes =
      let vram_bw =
        if le n.mem_bandwidth_gbs (of_nat 0)
        then reference_mem_bandwidth_gbs F
        else n.mem_bandwidth_gbs in
      let vram_bytes = mul n.vram_gb (giga F) in
      let total_bytes = add shard_weight_bytes shard_kv_bytes in
      if not n.kv_ssd_offload || le vram_bytes (of_nat 0) || le total_bytes vram_bytes
      then vram_bw
      else let ssd_bytes = min_of (sub total_bytes vram_bytes) shard_kv_bytes in
        let vram_served = sub total_bytes ssd_bytes in
        let vram_frac = div vram_served total_bytes in
        let ssd_frac = div ssd_bytes total_bytes in
        div (of_nat 1) (add (div vram_frac vram_bw) (div ssd_frac (kv_ssd_read_bandwidth_gbs F)))

  unfoldable pub compute_time : Node F → ModelSpec F → Quantization F → ℕ → ℕ → T
  compute_time n model quant i j =
      if model.layers == 0
      then of_nat 0
      else let n_layers = of_nat (j - i) in
        let active_fraction =
          if lt (of_nat 0) model.params_total_b && lt (of_nat 0) model.params_active_b
          then div model.params_active_b model.params_total_b
          else of_nat 1 in
        let active_weight_bytes =
          div (mul (mul (mul quant.size_gb (giga F)) active_fraction) n_layers)
            (of_nat model.layers) in
        let shard_weight_bytes =
          div (mul (mul quant.size_gb (giga F)) n_layers) (of_nat model.layers) in
        let shard_kv_bytes = mul (kv_cache_per_node F model (j - i) model.context_max) (giga F) in
        let bw = effective_bandwidth n shard_weight_bytes shard_kv_bytes in
        div active_weight_bytes (mul bw (giga F))

  unfoldable pub stage_mem_need : ModelSpec F → Quantization F → ℕ → ℕ → ℕ → T
  stage_mem_need model quant i j context =
      if model.layers == 0
      then of_nat 0
      else let n_layers = j - i in
        let weight = div (mul quant.size_gb (of_nat n_layers)) (of_nat model.layers) in
        let kv = kv_cache_per_node F model n_layers context in
        add (add weight kv) (overhead_os_runtime_gb F)

  unfoldable pub stage_fits : Node F → ModelSpec F → Quantization F → ℕ → ℕ → ℕ → Bool
  stage_fits n model quant i j context =
      le (stage_mem_need model quant i j context) (mul (useful_memory_for_fit F n) (fit_fraction F))

  -- ct, the cost of receiving the activation from stage m - 1
  unfoldable pub received :
      List (Node F) → ModelSpec F → (String → String → Option (Link F)) → ℕ → Node F → T
  received order model link m node = if ltb m 2 then of_nat 0 else elim (get_elem? order (m - 2)) [
    | none ↦ of_nat 0
    | some previous ↦ comm_time model (link previous.id node.id)
  ]

  -- the stage time on node order[m-1], with the look-up of the link from order[m-2]; out of range,
  -- where the code never calls it, the model answers infinity
  unfoldable pub stage_time_on :
      (String → String → Option (Link F))
      → List (Node F)
      → ModelSpec F
      → Quantization F
      → ℕ
      → ℕ
      → ℕ
      → ℕ
      → Option (Node F)
      → T
  stage_time_on link order model quant context m i j none = inf
  stage_time_on link order model quant context m i j (some node) =
      if stage_fits node model quant i j context
      then add (compute_time node model quant i j) (received order model link m node)
      else inf

  -- The two forms of the stage time differ in the look-up alone.
  unfoldable pub stage_time_with :
      (String → String → Option (Link F))
      → List (Node F)
      → ModelSpec F
      → Quantization F
      → ℕ
      → ℕ
      → ℕ
      → ℕ
      → T
  stage_time_with link order model quant context m i j =
      stage_time_on link order model quant context m i j (get_elem? order (m - 1))

  unfoldable pub stage_time_at :
      List (Node F) → List (Link F) → ModelSpec F → Quantization F → ℕ → ℕ → ℕ → ℕ → T
  stage_time_at order links = stage_time_with (lookup_link links) order

  unfoldable pub stage_time_at_idx :
      List (Node F) → LinkIndex → ModelSpec F → Quantization F → ℕ → ℕ → ℕ → ℕ → T
  stage_time_at_idx order idx = stage_time_with idx order
