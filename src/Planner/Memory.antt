-- ===== src/Planner/Memory.antt =====
-- Memory estimates, go/planner/plan/plan.go: the KV cache and what a node can devote to a model.
use purser.Prelude.{ℕ, ◌||◌, ◌&&◌, not, if◌then◌else◌, ◌==◌}
use purser.Planner.Float.{Float64}
use purser.Planner.Types.{Node, ModelSpec, AttentionType, mha, gqa, mla, linear}

module _ (F : Float64) where
  open F use {T, of_nat, decimal, add, sub, mul, div, lt, le}

  -- the constants
  abbrev pub overhead_os_runtime_gb : T
  overhead_os_runtime_gb = of_nat 2

  abbrev pub bytes_fp16 : T
  bytes_fp16 = of_nat 2

  -- 1 - defaultHeadroomFraction, which Go computes exactly
  abbrev pub fit_fraction : T
  fit_fraction = decimal 9 1

  abbrev pub reference_mem_bandwidth_gbs : T
  reference_mem_bandwidth_gbs = of_nat 100

  abbrev pub kv_ssd_offload_factor : T
  kv_ssd_offload_factor = decimal 5 1

  abbrev pub kv_ssd_offload_max_multiplier : T
  kv_ssd_offload_max_multiplier = of_nat 2

  abbrev pub kv_ssd_read_bandwidth_gbs : T
  kv_ssd_read_bandwidth_gbs = of_nat 6

  abbrev pub giga : T
  giga = of_nat 1000000000

  unfoldable pub min_float : T → T → T
  min_float a b = if lt a b then a else b

  unfoldable pub default_kv_factor : AttentionType → T
  default_kv_factor AttentionType.unspecified = of_nat 1
  default_kv_factor mha = of_nat 1
  default_kv_factor gqa = of_nat 1
  default_kv_factor mla = decimal 10 2
  default_kv_factor linear = decimal 1 2

  unfoldable pub estimate_kv_cache : ModelSpec F → ℕ → T
  estimate_kv_cache model context =
      if context == 0 || model.layers == 0 || model.n_kv_heads == 0 || model.head_dim == 0
      then of_nat 0
      else let base =
          mul
            (mul
              (mul (mul (mul (of_nat 2) (of_nat model.layers)) (of_nat model.n_kv_heads))
                (of_nat model.head_dim))
              (of_nat context))
            bytes_fp16 in
        let factor =
          if lt (of_nat 0) model.kv_compression_ratio && le model.kv_compression_ratio (of_nat 1)
          then model.kv_compression_ratio
          else default_kv_factor model.attention_type in
        div (mul base factor) giga

  unfoldable pub kv_cache_per_node : ModelSpec F → ℕ → ℕ → T
  kv_cache_per_node model layers_on_node context =
      if model.layers == 0
      then of_nat 0
      else mul (estimate_kv_cache model context) (div (of_nat layers_on_node) (of_nat model.layers))

  unfoldable pub kv_cache_in_memory : ModelSpec F → ℕ → T → T
  kv_cache_in_memory model context_len factor =
      let full = estimate_kv_cache model context_len in
      if le factor (of_nat 0) || le (of_nat 1) factor
      then full
      else mul full (sub (of_nat 1) factor)

  unfoldable pub useful_memory : Node F → T
  useful_memory n =
      if n.unified_memory
      then n.ram_available_gb
      else if lt (of_nat 0) n.vram_gb
      then min_float n.ram_available_gb n.vram_gb
      else n.ram_available_gb

  unfoldable pub useful_memory_for_fit : Node F → T
  useful_memory_for_fit n =
      let base = useful_memory n in
      if not n.kv_ssd_offload || le n.disk_free_gb (of_nat 0)
      then base
      else let cap_base = if le n.vram_gb (of_nat 0) then n.ram_available_gb else n.vram_gb in
        let offered = mul kv_ssd_offload_factor n.disk_free_gb in
        let max_contrib = sub (mul kv_ssd_offload_max_multiplier cap_base) base in
        let ssd_contrib = if lt max_contrib offered then max_contrib else offered in
        if lt (of_nat 0) ssd_contrib then add base ssd_contrib else base

  unfoldable pub normalize_bandwidth : T → T
  normalize_bandwidth gbs =
      if le gbs (of_nat 0) then of_nat 1 else div gbs reference_mem_bandwidth_gbs

  unfoldable pub useful_capacity : Node F → T
  useful_capacity n = mul (useful_memory n) (normalize_bandwidth n.mem_bandwidth_gbs)
