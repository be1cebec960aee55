-- ===== src/Check/Fleet.antt =====
-- A small fleet and a model for the tests of the planner, over the fixed-point numbers.
use purser.Prelude.{ℕ, true, false, List, [], ◌∷◌, String}
use purser.Planner.Types.{Node, Link, ModelSpec, Quantization, gqa}
use purser.Check.Fixed.{Fixed, fixed}

abbrev pub gb : ℕ → Fixed
gb n = fixed.of_nat n

abbrev pub node : String → ℕ → ℕ → Node fixed
node id ram bandwidth = record {
  id = id;
  ram_total_gb = gb ram;
  ram_available_gb = gb ram;
  vram_gb = gb 0;
  unified_memory = true;
  mem_bandwidth_gbs = gb bandwidth;
  backends = [];
  fp4_native = false;
  engine_versions = [];
  disk_free_gb = gb 0;
  kv_ssd_offload = false;
  prefix_caching_factor = gb 0;
}

abbrev pub link : String → String → Link fixed
link s t = record { source = s; target = t; rtt_ms = gb 1; bandwidth_gbs = gb 1 }

abbrev pub quant : Quantization fixed
quant = record {
  name = "q4";
  size_gb = gb 40;
  requires_fp4 = false;
  quality = gb 1;
  emulated_fp4 = false;
}

abbrev pub model : ModelSpec fixed
model = record {
  id = "m";
  is_moe = false;
  layers = 4;
  params_total_b = gb 0;
  params_active_b = gb 0;
  hidden_size = 8;
  n_kv_heads = 0;
  head_dim = 0;
  attention_type = gqa;
  context_max = 0;
  quantizations = quant ∷ [];
  draft = record { available = false; kind = ""; tail_layers = 0 };
  kv_compression_ratio = gb 0;
}

-- 40 GB of weights do not fit either node alone.
abbrev pub order : List (Node fixed)
order = node "a" 40 200 ∷ node "b" 30 100 ∷ []

abbrev pub links : List (Link fixed)
links = link "a" "b" ∷ link "b" "a" ∷ []
