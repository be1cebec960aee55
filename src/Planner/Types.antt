-- ===== src/Planner/Types.antt =====
-- The domain types of go/planner/plan/types.go. An `int` that the code only accepts when positive
-- (layers, heads, context) is a natural number. The maps that the planner itself never reads
-- (engine versions) are association lists.
use purser.Prelude.{ℕ, Bool, String, Option, List}
use purser.Planner.Float.{Float64}

pub data AttentionType : Type 0 where
  unspecified mha gqa mla linear : AttentionType

pub data Mode : Type 0 where
  auto propose manual : Mode

pub data Role : Type 0 where
  unspecified host worker : Role

-- [start, end], both inclusive
pub record LayerRange : Type 0 where
  pub start : ℕ
  pub end : ℕ

pub record DraftInfo : Type 0 where
  pub available : Bool
  pub kind : String
  pub tail_layers : ℕ

pub record Assignment : Type 0 where
  pub node_id : String
  pub role : Role
  pub layer_start : ℕ
  pub layer_end : ℕ
  pub draft : Bool

module _ (F : Float64) where
  open F use {T}

  pub record Node : Type 0 where
    pub id : String
    pub ram_total_gb : T
    pub ram_available_gb : T
    pub vram_gb : T
    pub unified_memory : Bool
    pub mem_bandwidth_gbs : T
    pub backends : List String
    pub fp4_native : Bool
    pub engine_versions : List (String × String)
    pub disk_free_gb : T
    pub kv_ssd_offload : Bool
    pub prefix_caching_factor : T

  -- `from` and `to` of the code
  pub record Link : Type 0 where
    pub source : String
    pub target : String
    pub rtt_ms : T
    pub bandwidth_gbs : T

  pub record Quantization : Type 0 where
    pub name : String
    pub size_gb : T
    pub requires_fp4 : Bool
    pub quality : T
    pub emulated_fp4 : Bool

  pub record ModelSpec : Type 0 where
    pub id : String
    pub is_moe : Bool
    pub layers : ℕ
    pub params_total_b : T
    pub params_active_b : T
    pub hidden_size : ℕ
    pub n_kv_heads : ℕ
    pub head_dim : ℕ
    pub attention_type : AttentionType
    pub context_max : ℕ
    pub quantizations : List (Quantization)
    pub draft : DraftInfo
    pub kv_compression_ratio : T

  -- A nil pointer is `none`. The map `pinned` is the list of its entries.
  pub record Constraints : Type 0 where
    pub pinned : List (LayerRange × String)
    pub include_nodes : List String
    pub exclude_nodes : List String
    pub force_node_count : Option ℕ
    pub force_quant : Option String
    pub force_host : Option String
    pub quality_weight_bias : T
    pub mode : Mode
    pub replica_count : ℕ
    pub allowed_node_ids : List String

  pub record PerfEstimate : Type 0 where
    pub decode_min : T
    pub decode_max : T
    pub prefill_min : T
    pub prefill_max : T
    pub headroom_gb : T
