-- ===== src/Planner/Partition/Growth.antt =====
-- The early `break` of dpPartition's inner loop: stageMemNeed grows with the shard.
use purser.Prelude.{
  ℕ, ◌-◌, ◌^◌, ◌≤◌, ◌<◌, ◌≡◌, refl, true, false, Option, none, some, List, arith, get_elem?, ◌==◌,
  String,
}
use purser.Planner.Float.{Float64, OrderLaws, GrowthLaws}
use purser.Planner.Types.{Node, Link, ModelSpec, Quantization}
use purser.Planner.Memory.{estimate_kv_cache, kv_cache_per_node}
use purser.Planner.Stage.{
  build_link_index, stage_time_at_idx, stage_time_with, stage_time_on, stage_fits, stage_mem_need,
  compute_time, received,
}
use purser.Planner.Partition.Best.{InfiniteGrows}

-- The sizes of the model are numbers of the ordinary kind: not negative, finite, at most an int of
-- layers.
pub record IsSized (F : Float64) (model : ModelSpec F) (quant : Quantization F) (context : ℕ)
    : Type 0 where
  pub some_layers : 0 < model.layers
  pub int_layers : model.layers < 2 ^ 63
  pub size_nonneg : F.le (F.of_nat 0) quant.size_gb ≡ true
  pub size_finite : F.lt quant.size_gb F.inf ≡ true
  pub kv_nonneg : F.le (F.of_nat 0) (estimate_kv_cache F model context) ≡ true
  pub kv_finite : F.lt (estimate_kv_cache F model context) F.inf ≡ true

module _ (F : Float64) (growth : GrowthLaws F) (model : ModelSpec F) (quant : Quantization F)
    (context : ℕ) (sized : IsSized F model quant context) where
  open F use {T, of_nat, add, mul, div, le, lt, inf}

  int_size : (b : ℕ) → b ≤ model.layers → b < 2 ^ 63
  int_size b hb = omega (arith, sized.int_layers)

  layers_ne : (model.layers == 0) ≡ false
  layers_ne = ground (arith, sized.some_layers)

  module _ (a b : ℕ) (h : a ≤ b) (hb : b ≤ model.layers) where
    of_nat-nonneg : (n : ℕ) → le (of_nat 0) (of_nat n) ≡ true
    of_nat-nonneg n = growth.of_nat_mono 0 n (omega arith)

    weight_mono :
        le
          (div (mul quant.size_gb (of_nat a)) (of_nat model.layers))
          (div (mul quant.size_gb (of_nat b)) (of_nat model.layers))
        ≡ true
    weight_mono = growth.div_mono _ _ model.layers sized.some_layers sized.int_layers (
        growth.mul_mono quant.size_gb (of_nat a) (of_nat b) sized.size_nonneg sized.size_finite
          (of_nat-nonneg a) (growth.of_nat_mono a b h) (growth.of_nat_finite b (int_size b hb)))

    weight-nonneg : le (of_nat 0) (div (mul quant.size_gb (of_nat a)) (of_nat model.layers)) ≡ true
    weight-nonneg = growth.div_nonneg _ model.layers sized.some_layers sized.int_layers (
        growth.mul_nonneg quant.size_gb (of_nat a) sized.size_nonneg sized.size_finite
          (of_nat-nonneg a) (growth.of_nat_finite a (int_size a (omega arith))))

    kv_mono : le (kv_cache_per_node F model a context) (kv_cache_per_node F model b context) ≡ true
    unfolding kv_cache_per_node
    kv_mono = rw (layers_ne) (
        growth.mul_mono (estimate_kv_cache F model context) _ _ sized.kv_nonneg sized.kv_finite
          (growth.div_nonneg _ model.layers sized.some_layers sized.int_layers (of_nat-nonneg a))
          (growth.div_mono _ _ model.layers sized.some_layers sized.int_layers
            (growth.of_nat_mono a b h))
          (growth.div_finite _ model.layers sized.some_layers sized.int_layers
            (growth.of_nat_finite b (int_size b hb))))

    kv-nonneg : le (of_nat 0) (kv_cache_per_node F model a context) ≡ true
    unfolding kv_cache_per_node
    kv-nonneg = rw (layers_ne) (
        growth.mul_nonneg (estimate_kv_cache F model context) _ sized.kv_nonneg sized.kv_finite
          (growth.div_nonneg _ model.layers sized.some_layers sized.int_layers (of_nat-nonneg a))
          (growth.div_finite _ model.layers sized.some_layers sized.int_layers
            (growth.of_nat_finite a (int_size a (omega arith)))))

  -- The memory of layers i up to j grows with j.
  pub stage_mem_need_mono :
      (i j k : ℕ)
      → j ≤ k
      → k ≤ model.layers
      → le (stage_mem_need F model quant i j context) (stage_mem_need F model quant i k context)
        ≡ true
  unfolding stage_mem_need
  stage_mem_need_mono i j k h hk =
      let less : j - i ≤ k - i = omega arith in
      let top : k - i ≤ model.layers = omega arith in
      rw layers_ne (
        growth.add_mono _ _ _ _
          (growth.add_nonneg _ _ (weight-nonneg (j - i) (k - i) less top)
            (kv-nonneg (j - i) (k - i) less top))
          (growth.of_nat_mono 0 2 (omega arith))
          (growth.add_mono _ _ _ _ (weight-nonneg (j - i) (k - i) less top)
            (kv-nonneg (j - i) (k - i) less top) (weight_mono (j - i) (k - i) less top)
            (kv_mono (j - i) (k - i) less top))
          (growth.of_nat_mono 2 2 (omega arith)))

  -- A node that has room for a shard has room for every shorter one from the same layer.
  pub stage_fits-shorter :
      (n : Node F) (i j k : ℕ)
      → j ≤ k
      → k ≤ model.layers
      → stage_fits F n model quant i k context ≡ true
      → stage_fits F n model quant i j context ≡ true
  unfolding stage_fits
  stage_fits-shorter n i j k h hk fits = growth.le_trans _ _ _ (stage_mem_need_mono i j k h hk) fits

  module _ (laws : OrderLaws F) (order : List (Node F)) (links : List (Link F))
      (finite : (m i j : ℕ) (n : Node F)
        → get_elem? order (m - 1) ≡ some n
        → F.is_inf (
            add
              (compute_time F n model quant i j)
              (received F order model (build_link_index F links) m n))
          ≡ false) where
    abbrev idx : String → String → Option (Link F)
    idx = build_link_index F links

    stage_time_on-grows :
        (m i j k : ℕ) (o : Option (Node F))
        → get_elem? order (m - 1) ≡ o
        → j ≤ k
        → k ≤ model.layers
        → F.is_inf (stage_time_on F idx order model quant context m i j o) ≡ true
        → F.is_inf (stage_time_on F idx order model quant context m i k o) ≡ true
    unfolding stage_time_on
    stage_time_on-grows m i j k none at h hk e = e
    stage_time_on-grows m i j k (some n) at h hk e =
        ground (arith, finite m i j n at, stage_fits-shorter n i j k h hk, laws.is_inf_inf)

    -- Where the times of the shards that fit are finite, an infinite stage time is the sign of a full
    -- node, so it stays infinite for every longer shard.
    pub stage_of-InfiniteGrows : InfiniteGrows F order links model quant context
    unfolding stage_time_at_idx stage_time_with
    stage_of-InfiniteGrows m i j k e h hk =
        stage_time_on-grows m i j k (get_elem? order (m - 1)) refl h hk e
