-- ===== src/Check/Partition.antt =====
-- dpPartition on a fleet of two nodes.
use purser.Prelude.{
  ℕ, zero, suc, none-ne-some, subst, get_elem?, ◌-◌, ◌≡◌, refl, true, false, some, none, List, [],
  ◌∷◌, arith, length, ◌≤◌,
}
use mathlib.Core.Option.{some-injective}
use purser.Planner.Types.{Node, Quantization, Assignment, host, worker, Role}
use purser.Planner.Memory.{
  estimate_kv_cache, kv_cache_per_node, useful_memory, useful_memory_for_fit, min_float,
}
use purser.Planner.Stage.{
  build_link_index, index_from, stage_time_at_idx, stage_time_with, stage_time_on, stage_fits,
  stage_mem_need, compute_time, comm_time, received, effective_bandwidth, activation_bytes,
  stage_time_at, lookup_link,
}
use purser.Planner.Links.{stage_time_at_idx-eq-stage_time_at}
use purser.Planner.Partition.Cuts.{dp_partition}
use purser.Planner.Partition.Split.{IsSplit, place}
use purser.Planner.Partition.Best.{slowest}
use purser.Planner.Partition.Fits.{AllFit}
use purser.Planner.Partition.Growth.{IsSized, stage_fits-shorter}
use purser.Planner.Partition.Promise.{
  TimesAreFinite, dp_partition-optimal, dp_partition_sound, dp_partition-infeasible,
}
use purser.Check.Fixed.{milli, infinite, fixed, fixed_order, fixed_growth}
use purser.Check.Fleet.{gb, node, order, links, model, quant}

abbrev shard_of : Role → ℕ → ℕ → Assignment
shard_of host s e = record {
  node_id = "a";
  role = host;
  layer_start = s;
  layer_end = e;
  draft = false;
}
shard_of role s e = record {
  node_id = "b";
  role = role;
  layer_start = s;
  layer_end = e;
  draft = false;
}

dp_partition-two_nodes :
    dp_partition fixed order links model quant 0
    ≡ (some (shard_of host 0 2 ∷ shard_of worker 3 3 ∷ []), milli 150)
unfolding dp_partition stage_fits stage_mem_need stage_time_on kv_cache_per_node
    useful_memory_for_fit useful_memory received comm_time compute_time effective_bandwidth
    activation_bytes stage_time_with min_float estimate_kv_cache index_from
dp_partition-two_nodes = refl

abbrev quant_of : ℕ → Quantization fixed
quant_of s = record quant { size_gb = gb s }

model-IsSized : (s : ℕ) → IsSized fixed model (quant_of s) 0
unfolding estimate_kv_cache
model-IsSized s = record {
  some_layers = omega arith;
  int_layers = omega arith;
  size_nonneg = ground arith;
  size_finite = refl;
  kv_nonneg = refl;
  kv_finite = refl;
}

abbrev IsTimely : ℕ → ℕ → ℕ → ℕ → Node fixed → Type 0
IsTimely s m i j n =
    fixed.is_inf (
      fixed.add (compute_time fixed n model (quant_of s) i j)
        (received fixed order model (build_link_index fixed links) m n))
    ≡ false

times_are_finite : (s : ℕ) → TimesAreFinite fixed order links model (quant_of s)
unfolding compute_time received comm_time effective_bandwidth kv_cache_per_node activation_bytes
    build_link_index index_from estimate_kv_cache
times_are_finite s zero i j n h = subst (IsTimely s 0 i j) (some-injective _ _ h) refl
times_are_finite s (suc zero) i j n h = subst (IsTimely s 1 i j) (some-injective _ _ h) refl
times_are_finite s (suc (suc zero)) i j n h = subst (IsTimely s 2 i j) (some-injective _ _ h) refl
times_are_finite s (suc (suc (suc m))) i j n h =
    absurd (none-ne-some n {o = get_elem? order (suc (suc (suc m)) - 1)} (rw beyond) h)
  where
    beyond : suc (suc (suc m)) - 1 ≡ suc (suc m)
    beyond = omega arith

dp_partition-optimal_example :
    fixed.lt
      (slowest fixed order links model quant 0 (3 ∷ 4 ∷ []))
      (dp_partition fixed order links model quant 0).1
    ≡ false
dp_partition-optimal_example =
    dp_partition-optimal fixed fixed_order fixed_growth order links model quant 0 (model-IsSized 40)
      (times_are_finite 40) (3 ∷ 4 ∷ []) (omega arith) (omega arith)

dp_partition_sound_example :
    (ends : List ℕ) × IsSplit 0 4 ends
    × (length ends ≤ 2)
    × ((shard_of host 0 2 ∷ shard_of worker 3 3 ∷ []) ≡ place host ("a" ∷ "b" ∷ []) 0 ends)
    × AllFit fixed order links model quant 0 0 0 ends
    × (slowest fixed order links model quant 0 ends ≡ milli 150)
dp_partition_sound_example =
    dp_partition_sound fixed fixed_order fixed_growth order links model quant 0 (model-IsSized 40)
      (times_are_finite 40) (shard_of host 0 2 ∷ shard_of worker 3 3 ∷ []) (milli 150)
      dp_partition-two_nodes

-- 400 GB of weights do not fit both nodes.
dp_partition-too_large : (dp_partition fixed order links model (quant_of 400) 0).0 ≡ none
unfolding dp_partition stage_fits stage_mem_need stage_time_on kv_cache_per_node
    useful_memory_for_fit useful_memory received comm_time compute_time effective_bandwidth
    activation_bytes stage_time_with min_float estimate_kv_cache index_from
dp_partition-too_large = refl

dp_partition-infeasible_example :
    fixed.lt (slowest fixed order links model (quant_of 400) 0 (2 ∷ 4 ∷ [])) infinite ≡ false
dp_partition-infeasible_example =
    dp_partition-infeasible fixed fixed_order fixed_growth order links model (quant_of 400) 0
      (model-IsSized 400) (times_are_finite 400) dp_partition-too_large (2 ∷ 4 ∷ []) (omega arith)
      (omega arith)

stage_time_at_idx-eq-stage_time_at_example :
    stage_time_at_idx fixed order (build_link_index fixed links) model quant 0 2 3 4
    ≡ stage_time_at fixed order links model quant 0 2 3 4
unfolding lookup_link
stage_time_at_idx-eq-stage_time_at_example =
    stage_time_at_idx-eq-stage_time_at fixed order links model quant 0 2 3 4 (refl, (refl, tt))

-- the second node holds the last two layers, so it holds one of them
stage_fits-shorter_example : stage_fits fixed (node "b" 30 100) model quant 3 3 0 ≡ true
unfolding stage_fits stage_mem_need useful_memory_for_fit useful_memory kv_cache_per_node
    estimate_kv_cache
stage_fits-shorter_example =
    stage_fits-shorter fixed fixed_growth model quant 0 (model-IsSized 40) (node "b" 30 100) 3 3 4
      (omega arith) (omega arith) refl
