-- ===== src/Planner/Choose.antt =====
-- The filter of the nodes and phase A, the choice of a quantization, go/planner/plan/plan.go.
use purser.Prelude.{
  Bool, true, false, not, ◌&&◌, ◌||◌, Option, none, some, List, [], ◌∷◌, String, str_eq,
  if◌then◌else◌, length,
}
use purser.Planner.Float.{Float64}
use purser.Planner.Types.{Node, ModelSpec, Quantization, Constraints}
use purser.Planner.Memory.{overhead_os_runtime_gb, useful_capacity}

-- m[id] of a set made by toSet
unfoldable pub in_set : String → List String → Bool
in_set id [] = false
in_set id (s ∷ ss) = str_eq s id || in_set id ss

abbrev pub is_nil {ℓ} : {A : Type ℓ} → List A → Bool
is_nil [] = true
is_nil (x ∷ xs) = false

module _ (F : Float64) where
  open F use {T, of_nat, add, sub, mul, lt, le}

  -- PlanError, less its texts: what is wrong, and DeficitGB where it is set
  pub data QuantError : Type 0 where
    no_quantizations : QuantError
    not_offered : String → QuantError
    forced_too_large : String → T → QuantError
    too_large : T → QuantError

  pub data Choice : Type 0 where
    chosen : Quantization F → Choice
    failed : QuantError → Choice

  unfoldable pub apply_node_filter : List (Node F) → Constraints F → List (Node F)
  apply_node_filter [] c = []
  apply_node_filter (n ∷ nodes) c =
      let rest = apply_node_filter nodes c in
      if in_set n.id c.exclude_nodes
      then rest
      else if not (is_nil c.include_nodes) && not (in_set n.id c.include_nodes)
      then rest
      else n ∷ rest

  unfoldable pub any_fp4 : List (Node F) → Bool
  any_fp4 [] = false
  any_fp4 (n ∷ nodes) = if n.fp4_native then true else any_fp4 nodes

  unfoldable pub lookup_quant : List (Quantization F) → String → Option (Quantization F)
  lookup_quant [] name = none
  lookup_quant (q ∷ qs) name = if str_eq q.name name then some q else lookup_quant qs name

  -- the loop that sums RAMAvailableGB
  unfoldable pub ram_from : T → List (Node F) → T
  ram_from total [] = total
  ram_from total (n ∷ nodes) = ram_from (add total n.ram_available_gb) nodes

  -- sort.SliceStable by falling quality
  unfoldable pub rank_quant : Quantization F → List (Quantization F) → List (Quantization F)
  rank_quant q [] = q ∷ []
  rank_quant q (p ∷ ps) =
      let rest = rank_quant q ps in if lt q.quality p.quality then p ∷ rest else q ∷ p ∷ ps

  unfoldable pub rank_quants : List (Quantization F) → List (Quantization F)
  rank_quants [] = []
  rank_quants (q ∷ qs) = rank_quant q (rank_quants qs)

  abbrev pub mark_fp4 : List (Node F) → Quantization F → Quantization F
  mark_fp4 nodes q = record q { emulated_fp4 = q.requires_fp4 && not (any_fp4 nodes) }

  -- q.SizeGB + kv + overhead
  unfoldable pub quant_need : List (Node F) → T → Quantization F → T
  quant_need nodes kv q =
      add (add q.size_gb kv) (mul (overhead_os_runtime_gb F) (of_nat (length nodes)))

  -- the loop over the ranked quantizations
  unfoldable pub first_fit : List (Node F) → T → List (Quantization F) → Option (Quantization F)
  unfolding ram_from quant_need
  first_fit nodes kv [] = none
  first_fit nodes kv (q ∷ qs) =
      let rest = first_fit nodes kv qs in
      if le (quant_need nodes kv q) (ram_from (of_nat 0) nodes)
      then some (mark_fp4 nodes q)
      else rest

  unfoldable pub smallest_from : Quantization F → List (Quantization F) → Quantization F
  smallest_from smallest [] = smallest
  smallest_from smallest (q ∷ qs) =
      smallest_from (if lt q.size_gb smallest.size_gb then q else smallest) qs

  abbrev deficit : List (Node F) → T → Quantization F → T
  deficit nodes kv q = sub (quant_need nodes kv q) (ram_from (of_nat 0) nodes)

  abbrev pub too_large_for : List (Node F) → T → List (Quantization F) → Choice
  too_large_for nodes kv [] = failed no_quantizations
  too_large_for nodes kv (q ∷ qs) = failed (too_large (deficit nodes kv (smallest_from q (q ∷ qs))))

  abbrev pub or_too_large :
      List (Node F) → T → List (Quantization F) → Option (Quantization F) → Choice
  or_too_large nodes kv ranked (some q) = chosen q
  or_too_large nodes kv ranked none = too_large_for nodes kv ranked

  abbrev pub forced : List (Node F) → T → String → Option (Quantization F) → Choice
  forced nodes kv name none = failed (not_offered name)
  forced nodes kv name (some q) =
      if lt (ram_from (of_nat 0) nodes) (quant_need nodes kv q)
      then failed (forced_too_large q.name (deficit nodes kv q))
      else chosen (mark_fp4 nodes q)

  abbrev pub choose_quantization :
      List (Node F) → List (Quantization F) → T → Option String → Choice
  choose_quantization nodes qs kv (some name) = forced nodes kv name (lookup_quant qs name)
  choose_quantization nodes qs kv none =
      or_too_large nodes kv (rank_quants qs) (first_fit nodes kv (rank_quants qs))

  unfoldable pub select_quantization : List (Node F) → ModelSpec F → T → Constraints F → Choice
  select_quantization nodes model kv c =
      if is_nil model.quantizations
      then failed no_quantizations
      else choose_quantization nodes model.quantizations kv c.force_quant

  -- the loop over nodes[1:]
  unfoldable pub best_from : Node F → List (Node F) → Node F
  best_from best [] = best
  best_from best (n ∷ nodes) =
      best_from (if lt (useful_capacity F best) (useful_capacity F n) then n else best) nodes

  -- `none` is the index panic on no nodes.
  unfoldable pub best_node_by_capacity : List (Node F) → Option (Node F)
  best_node_by_capacity [] = none
  best_node_by_capacity (n ∷ nodes) = some (best_from n nodes)
