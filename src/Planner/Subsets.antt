-- ===== src/Planner/Subsets.antt =====
-- Phase B, candidateSubsets of go/planner/plan/partition.go: prefixes of the ranked nodes, from the
-- fewest that hold the model.
use purser.Prelude.{
  ℕ, zero, suc, ◌+◌, ◌≤◌, ◌<◌, ◌≡◌, Bool, true, false, Option, none, some, List, [], ◌∷◌,
  if◌then◌else◌, get_elem?, refl, ap, ◌∙◌, ◌⊎◌, length, ltb, leb, arith, Bool-cases, inl, inr,
  subst,
}
use purser.Planner.Float.{Float64}
use purser.Planner.Types.{Node, Quantization, Constraints}
use purser.Planner.Memory.{overhead_os_runtime_gb, useful_capacity, useful_memory_for_fit}

abbrev pub plan_delta : ℕ
plan_delta = 2

-- ranked[:k]
abbrev pub take {ℓ} : {A : Type ℓ} → ℕ → List A → List A
take zero xs = []
take (suc k) [] = []
take (suc k) (x ∷ xs) = x ∷ take k xs

module _ (F : Float64) where
  open F use {T, of_nat, add, mul, lt, le}

  -- sort.SliceStable by falling capacity
  unfoldable pub rank_node : Node F → List (Node F) → List (Node F)
  rank_node n [] = n ∷ []
  rank_node n (o ∷ nodes) =
      let rest = rank_node n nodes in
      if lt (useful_capacity F n) (useful_capacity F o) then o ∷ rest else n ∷ o ∷ nodes

  unfoldable pub rank_nodes : List (Node F) → List (Node F)
  rank_nodes [] = []
  rank_nodes (n ∷ nodes) = rank_node n (rank_nodes nodes)

  -- the clamp of ForceNodeCount to [1, len]
  unfoldable pub clamp_count : ℕ → ℕ → ℕ
  clamp_count k len = let low = if ltb k 1 then 1 else k in if ltb len low then len else low

  -- whether `k` nodes with the memory `agg` hold the model
  unfoldable pub holds : T → ℕ → T → Bool
  holds ram_needed k agg = le (add ram_needed (mul (overhead_os_runtime_gb F) (of_nat k))) agg

  -- the loop for k_min over ranked[k-1:], with the memory of the nodes before; -1 is `none`
  unfoldable pub k_min_loop : T → ℕ → T → List (Node F) → Option ℕ
  k_min_loop ram_needed k agg [] = none
  k_min_loop ram_needed k agg (n ∷ nodes) =
      let next = add agg (useful_memory_for_fit F n) in
      let rest = k_min_loop ram_needed (suc k) next nodes in
      if holds ram_needed k next then some k else rest

  -- the loop that collects the prefixes, with the rounds that may still follow
  unfoldable pub prefixes : ℕ → ℕ → List (Node F) → List (List (Node F))
  prefixes zero k ranked = []
  prefixes (suc rounds) k ranked =
      let rest = prefixes rounds (suc k) ranked in
      if leb k (length ranked) then take k ranked ∷ rest else []

  abbrev pub from_k_min : List (Node F) → Option ℕ → List (List (Node F))
  from_k_min ranked none = []
  from_k_min ranked (some k_min) = prefixes (suc plan_delta) k_min ranked

  abbrev pub choose_subsets : List (Node F) → T → Option ℕ → List (List (Node F))
  choose_subsets ranked ram_needed (some k) = take (clamp_count k (length ranked)) ranked ∷ []
  choose_subsets ranked ram_needed none =
      from_k_min ranked (k_min_loop ram_needed 1 (of_nat 0) ranked)

  unfoldable pub candidate_subsets :
      List (Node F) → Quantization F → T → Constraints F → List (List (Node F))
  unfolding rank_nodes k_min_loop prefixes
  candidate_subsets nodes quant kv c =
      choose_subsets (rank_nodes nodes) (add quant.size_gb kv) c.force_node_count

  -- the memory of the first `k` nodes, on top of `agg`
  unfoldable pub memory_of : T → ℕ → List (Node F) → T
  memory_of agg zero nodes = agg
  memory_of agg (suc k) [] = agg
  memory_of agg (suc k) (n ∷ nodes) = memory_of (add agg (useful_memory_for_fit F n)) k nodes

  -- The first `k` nodes have the memory that the model needs, and the overhead of each of them.
  abbrev pub Holds : T → List (Node F) → ℕ → Type 0
  Holds ram_needed ranked k =
      le (add ram_needed (mul (overhead_os_runtime_gb F) (of_nat k)))
        (memory_of (of_nat 0) k ranked)
      ≡ true

  -- The list holds the first k, k + 1 and k + 2 nodes, in this order, as far as there are so many.
  abbrev pub IsPrefix : ℕ → ℕ → List (Node F) → ℕ → Option (List (Node F)) → Type 0
  IsPrefix rounds k ranked i o =
      ((i < rounds) × (k + i ≤ length ranked) × (o ≡ some (take (k + i) ranked)))
      ⊎ (((rounds ≤ i) ⊎ (length ranked < k + i)) × (o ≡ none))

  abbrev pub IsPrefixesFrom : ℕ → List (Node F) → List (List (Node F)) → Type 0
  IsPrefixesFrom k ranked subsets = (i : ℕ) → IsPrefix 3 k ranked i (get_elem? subsets i)

  -- What phase B returns: the prefixes from the least count that holds the model, or none when no
  -- count does.
  pub data IsSubsets (ram_needed : T) (ranked : List (Node F)) (subsets : List (List (Node F)))
      : Type 0 where
    nothing_holds :
        ((k : ℕ) → 0 < k → k ≤ length ranked → ¬ Holds ram_needed ranked k)
        → subsets ≡ []
        → IsSubsets ram_needed ranked subsets
    from_least :
        (k : ℕ)
        → 0 < k
        → k ≤ length ranked
        → Holds ram_needed ranked k
        → ((j : ℕ) → 0 < j → j < k → ¬ Holds ram_needed ranked j)
        → IsPrefixesFrom k ranked subsets
        → IsSubsets ram_needed ranked subsets

  IsPrefix-suc :
      (rounds k : ℕ) (ranked : List (Node F)) (i : ℕ) (o : Option (List (Node F)))
      → IsPrefix rounds (suc k) ranked i o
      → IsPrefix (suc rounds) k ranked (suc i) o
  IsPrefix-suc rounds k ranked i o (inl (below, enough, e)) =
      inl (omega arith, omega arith, e ∙ ap (λ n. some (take n ranked)) (omega arith))
  IsPrefix-suc rounds k ranked i o (inr (inl late, e)) = inr (inl (omega arith), e)
  IsPrefix-suc rounds k ranked i o (inr (inr short, e)) = inr (inr (omega arith), e)

  prefixes-IsPrefix :
      (rounds k : ℕ) (ranked : List (Node F)) (i : ℕ)
      → IsPrefix rounds k ranked i (get_elem? (prefixes rounds k ranked) i)
  unfolding prefixes
  prefixes-IsPrefix zero k ranked i = inr (inl (omega arith), refl)
  prefixes-IsPrefix (suc rounds) k ranked i = elim (Bool-cases (leb k (length ranked))) [
    | inl more ↦ rw more (by_index more (prefixes-IsPrefix rounds (suc k) ranked) i)
    | inr few ↦ rw few (inr (inr (ground (arith, few)), refl))
  ]
    where
      by_index :
          leb k (length ranked) ≡ true
          → ((j : ℕ)
              → IsPrefix rounds (suc k) ranked j (get_elem? (prefixes rounds (suc k) ranked) j))
          → (i : ℕ)
          → IsPrefix
              (suc rounds)
              k
              ranked
              i
              (get_elem? (take k ranked ∷ prefixes rounds (suc k) ranked) i)
      by_index more rest zero =
          inl (omega arith, ground (arith, more), ap (λ n. some (take n ranked)) (omega arith))
      by_index more rest (suc i) = IsPrefix-suc rounds k ranked i _ (rest i)

  -- the loop at `suc p`, with the memory `agg` of the first `p` nodes
  abbrev LoopMeans : T → ℕ → T → List (Node F) → Option ℕ → Type 0
  LoopMeans ram p agg nodes none =
      (q : ℕ) → q < length nodes → holds ram (suc (p + q)) (memory_of agg (suc q) nodes) ≡ false
  LoopMeans ram p agg nodes (some k) =
      (q : ℕ) × (k ≡ suc (p + q))
      × (q < length nodes)
      × (holds ram (suc (p + q)) (memory_of agg (suc q) nodes) ≡ true)
      × ((r : ℕ) → r < q → holds ram (suc (p + r)) (memory_of agg (suc r) nodes) ≡ false)

  holds_first :
      (ram : T) (p : ℕ) (agg : T) (b : Bool)
      → holds ram (suc p) agg ≡ b
      → holds ram (suc (p + 0)) agg ≡ b
  holds_first ram p agg b h = subst (λ n. holds ram (suc n) agg ≡ b) (omega arith) h

  holds_next :
      (ram : T) (p q : ℕ) (agg : T) (b : Bool)
      → holds ram (suc (suc p + q)) agg ≡ b
      → holds ram (suc (p + suc q)) agg ≡ b
  holds_next ram p q agg b h = subst (λ n. holds ram (suc n) agg ≡ b) (omega arith) h

  LoopMeans-cons :
      (ram : T) (p : ℕ) (agg : T) (n : Node F) (nodes : List (Node F)) (o : Option ℕ)
      → holds ram (suc p) (add agg (useful_memory_for_fit F n)) ≡ false
      → LoopMeans ram (suc p) (add agg (useful_memory_for_fit F n)) nodes o
      → LoopMeans ram p agg (n ∷ nodes) o
  unfolding memory_of
  LoopMeans-cons ram p agg n nodes none full means = full_from
    where
      full_from :
          (q : ℕ)
          → q < suc (length nodes)
          → holds ram (suc (p + q)) (memory_of agg (suc q) (n ∷ nodes)) ≡ false
      full_from zero h = holds_first ram p _ false full
      full_from (suc q) h = holds_next ram p q _ false (means q (omega arith))
  LoopMeans-cons ram p agg n nodes (some k) full (q, at, small, fits, least) =
      (suc q, omega arith, omega arith, holds_next ram p q _ true fits, before)
    where
      before :
          (r : ℕ) → r < suc q → holds ram (suc (p + r)) (memory_of agg (suc r) (n ∷ nodes)) ≡ false
      before zero h = holds_first ram p _ false full
      before (suc r) h = holds_next ram p r _ false (least r (omega arith))

  k_min_loop-LoopMeans :
      (ram : T) (p : ℕ) (agg : T) (nodes : List (Node F))
      → LoopMeans ram p agg nodes (k_min_loop ram (suc p) agg nodes)
  unfolding k_min_loop memory_of
  k_min_loop-LoopMeans ram p agg [] = λ q h. absurd (omega arith)
  k_min_loop-LoopMeans ram p agg (n ∷ nodes) =
      let next = add agg (useful_memory_for_fit F n) in
      elim (Bool-cases (holds ram (suc p) next)) [
        | inl fits ↦ rw fits (
          0,
          omega arith,
          omega arith,
          holds_first ram p next true fits,
          λ r h. absurd (omega arith),
        )
        | inr full ↦ rw full (
            LoopMeans-cons ram p agg n nodes (k_min_loop ram (suc (suc p)) next nodes) full
              (k_min_loop-LoopMeans ram (suc p) next nodes))
      ]

  holds_at :
      (ram : T) (q : ℕ) (agg : T) (b : Bool)
      → holds ram (suc (0 + q)) agg ≡ b
      → holds ram (suc q) agg ≡ b
  holds_at ram q agg b h = subst (λ n. holds ram (suc n) agg ≡ b) (omega arith) h

  from_k_min-IsSubsets :
      (ram : T) (ranked : List (Node F)) (o : Option ℕ)
      → LoopMeans ram 0 (of_nat 0) ranked o
      → IsSubsets ram ranked (from_k_min ranked o)
  unfolding holds
  from_k_min-IsSubsets ram ranked none means = nothing_holds none_at refl
    where
      none_at : (k : ℕ) → 0 < k → k ≤ length ranked → ¬ Holds ram ranked k
      none_at zero pos h fits = omega arith
      none_at (suc q) pos h fits =
          ground (arith, holds_at ram q _ false (means q (omega arith)), fits)
  from_k_min-IsSubsets ram ranked (some k) (q, at, small, fits, least) =
      subst (λ m. IsSubsets ram ranked (prefixes (suc plan_delta) m ranked)) (omega arith)
        (from_least (suc q) (omega arith) (omega arith) (holds_at ram q _ true fits) below
          (prefixes-IsPrefix 3 (suc q) ranked))
    where
      below : (j : ℕ) → 0 < j → j < suc q → ¬ Holds ram ranked j
      below zero pos h fits' = omega arith
      below (suc r) pos h fits' =
          ground (arith, holds_at ram r _ false (least r (omega arith)), fits')

  -- Without a forced node count, candidateSubsets returns the prefixes of the nodes in the order of
  -- rank_nodes with k, k + 1 and k + 2 of them, as far as there are so many, for the least k whose
  -- first nodes have the memory for the weights, the KV cache and the overhead of each node; it
  -- returns none when no prefix has.
  pub candidate_subsets-IsSubsets :
      (nodes : List (Node F)) (quant : Quantization F) (kv : T) (c : Constraints F)
      → c.force_node_count ≡ none
      → IsSubsets (add quant.size_gb kv) (rank_nodes nodes) (candidate_subsets nodes quant kv c)
  unfolding candidate_subsets
  candidate_subsets-IsSubsets nodes quant kv c h = rw h (
      from_k_min-IsSubsets (add quant.size_gb kv) (rank_nodes nodes) _
        (k_min_loop-LoopMeans (add quant.size_gb kv) 0 (of_nat 0) (rank_nodes nodes)))
