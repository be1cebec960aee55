-- ===== src/Planner/Partition/Best.antt =====
-- What dpPartition returns, against every split of the layers.
use purser.Prelude.{
  ℕ, zero, suc, ◌≤◌, ◌<◌, ◌≡◌, refl, ◌⊎◌, inl, inr, true, false, Option, none, some, List, [], ◌∷◌,
  arith, length, map, Bool-cases, ◌∙◌, subst, sym,
}
use purser.Planner.Float.{Float64, OrderLaws}
use purser.Planner.Types.{Node, Link, ModelSpec, Quantization, Assignment, host}
use purser.Planner.Stage.{build_link_index, stage_time_at_idx}
use purser.Planner.Partition.Table.{Tables, fresh, columns_loop, pick_loop}
use purser.Planner.Partition.Columns.{Chain, none_yet, IsEntry-IsSound}
use purser.Planner.Partition.Optimal.{IsDone, fresh-IsDone, columns_loop-IsDone}
use purser.Planner.Partition.Split.{IsSplit, place, shards-eq-place, bottleneck, Chain-bottleneck}
use purser.Planner.Partition.Walk.{
  cut_starts-IsWalk, IsPick, nothing, column, IsPick-le-inf, IsLeast, pick_loop-IsPick,
}
use purser.Planner.Partition.Cuts.{shards, reconstruct_cuts, finish, dp_partition}
use native.Mathlib.Nat.{zero-add}

module _ (F : Float64) (order : List (Node F)) (links : List (Link F)) (model : ModelSpec F)
    (quant : Quantization F) (context : ℕ) where
  -- the stage times that the loop reads
  abbrev pub stage_of : ℕ → ℕ → ℕ → F.T
  stage_of = stage_time_at_idx F order (build_link_index F links) model quant context

  -- the slowest stage of a split
  abbrev pub slowest : List ℕ → F.T
  slowest = bottleneck F stage_of 0 (F.of_nat 0) 0

  -- once a shard has infinite time, so has every longer one from the same layer
  abbrev pub InfiniteGrows : Type 0
  InfiniteGrows =
      (m i j k : ℕ)
      → F.is_inf (stage_of m i j) ≡ true
      → j ≤ k
      → k ≤ model.layers
      → F.is_inf (stage_of m i k) ≡ true

  -- A feasible answer: the assignments place a split of all the layers on a prefix of the order, and
  -- the time returned is the time of its slowest stage.
  pub record IsAchieved (assignments : List Assignment) (best : F.T) : Type 0 where
    pub ends : List ℕ
    pub split : IsSplit 0 model.layers ends
    pub fits : length ends ≤ length order
    pub placed : assignments ≡ place host (map (λ n. n.id) order) 0 ends
    pub time : slowest ends ≡ best
    pub finite : F.lt best F.inf ≡ true

  module _ (laws : OrderLaws F) (grows : InfiniteGrows) where
    tables : Tables F.T
    tables = columns_loop F stage_of model.layers (length order) 0 (fresh F stage_of)

    tables-IsDone : IsDone F laws stage_of model.layers grows (length order) tables
    unfolding tables
    tables-IsDone =
        subst (λ p. IsDone F laws stage_of model.layers grows p tables) (zero-add (length order))
          (columns_loop-IsDone F laws stage_of model.layers grows (length order) 0
            (fresh F stage_of) (fresh-IsDone F laws stage_of model.layers grows))

    pick : Option ℕ × F.T
    pick = pick_loop F stage_of tables model.layers (length order) 0 (none, F.inf)

    Pick : Option ℕ → F.T → Type 0
    Pick = IsPick F laws stage_of model.layers grows (length order) tables tables-IsDone

    Least : F.T → Type 0
    Least =
        IsLeast F laws stage_of model.layers grows (length order) tables tables-IsDone 0
          (length order) F.inf

    picked : Pick pick.0 pick.1 × Least pick.1
    unfolding pick Pick Least
    picked =
        pick_loop-IsPick F laws stage_of model.layers grows (length order) tables tables-IsDone
          (length order) 0 none F.inf (omega arith) (nothing refl)

    finish-time :
        (o : Option ℕ) (b : F.T) → Pick o b → (finish F tables model.layers order (o, b)).1 ≡ b
    unfolding Pick finish
    finish-time none b (nothing e) = sym e
    finish-time (some m) b (column _ _ f) = elim (Bool-cases (F.is_inf b)) [
      | inl yes_inf ↦ rw yes_inf (sym (laws.eq_inf b yes_inf))
      | inr finite ↦ rw finite
    ]

    not_lt_trans :
        (c d b : F.T)
        → F.lt c d ≡ false
        → F.lt d b ≡ false
        → (d ≡ F.inf) ⊎ (F.lt d F.inf ≡ true)
        → (b ≡ F.inf) ⊎ (F.lt b F.inf ≡ true)
        → F.lt c b ≡ false
    not_lt_trans c d b h k (inl e) (inl e') = ground arith
    not_lt_trans c d b h k (inl e) (inr f) = ground (arith, laws.lt_trans c b F.inf)
    not_lt_trans c d b h k (inr f) bound = ground (arith, laws.lt_of_not_lt c d b)

    Chain-pick :
        (m : ℕ) (c b : F.T)
        → m < length order
        → Chain F stage_of (suc m) model.layers c
        → Least b
        → (b ≡ F.inf) ⊎ (F.lt b F.inf ≡ true)
        → F.lt c b ≡ false
    unfolding Least
    Chain-pick m c b h ch least bound =
        not_lt_trans c (tables.dp model.layers (suc m)) b
          (tables-IsDone.best (suc m) model.layers c h (omega arith) ch)
          (least.least m (omega arith) (omega arith))
          (IsEntry-IsSound F laws stage_of model.layers grows tables m model.layers
            (tables-IsDone.sound m model.layers h))
          bound

    no_split_faster :
        (ends : List ℕ) (b : F.T)
        → 0 < model.layers
        → IsSplit 0 model.layers ends
        → length ends ≤ length order
        → Least b
        → (b ≡ F.inf) ⊎ (F.lt b F.inf ≡ true)
        → F.lt (slowest ends) b ≡ false
    no_split_faster [] b pos split fits least bound = absurd (omega arith)
    no_split_faster (e ∷ ends) b pos split fits least bound =
        Chain-pick (length ends) _ b (omega arith)
          (subst (λ m. Chain F stage_of m model.layers (slowest (e ∷ ends))) (omega arith)
            (Chain-bottleneck F stage_of 0 0 model.layers (F.of_nat 0) (e ∷ ends) (none_yet refl)
              split))
          least bound

    -- No split of the layers on a prefix of the order has a slowest stage that is faster than the
    -- time dpPartition returns.
    pub dp_partition-least :
        (ends : List ℕ)
        → 0 < model.layers
        → IsSplit 0 model.layers ends
        → length ends ≤ length order
        → F.lt (slowest ends) (dp_partition F order links model quant context).1 ≡ false
    unfolding dp_partition tables pick Pick
    dp_partition-least ends pos split fits = rw (finish-time pick.0 pick.1 picked.0) (
        no_split_faster ends pick.1 pos split fits picked.1 (
          IsPick-le-inf F laws stage_of model.layers grows (length order) tables tables-IsDone
            picked.0))

    finish-outcome :
        (o : Option ℕ) (b : F.T)
        → Pick o b
        → (finish F tables model.layers order (o, b) ≡ (none, F.inf))
          ⊎ ((assignments : List Assignment) × (finish F tables model.layers order (o, b)
                ≡ (some assignments, b))
              × IsAchieved assignments b)
    unfolding Pick finish reconstruct_cuts bottleneck
    finish-outcome none b (nothing e) = inl refl
    finish-outcome (some zero) b k = elim k [ ]
    finish-outcome (some (suc m)) b (column h e f) =
        let fin : F.lt (tables.dp model.layers (suc m)) F.inf ≡ true = rw (← e) f in
        let w =
          cut_starts-IsWalk F laws stage_of model.layers grows (length order) tables tables-IsDone
            (suc m) model.layers model.layers [] h fin refl in
        let not_inf : F.is_inf b ≡ false = ground (arith, laws.eq_inf b, laws.lt_irrefl F.inf) in
        inr (
          shards host (map (λ n. n.id) order) (0 ∷ w.ends),
          rw not_inf (rw (w.found, reconstruct_cuts)),
          record {
            ends = w.ends;
            split = w.split;
            fits = omega (arith, w.count);
            placed = shards-eq-place host _ 0 model.layers w.ends w.split;
            time = w.time ∙ sym e;
            finite = f;
          },
        )

    -- Either dpPartition answers nil with infinity, or its assignments place a split of all the
    -- layers on a prefix of the order, and the time returned is that of the slowest stage.
    pub dp_partition-outcome :
        (dp_partition F order links model quant context ≡ (none, F.inf))
        ⊎ ((assignments : List Assignment) × (best : F.T) × (dp_partition F order links model quant
                context
              ≡ (some assignments, best))
            × IsAchieved assignments best)
    unfolding dp_partition tables pick
    dp_partition-outcome = elim (finish-outcome pick.0 pick.1 picked.0) [
      | inl nothing_found ↦ inl nothing_found
      | inr (assignments, e, achieved) ↦ inr (assignments, pick.1, e, achieved)
    ]
