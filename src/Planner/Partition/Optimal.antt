-- ===== src/Planner/Partition/Optimal.antt =====
-- The tables that dpPartition has filled: every entry is achieved by its cuts, and least.
use purser.Prelude.{
  ℕ, zero, suc, ◌+◌, ◌≤◌, ◌<◌, ◌≡◌, refl, inl, inr, true, false, arith, ◌∙◌, ℕ_discrete, subst,
}
use purser.Planner.Float.{Float64, OrderLaws}
use purser.Planner.Partition.Table.{Tables, fresh, starts_loop, columns_loop}
use purser.Planner.Partition.Rounds.{IsSound, IsSound-same, Improves}
use purser.Planner.Partition.Columns.{
  Chain, none_yet, shard, IsEntry, IsEntry-IsSound, starts_loop-Improves, starts_loop-IsSettled,
}
use native.Mathlib.Nat.{add-zero}

module _ (F : Float64) (laws : OrderLaws F) (stage : ℕ → ℕ → ℕ → F.T) (L : ℕ)
    (closed : (m i j k : ℕ)
      → F.is_inf (stage m i j) ≡ true
      → j ≤ k
      → k ≤ L
      → F.is_inf (stage m i k) ≡ true) where
  open F use {T, lt, inf, is_inf, max_of, of_nat}

  -- the tables when the columns up to `p` are done
  pub record IsDone (p : ℕ) (t : Tables T) : Type 0 where
    pub origin : t.dp 0 0 ≡ of_nat 0
    pub rest_of_column : (j : ℕ) → t.dp (suc j) 0 ≡ inf
    pub todo : (j m : ℕ) → p < m → t.dp j m ≡ inf
    pub sound : (q j : ℕ) → q < p → IsSound F laws stage t q j
    pub best : (m j : ℕ) (c : T) → m ≤ p → j ≤ L → Chain F stage m j c → lt c (t.dp j m) ≡ false

  fresh-best :
      (m j : ℕ) (c : T) → m ≤ 0 → Chain F stage m j c → lt c ((fresh F stage).dp j m) ≡ false
  unfolding fresh
  fresh-best m j c h (none_yet e) = ground (arith, laws.lt_irrefl (of_nat 0))
  fresh-best m j c h (shard _ _ _) = absurd (omega arith)

  pub fresh-IsDone : IsDone 0 (fresh F stage)
  unfolding fresh
  fresh-IsDone = record {
    origin = refl;
    rest_of_column = λ j. ground arith;
    todo = λ j m h. ground arith;
    sound = λ q j h. absurd (omega arith);
    best = λ m j c h _ ch. fresh-best m j c h ch;
  }

  pub entries :
      (p : ℕ) (t : Tables T) → IsDone p t → (i : ℕ) → IsEntry F laws stage L closed (t.dp i p)
  entries zero t d zero = inr (ground (arith, d.origin, laws.zero_lt_inf))
  entries zero t d (suc i) = inl (d.rest_of_column i)
  entries (suc p) t d i = IsEntry-IsSound F laws stage L closed t p i (d.sound p i (omega arith))

  module _ (p : ℕ) (t : Tables T) (d : IsDone p t) where
    u : Tables T
    u = starts_loop F stage L p (suc L) 0 t

    given : (i : ℕ) → IsEntry F laws stage L closed (t.dp i p)
    given = entries p t d

    new-IsSound : (j : ℕ) → IsSound F laws stage t p j
    new-IsSound j = inl (d.todo j (suc p) (omega arith))

    step : Improves F laws stage p t u
    unfolding u
    step = starts_loop-Improves F laws stage L closed p (suc L) 0 t given

    column-IsSound : (q j : ℕ) → q < suc p → IsSound F laws stage u q j
    column-IsSound q j h = elim (ℕ_discrete q p) [
      | yes e ↦ rw e (step.sound j (new-IsSound j))
      | no n ↦
          IsSound-same F laws stage t u q j (step.dp_others j (suc q) (omega arith))
            (step.cut_others j (suc q) (omega arith)) (λ i. step.dp_others i q (omega arith))
            (d.sound q j (omega arith))
    ]

    last_shard-best :
        (i j : ℕ) (c c' : T)
        → Chain F stage p i c
        → i < j
        → j ≤ L
        → c' ≡ max_of c (stage (suc p) i j)
        → lt c' (u.dp j (suc p)) ≡ false
    unfolding u
    last_shard-best i j c c' ch lo hi e =
        let settled =
          starts_loop-IsSettled F laws stage L closed p (suc L) 0 i j t given new-IsSound
            (omega arith) (omega arith) lo hi in
        let below : lt c (u.dp i p) ≡ false =
          rw (step.dp_others i p (omega arith)) (d.best p i c (omega arith) (omega arith) ch) in
        rw e (settled c below)

    last-best :
        {m j : ℕ} {c : T} → Chain F stage m j c → m ≡ suc p → j ≤ L → lt c (u.dp j m) ≡ false
    last-best (none_yet e') e hj = absurd (omega arith)
    last-best {j = j} {c = c'} (shard {p = q} {i = i} {c = c} ch lo eq) e hj =
        let same : q ≡ p = omega arith in
        rw same (
          last_shard-best i j c c' (subst (λ m. Chain F stage m i c) same ch) lo hj (rw same at eq))

    column-best :
        (m j : ℕ) (c : T) → m ≤ suc p → j ≤ L → Chain F stage m j c → lt c (u.dp j m) ≡ false
    column-best m j c h hj ch = elim (ℕ_discrete m (suc p)) [
      | no n ↦ rw (step.dp_others j m n) (d.best m j c (omega arith) hj ch)
      | yes e ↦ last-best ch e hj
    ]

    column-IsDone : IsDone (suc p) u
    column-IsDone = record {
      origin = step.dp_others 0 0 (omega arith) ∙ d.origin;
      rest_of_column = λ j. step.dp_others (suc j) 0 (omega arith) ∙ d.rest_of_column j;
      todo = λ j m h. step.dp_others j m (omega arith) ∙ d.todo j m (omega arith);
      sound = column-IsSound;
      best = column-best;
    }

  shift : (p n : ℕ) → p + suc n ≡ suc p + n
  shift p n = omega arith

  pub columns_loop-IsDone :
      (n p : ℕ) (t : Tables T) → IsDone p t → IsDone (p + n) (columns_loop F stage L n p t)
  unfolding columns_loop u
  columns_loop-IsDone zero p t d = rw add-zero d
  columns_loop-IsDone (suc n) p t d =
      rw (shift p n)
        (columns_loop-IsDone n (suc p) (starts_loop F stage L p (suc L) 0 t) (column-IsDone p t d))
