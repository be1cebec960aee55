-- ===== src/Planner/Partition/Columns.antt =====
-- The loops over i and m of dpPartition: after them every column holds the least bottlenecks.
use purser.Prelude.{
  ℕ, zero, suc, ◌+◌, ◌-◌, ◌≤◌, ◌<◌, ◌≡◌, ◌⊎◌, inl, inr, true, false, arith, Bool-cases, ℕ_discrete,
  subst,
}
use purser.Planner.Float.{Float64, OrderLaws}
use purser.Planner.Partition.Table.{Tables, starts_body, starts_loop}
use purser.Planner.Partition.Rounds.{
  IsSound, Improves, Improves-refl, Improves-trans, IsSettled, IsSettled-Improves,
  ends_loop-Improves, ends_loop-IsSettled,
}

-- `Chain m j c`: the first `j` layers can be cut into `m` shards, on the first `m` nodes, with the
-- bottleneck `c`.
pub data Chain (F : Float64) (stage : ℕ → ℕ → ℕ → F.T) : ℕ → ℕ → F.T → Type 0 where
  none_yet : {c : F.T} → c ≡ F.of_nat 0 → Chain F stage 0 0 c
  shard :
      {p i : ℕ} {c : F.T} {j : ℕ} {d : F.T}
      → Chain F stage p i c
      → i < j
      → d ≡ F.max_of c (stage (suc p) i j)
      → Chain F stage (suc p) j d

module _ (F : Float64) (laws : OrderLaws F) (stage : ℕ → ℕ → ℕ → F.T) (L : ℕ)
    (closed : (m i j k : ℕ)
      → F.is_inf (stage m i j) ≡ true
      → j ≤ k
      → k ≤ L
      → F.is_inf (stage m i k) ≡ true) where
  open F use {T, lt, inf, is_inf, max_of, of_nat}

  abbrev pub IsEntry : T → Type 0
  IsEntry x = (x ≡ inf) ⊎ (lt x inf ≡ true)

  abbrev pub IsGiven : Tables T → ℕ → Type 0
  IsGiven t p = (i : ℕ) → IsEntry (t.dp i p)

  abbrev pub IsSoundAt : Tables T → ℕ → Type 0
  IsSoundAt t p = (j : ℕ) → IsSound F laws stage t p j

  IsGiven-Improves :
      (p : ℕ) (t u : Tables T) → Improves F laws stage p t u → IsGiven t p → IsGiven u p
  IsGiven-Improves p t u imp g i = rw (imp.dp_others i p (omega arith)) (g i)

  pub IsEntry-IsSound :
      (t : Tables T) (p j : ℕ) → IsSound F laws stage t p j → IsEntry (t.dp j (suc p))
  IsEntry-IsSound t p j (inl e) = inl e
  IsEntry-IsSound t p j (inr (f, _)) = inr f

  lt_inf_of_not_is_inf : (x : T) → IsEntry x → is_inf x ≡ false → lt x inf ≡ true
  lt_inf_of_not_is_inf x (inl e) h = ground (arith, laws.is_inf_inf)
  lt_inf_of_not_is_inf x (inr f) h = f

  -- nothing that costs infinity beats an entry
  not_lt_of_inf : (c st x y : T) → x ≡ inf → lt c x ≡ false → IsEntry y → lt (max_of c st) y ≡ false
  not_lt_of_inf c st x y e h (inl k) = ground (arith, laws.max_lt c st y)
  not_lt_of_inf c st x y e h (inr k) = ground (arith, laws.max_lt c st y, laws.lt_trans c y inf)

  module _ (p : ℕ) where
    starts_body-Improves :
        (i : ℕ) (t : Tables T)
        → IsGiven t p
        → Improves F laws stage p t (starts_body F stage L p i t)
    unfolding starts_body
    starts_body-Improves i t g = elim (Bool-cases (is_inf (t.dp i p))) [
      | inl stop ↦ rw stop (Improves-refl F laws stage p t)
      | inr go ↦ rw go (
          ends_loop-Improves F laws stage p i (L - i) (suc i) t (omega arith)
            (lt_inf_of_not_is_inf _ (g i) go))
    ]

    starts_body-IsSettled :
        (i j : ℕ) (t : Tables T)
        → IsGiven t p
        → IsSoundAt t p
        → i < j
        → j ≤ L
        → IsSettled F laws stage (starts_body F stage L p i t) p i j
    unfolding starts_body
    starts_body-IsSettled i j t g s lo hi = elim (Bool-cases (is_inf (t.dp i p))) [
      | inl stop ↦
          rw stop
            (λ c h. not_lt_of_inf c _ _ _ (laws.eq_inf _ stop) h (IsEntry-IsSound t p j (s j)))
      | inr go ↦ rw go (
          ends_loop-IsSettled F laws stage L closed p i (L - i) (suc i) t (omega arith)
            (lt_inf_of_not_is_inf _ (g i) go) j (omega arith) (omega arith) hi)
    ]

    pub starts_loop-Improves :
        (n i : ℕ) (t : Tables T)
        → IsGiven t p
        → Improves F laws stage p t (starts_loop F stage L p n i t)
    unfolding starts_loop
    starts_loop-Improves zero i t g = Improves-refl F laws stage p t
    starts_loop-Improves (suc n) i t g =
        let step = starts_body-Improves i t g in
        Improves-trans F laws stage p t _ _ step
          (starts_loop-Improves n (suc i) _ (IsGiven-Improves p t _ step g))

    pub starts_loop-IsSettled :
        (n i k j : ℕ) (t : Tables T)
        → IsGiven t p
        → IsSoundAt t p
        → i ≤ k
        → k < i + n
        → k < j
        → j ≤ L
        → IsSettled F laws stage (starts_loop F stage L p n i t) p k j
    unfolding starts_loop
    starts_loop-IsSettled zero i k j t g s a b lo hi = absurd (omega arith)
    starts_loop-IsSettled (suc n) i k j t g s a b lo hi =
        let u : Tables T = starts_body F stage L p i t in
        let step : Improves F laws stage p t u = starts_body-Improves i t g in
        let g_u : IsGiven u p = IsGiven-Improves p t u step g in
        elim (ℕ_discrete i k) [
          | no later ↦
              starts_loop-IsSettled n (suc i) k j u g_u (λ m. step.sound m (s m)) (omega arith)
                (omega arith) lo hi
          | yes now ↦
              IsSettled-Improves F laws stage p k j u _ (starts_loop-Improves n (suc i) u g_u) (
                subst (λ m. IsSettled F laws stage u p m j) now
                  (starts_body-IsSettled i j t g s (omega arith) hi))
        ]
