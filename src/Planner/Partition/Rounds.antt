-- ===== src/Planner/Partition/Rounds.antt =====
-- What the two inner loops of dpPartition do to one column of the tables.
use purser.Prelude.{
  ℕ, zero, suc, ◌+◌, ◌≤◌, ◌<◌, ◌≡◌, ◌≢◌, refl, ◌⊎◌, inl, inr, true, false, some, arith, Bool-cases,
  ◌∙◌, ℕ_discrete, subst,
}
use purser.Planner.Float.{Float64, OrderLaws}
use purser.Planner.Partition.Table.{Tables, relax, ends_loop}

module _ (F : Float64) (laws : OrderLaws F) (stage : ℕ → ℕ → ℕ → F.T) where
  open F use {T, lt, inf, is_inf, max_of, of_nat}

  -- a finite entry of column suc p is the bottleneck of its cut, from a finite entry of column p
  pub record IsCut (t : Tables T) (p j : ℕ) : Type 0 where
    pub from : ℕ
    pub cut_eq : t.cut j (suc p) ≡ some from
    pub before : from < j
    pub finite : lt (t.dp from p) inf ≡ true
    pub time : t.dp j (suc p) ≡ max_of (t.dp from p) (stage (suc p) from j)

  abbrev pub IsSound : Tables T → ℕ → ℕ → Type 0
  IsSound t p j = (t.dp j (suc p) ≡ inf) ⊎ ((lt (t.dp j (suc p)) inf ≡ true) × IsCut t p j)

  -- what a part of the loop for column suc p does
  pub record Improves (p : ℕ) (t u : Tables T) : Type 0 where
    pub dp_others : (j m : ℕ) → m ≢ suc p → u.dp j m ≡ t.dp j m
    pub cut_others : (j m : ℕ) → m ≢ suc p → u.cut j m ≡ t.cut j m
    pub no_worse : (x : T) (j : ℕ) → lt x (u.dp j (suc p)) ≡ true → lt x (t.dp j (suc p)) ≡ true
    pub sound : (j : ℕ) → IsSound t p j → IsSound u p j

  pub Improves-refl : (p : ℕ) (t : Tables T) → Improves p t t
  Improves-refl p t = record {
    dp_others = λ j m n. refl;
    cut_others = λ j m n. refl;
    no_worse = λ x j h. h;
    sound = λ j h. h;
  }

  pub Improves-trans : (p : ℕ) (t u w : Tables T) → Improves p t u → Improves p u w → Improves p t w
  Improves-trans p t u w a b = record {
    dp_others = λ j m n. ground (arith, a.dp_others j m n, b.dp_others j m n);
    cut_others = λ j m n. ground (arith, a.cut_others j m n, b.cut_others j m n);
    no_worse = λ x j h. a.no_worse x j (b.no_worse x j h);
    sound = λ j h. b.sound j (a.sound j h);
  }

  relax-no_worse :
      (p i j : ℕ) (st : T) (t : Tables T) (x : T) (k : ℕ)
      → lt x ((relax F stage p i j st t).dp k (suc p)) ≡ true
      → lt x (t.dp k (suc p)) ≡ true
  unfolding relax
  relax-no_worse p i j st t x k h =
      ground (arith, laws.lt_trans x (max_of (t.dp i p) st) (t.dp j (suc p)))

  pub IsSound-same :
      (t u : Tables T) (p k : ℕ)
      → u.dp k (suc p) ≡ t.dp k (suc p)
      → u.cut k (suc p) ≡ t.cut k (suc p)
      → ((i : ℕ) → u.dp i p ≡ t.dp i p)
      → IsSound t p k
      → IsSound u p k
  IsSound-same t u p k same_dp same_cut below (inl e) = inl (same_dp ∙ e)
  IsSound-same t u p k same_dp same_cut below (inr (fin, c)) = inr (
    rw same_dp fin,
    record {
      from = c.from;
      cut_eq = same_cut ∙ c.cut_eq;
      before = c.before;
      finite = rw (below c.from) c.finite;
      time = ground (arith, c.time, below c.from);
    },
  )

  lt_inf_of_lt : (x y : T) → lt x y ≡ true → (y ≡ inf) ⊎ (lt y inf ≡ true) → lt x inf ≡ true
  lt_inf_of_lt x y h (inl e) = ground arith
  lt_inf_of_lt x y h (inr f) = laws.lt_trans x y inf h f

  entry_cases :
      {t : Tables T} {p k : ℕ}
      → IsSound t p k
      → (t.dp k (suc p) ≡ inf) ⊎ (lt (t.dp k (suc p)) inf ≡ true)
  entry_cases (inl e) = inl e
  entry_cases (inr (f, _)) = inr f

  relax-IsSound :
      (p i j : ℕ) (t : Tables T)
      → i < j
      → lt (t.dp i p) inf ≡ true
      → (k : ℕ) → IsSound t p k
      → IsSound (relax F stage p i j (stage (suc p) i j) t) p k
  unfolding relax
  relax-IsSound p i j t before fin k s =
      elim (Bool-cases (lt (max_of (t.dp i p) (stage (suc p) i j)) (t.dp j (suc p)))) [
        | inr worse ↦ rw worse s
        | inl better ↦ elim (ℕ_discrete k j) [
          | no other ↦
              rw better (IsSound-same t _ p k (ground arith) (ground arith) (λ m. ground arith) s)
          | yes here ↦
              let better_k : lt (max_of (t.dp i p) (stage (suc p) i j)) (t.dp k (suc p)) ≡ true =
                rw here better in
              rw better (
                inr (
                  ground (
                    arith,
                    lt_inf_of_lt _ (t.dp k (suc p)) better_k
                        (entry_cases {t = t} {p = p} {k = k} s),
                  ),
                  record {
                    from = i;
                    cut_eq = ground arith;
                    before = ground arith;
                    finite = ground arith;
                    time = ground arith;
                  },
                ))
        ]
      ]

  relax-Improves :
      (p i j : ℕ) (t : Tables T)
      → i < j
      → lt (t.dp i p) inf ≡ true
      → Improves p t (relax F stage p i j (stage (suc p) i j) t)
  unfolding relax
  relax-Improves p i j t before fin = record {
    dp_others = λ k m n. ground arith;
    cut_others = λ k m n. ground arith;
    no_worse = relax-no_worse p i j (stage (suc p) i j) t;
    sound = relax-IsSound p i j t before fin;
  }

  max_step : (c d st : T) → lt c d ≡ false → lt (max_of c st) (max_of d st) ≡ false
  max_step c d st h = elim (Bool-cases (lt (max_of c st) (max_of d st))) [
    | inr no_gain ↦ no_gain
    | inl gain ↦ ground (
      arith,
      laws.max_lt c st (max_of d st),
      laws.lt_max c d st,
      laws.lt_max st d st,
      laws.lt_irrefl st,
      laws.lt_trans c st d,
    )
  ]

  max_keep :
      (c d st e : T)
      → lt d inf ≡ true
      → lt c d ≡ false
      → lt (max_of d st) e ≡ false
      → lt (max_of c st) e ≡ false
  max_keep c d st e fin h k =
      ground (arith, laws.max_lt c st e, laws.max_lt d st e, laws.lt_of_not_lt c d e)

  -- after the update, no way through `i` beats the entry
  relax-best :
      (p i j : ℕ) (st : T) (t : Tables T) (c : T)
      → lt (t.dp i p) inf ≡ true
      → lt c (t.dp i p) ≡ false
      → lt (max_of c st) ((relax F stage p i j st t).dp j (suc p)) ≡ false
  unfolding relax
  relax-best p i j st t c fin h =
      ground (arith, max_step c (t.dp i p) st, max_keep c (t.dp i p) st (t.dp j (suc p)))

  -- The loop over j: it improves the column, and settles every way through `i` that it passes.
  pub ends_loop-Improves :
      (p i n j : ℕ) (t : Tables T)
      → i < j
      → lt (t.dp i p) inf ≡ true
      → Improves p t (ends_loop F stage p i n j t)
  unfolding ends_loop
  ends_loop-Improves p i zero j t before fin = Improves-refl p t
  ends_loop-Improves p i (suc n) j t before fin = elim (Bool-cases (is_inf (stage (suc p) i j))) [
    | inl stop ↦ rw stop (Improves-refl p t)
    | inr go ↦
        let u : Tables T = relax F stage p i j (stage (suc p) i j) t in
        let step : Improves p t u = relax-Improves p i j t before fin in
        rw go (
          Improves-trans p t u _ step (
            ends_loop-Improves p i n (suc j) u (omega arith)
              (rw (step.dp_others i p (omega arith)) fin)))
  ]

  -- no way through `i` to `j` from a cost `c` beats the entry
  abbrev pub IsSettled : Tables T → ℕ → ℕ → ℕ → Type 0
  IsSettled t p i j =
      (c : T) → lt c (t.dp i p) ≡ false → lt (max_of c (stage (suc p) i j)) (t.dp j (suc p)) ≡ false

  pub IsSettled-Improves :
      (p i j : ℕ) (t u : Tables T) → Improves p t u → IsSettled t p i j → IsSettled u p i j
  IsSettled-Improves p i j t u imp s c h =
      ground
        (arith, s c, imp.dp_others i p (omega arith), imp.no_worse (max_of c (stage (suc p) i j)) j)

  relax-IsSettled :
      (p i j : ℕ) (t : Tables T)
      → i < j
      → lt (t.dp i p) inf ≡ true
      → IsSettled (relax F stage p i j (stage (suc p) i j) t) p i j
  relax-IsSettled p i j t before fin c h =
      relax-best p i j (stage (suc p) i j) t c fin
        (rw (← (relax-Improves p i j t before fin).dp_others i p (omega arith)) h)

  module _ (L : ℕ)
      (closed : (m i j k : ℕ)
        → is_inf (stage m i j) ≡ true
        → j ≤ k
        → k ≤ L
        → is_inf (stage m i k) ≡ true) where
    max_inf : (c st x : T) → is_inf st ≡ true → lt (max_of c st) x ≡ false
    max_inf c st x h = ground (arith, laws.max_lt c st x, laws.eq_inf st h, laws.inf_top x)

    pub ends_loop-IsSettled :
        (p i n j : ℕ) (t : Tables T)
        → i < j
        → lt (t.dp i p) inf ≡ true
        → (k : ℕ) → j ≤ k
        → k < j + n
        → k ≤ L
        → IsSettled (ends_loop F stage p i n j t) p i k
    unfolding ends_loop
    ends_loop-IsSettled p i zero j t before fin k lo hi top = absurd (omega arith)
    ends_loop-IsSettled p i (suc n) j t before fin k lo hi top =
        elim (Bool-cases (is_inf (stage (suc p) i j))) [
          | inl stop ↦ λ c h. max_inf c _ _ (closed (suc p) i j k stop lo top)
          | inr go ↦
              let u : Tables T = relax F stage p i j (stage (suc p) i j) t in
              let step : Improves p t u = relax-Improves p i j t before fin in
              let fin_u : lt (u.dp i p) inf ≡ true = rw (step.dp_others i p (omega arith)) fin in
              rw go (elim (ℕ_discrete j k) [
                | no later ↦
                    ends_loop-IsSettled p i n (suc j) u (omega arith) fin_u k (omega arith)
                      (omega arith) top
                | yes now ↦
                    IsSettled-Improves p i k u _
                      (ends_loop-Improves p i n (suc j) u (omega arith) fin_u)
                      (subst (IsSettled u p i) now (relax-IsSettled p i j t before fin))
              ])
        ]
