-- ===== src/Planner/Partition/Walk.antt =====
-- The last part of dpPartition: the choice of the number of stages, and the walk over the cuts.
use purser.Prelude.{
  ℕ, zero, suc, ◌+◌, ◌≤◌, ◌<◌, ◌≡◌, refl, ◌⊎◌, inl, inr, true, false, Option, none, some, List, ◌∷◌,
  arith, length, ◌∙◌, ap, sym, ℕ_discrete, Bool-cases, if◌then◌else◌,
}
use purser.Planner.Float.{Float64, OrderLaws}
use purser.Planner.Partition.Table.{Tables, pick_loop, cut_starts}
use purser.Planner.Partition.Optimal.{IsDone}
use purser.Planner.Partition.Split.{IsSplit, bottleneck}

module _ (F : Float64) (laws : OrderLaws F) (stage : ℕ → ℕ → ℕ → F.T) (L : ℕ)
    (closed : (m i j k : ℕ)
      → F.is_inf (stage m i j) ≡ true
      → j ≤ k
      → k ≤ L
      → F.is_inf (stage m i k) ≡ true)
    (M : ℕ) (t : Tables F.T) (done : IsDone F laws stage L closed M t) where
  open F use {T, lt, inf, max_of, of_nat}

  -- what the walk from (j, m) finds in front of the ends `es`
  pub record IsWalk (m j K : ℕ) (es : List ℕ) : Type 0 where
    pub ends : List ℕ
    pub found : cut_starts t.cut m j (j ∷ es) ≡ some (0 ∷ ends)
    pub split : IsSplit 0 K ends
    pub time : bottleneck F stage 0 (of_nat 0) 0 ends ≡ bottleneck F stage m (t.dp j m) j es
    pub count : length ends ≡ m + length es

  pub cut_starts-IsWalk :
      (m j K : ℕ) (es : List ℕ)
      → m ≤ M
      → lt (t.dp j m) inf ≡ true
      → IsSplit j K es
      → IsWalk m j K es
  unfolding cut_starts bottleneck
  cut_starts-IsWalk zero zero K es h fin s = record {
    ends = es;
    found = refl;
    split = s;
    time = rw done.origin;
    count = omega arith;
  }
  cut_starts-IsWalk zero (suc j) K es h fin s =
      absurd (ground (arith, done.rest_of_column j, laws.lt_irrefl inf))
  cut_starts-IsWalk (suc p) j K es h fin s = elim (done.sound p j h) [
    | inl e ↦ absurd (ground (arith, laws.lt_irrefl inf))
    | inr (_, c) ↦
        let w = cut_starts-IsWalk p c.from K (j ∷ es) (omega arith) c.finite (c.before, s) in
        record {
          ends = w.ends;
          found = rw (c.cut_eq, cut_starts) w.found;
          split = w.split;
          time = w.time ∙ ap (λ x. bottleneck F stage (suc p) x j es) (sym c.time);
          count = omega (arith, w.count);
        }
  ]

  -- the loop's variables: no column yet, or the best column so far
  pub data IsPick : Option ℕ → T → Type 0 where
    nothing : {b : T} → b ≡ inf → IsPick none b
    column :
        {m : ℕ} {b : T} → m < M → b ≡ t.dp L (suc m) → lt b inf ≡ true → IsPick (some (suc m)) b

  pub IsPick-le-inf : {o : Option ℕ} {b : T} → IsPick o b → (b ≡ inf) ⊎ (lt b inf ≡ true)
  IsPick-le-inf (nothing e) = inl e
  IsPick-le-inf (column h e f) = inr f

  -- one round of the loop
  abbrev choose : ℕ → Option ℕ → T → Option ℕ × T
  choose p o b = if lt (t.dp L (suc p)) b then (some (suc p), t.dp L (suc p)) else (o, b)

  choose-IsPick :
      (p : ℕ) (o : Option ℕ) (b : T) → p < M → IsPick o b → IsPick (choose p o b).0 (choose p o b).1
  choose-IsPick p o b h k = elim (Bool-cases (lt (t.dp L (suc p)) b)) [
    | inl better ↦ rw better (column h refl (below (IsPick-le-inf k) better))
    | inr worse ↦ rw worse k
  ]
    where
      below :
          (b ≡ inf) ⊎ (lt b inf ≡ true)
          → lt (t.dp L (suc p)) b ≡ true
          → lt (t.dp L (suc p)) inf ≡ true
      below (inl e) l = ground arith
      below (inr f) l = laws.lt_trans _ b inf l f

  pub record IsLeast (p n : ℕ) (b b' : T) : Type 0 where
    pub no_worse : (x : T) → lt x b' ≡ true → lt x b ≡ true
    pub least : (q : ℕ) → p ≤ q → q < p + n → lt (t.dp L (suc q)) b' ≡ false

  choose-no_worse : (p : ℕ) (o : Option ℕ) (b x : T) → lt x (choose p o b).1 ≡ true → lt x b ≡ true
  choose-no_worse p o b x h = ground (arith, laws.lt_trans x (t.dp L (suc p)) b)

  choose-least : (p : ℕ) (o : Option ℕ) (b : T) → lt (t.dp L (suc p)) (choose p o b).1 ≡ false
  choose-least p o b = ground (arith, laws.lt_irrefl (t.dp L (suc p)))

  IsLeast-choose :
      (p n : ℕ) (o : Option ℕ) (b b' : T)
      → IsLeast (suc p) n (choose p o b).1 b'
      → IsLeast p (suc n) b b'
  IsLeast-choose p n o b b' rest = record {
    no_worse = λ x l. choose-no_worse p o b x (rest.no_worse x l);
    least = λ q lo hi. elim (ℕ_discrete p q) [
      | no later ↦ rest.least q (omega arith) (omega arith)
      | yes now ↦ rw (← now) (ground (arith, choose-least p o b, rest.no_worse (t.dp L (suc p))))
    ];
  }

  pub pick_loop-IsPick :
      (n p : ℕ) (o : Option ℕ) (b : T)
      → p + n ≤ M
      → IsPick o b
      → (let r = pick_loop F stage t L n p (o, b) in IsPick r.0 r.1 × IsLeast p n b r.1)
  unfolding pick_loop
  pick_loop-IsPick zero p o b h k =
      (k, record { no_worse = λ x l. l; least = λ q lo hi. absurd (omega arith) })
  pick_loop-IsPick (suc n) p o b h k =
      let inner =
        pick_loop-IsPick n (suc p) (choose p o b).0 (choose p o b).1 (omega arith)
          (choose-IsPick p o b (omega arith) k) in
      (inner.0, IsLeast-choose p n o b _ inner.1)
