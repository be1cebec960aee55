-- ===== src/Planner/Ordering/Settled.antt =====
-- twoOptImprove, go/planner/plan/ordering.go: where the passes stop.
use mathlib.Core.List.{Perm}
use mathlib.Core.List.Perm
use purser.Prelude.{
  ℕ, zero, suc, ◌+◌, ◌-◌, ◌≤◌, ◌<◌, ◌≡◌, ◌⊎◌, inl, inr, refl, true, false, List, if◌then◌else◌,
  Bool-cases, arith, ap, sym, ◌∙◌, subst, length, ltb, ltb→lt, ℕ_discrete,
}
use purser.Planner.Float.{Float64, OrderLaws}
use purser.Planner.Types.{Node, Link, ModelSpec}
use purser.Planner.Ordering.{
  Best, try_ends, try_starts, sweep_once, improve_loop, two_opt_improve, two_opt_max_passes,
}
use purser.Planner.Ordering.Swaps.{StartsWith}
use purser.Planner.Ordering.Improve.{
  cost, Margin, Falls, still, lower, IsSettled, Keeps, self-Keeps, trans-Keeps, IsUseless,
  ends-Keeps, ends-IsUseless,
}

module _ (F : Float64) (laws : OrderLaws F) (model : ModelSpec F) (links : List (Link F))
    (margin : Margin F laws model links) where
  starts-Keeps :
      (left i n : ℕ) (st : Best F model links)
      → st.cost ≡ cost F laws model links st.route
      → Keeps F laws model links st (try_starts F model links left (suc i) n st)
  unfolding try_starts
  starts-Keeps zero i n st e = self-Keeps F laws model links st e
  starts-Keeps (suc left) i n st e =
      let one = ends-Keeps F laws model links margin (n - suc (suc i)) i (suc (suc i)) st e in
      trans-Keeps F laws model links _ _ _ one (starts-Keeps left (suc i) n _ one.costed)

  starts-IsUseless :
      (left i n a j : ℕ) (st : Best F model links)
      → st.cost ≡ cost F laws model links st.route
      → (try_starts F model links left (suc i) n st).improved ≡ false
      → i < a
      → a ≤ i + left
      → a < j
      → j < n
      → IsUseless F laws model links margin a j st.route
  unfolding try_starts
  starts-IsUseless zero i n a j st e quiet low high later top = absurd (omega arith)
  starts-IsUseless (suc left) i n a j st e quiet low high later top =
      let rounds = n - suc (suc i) in
      let one = ends-Keeps F laws model links margin rounds i (suc (suc i)) st e in
      let mid = try_ends F model links rounds (suc i) (suc (suc i)) st in
      let rest = starts-Keeps left (suc i) n mid one.costed in
      let mid_quiet : mid.improved ≡ false =
        sym (ap (λ x. x.improved) (rest.unchanged quiet)) ∙ quiet in
      elim (ℕ_discrete (suc i) a) [
        | yes same ↦
            subst (λ b. IsUseless F laws model links margin b j st.route) same
              (ends-IsUseless F laws model links margin rounds i (suc (suc i)) j st e mid_quiet
                (omega (arith, same)) (omega (arith, same)))
        | no other ↦
            subst (λ x. IsUseless F laws model links margin a j x.route) (one.unchanged mid_quiet)
              (starts-IsUseless left (suc i) n a j mid one.costed quiet (omega (arith, other))
                (omega arith) later top)
      ]

  -- What the path `out` keeps of the path `route`, and why the passes stopped: a path of fewer than
  -- four nodes is not touched; or no reversal helps; or each of the passes made it cheaper.
  pub record IsRefined (passes : ℕ) (route out : List (Node F)) : Type 0 where
    pub permuted : Perm route out
    pub same_head : (h : Node F) → StartsWith h route → StartsWith h out
    pub no_dearer :
        (cost F laws model links out ≡ cost F laws model links route)
        ⊎ (F.lt (cost F laws model links out) (cost F laws model links route) ≡ true)
    pub reached :
        ((length route < 4) × (out ≡ route))
        ⊎ (IsSettled F laws model links (length route) out
            ⊎ Falls F laws model links
                (cost F laws model links route)
                passes
                (cost F laws model links out))

  -- the same for the loop, after `done` passes that each made it cheaper
  record LoopFacts (n done left : ℕ) (x : F.T) (st out : Best F model links) : Type 0 where
    costed : out.cost ≡ cost F laws model links out.route
    permuted : Perm st.route out.route
    same_head : (h : Node F) → StartsWith h st.route → StartsWith h out.route
    no_dearer : (out.cost ≡ st.cost) ⊎ (F.lt out.cost st.cost ≡ true)
    reached :
        IsSettled F laws model links n out.route ⊎ Falls F laws model links x (done + left) out.cost

  loop-LoopFacts :
      (left n done : ℕ) (x : F.T) (st : Best F model links)
      → st.cost ≡ cost F laws model links st.route
      → Falls F laws model links x done st.cost
      → LoopFacts n done left x st (improve_loop F model links left n st)
  unfolding improve_loop
  loop-LoopFacts zero n done x st e falls = record {
    costed = e;
    permuted = Perm.refl _;
    same_head = λ h s. s;
    no_dearer = inl refl;
    reached = inr (subst (λ m. Falls F laws model links x m st.cost) (omega arith) falls);
  }
  loop-LoopFacts (suc left) n done x st e falls =
      let start : Best F model links = record st { improved = false } in
      let k = starts-Keeps (n - 2) 0 n start e in
      let next = sweep_once F model links n st in
      elim (Bool-cases next.improved) [
        | inr quiet ↦ rw quiet (record {
          costed = k.costed;
          permuted = k.permuted;
          same_head = k.same_head;
          no_dearer = k.no_dearer;
          reached = inl λ i j low later top.
              subst (λ y. IsUseless F laws model links margin i j y.route) (sym (k.unchanged quiet))
                (starts-IsUseless (n - 2) 0 n i j start e quiet (omega arith) (omega arith) later
                  top);
        })
        | inl more ↦
            let low = k.lowered refl more in
            let r =
              loop-LoopFacts left n (suc done) x next k.costed
                (lower done st.cost next.cost falls low) in
            rw more (record {
              costed = r.costed;
              permuted = Perm.trans k.permuted r.permuted;
              same_head = λ h s. r.same_head h (k.same_head h s);
              no_dearer = inr (below st.cost next.cost _ low r.no_dearer);
              reached = later_falls r.reached;
            })
      ]
    where
      below : (a b c : F.T) → F.lt b a ≡ true → (c ≡ b) ⊎ (F.lt c b ≡ true) → F.lt c a ≡ true
      below a b c low (inl same) = subst (λ y. F.lt y a ≡ true) (sym same) low
      below a b c low (inr low') = laws.lt_trans _ _ _ low' low

      later_falls :
          {A : Type 0}
          → {y : F.T} → A ⊎ Falls F laws model links x (suc done + left) y
          → A ⊎ Falls F laws model links x (done + suc left) y
      later_falls (inl a) = inl a
      later_falls {y = y} (inr f) =
          inr (subst (λ m. Falls F laws model links x m y) (omega arith) f)

  refined :
      (passes : ℕ) (route : List (Node F))
      → let x = cost F laws model links route in
        let start : Best F model links = record { route = route; cost = x; improved = false } in
        IsRefined passes route (
          if ltb (length route) 4
          then route
          else (improve_loop F model links passes (length route) start).route)
  refined passes route =
      let x = cost F laws model links route in
      let start : Best F model links = record { route = route; cost = x; improved = false } in
      let r = loop-LoopFacts passes (length route) 0 x start refl still in
      elim (Bool-cases (ltb (length route) 4)) [
        | inl short ↦ rw short (record {
          permuted = Perm.refl _;
          same_head = λ h s. s;
          no_dearer = inl refl;
          reached = inl (ltb→lt (length route) 4 short, refl);
        })
        | inr long ↦ rw long (record {
          permuted = r.permuted;
          same_head = r.same_head;
          no_dearer = subst (λ c. (c ≡ x) ⊎ (F.lt c x ≡ true)) r.costed r.no_dearer;
          reached = inr (
              subst
                (λ c.
                  IsSettled F laws model links (length route)
                    (improve_loop F model links passes (length route) start).route
                  ⊎ Falls F laws model links x passes c)
                r.costed (from_first x r.reached));
        })
      ]
    where
      from_first :
          {A : Type 0}
          → {y : F.T} → (x : F.T) → A ⊎ Falls F laws model links x (0 + passes) y
          → A ⊎ Falls F laws model links x passes y
      from_first x (inl a) = inl a
      from_first {y = y} x (inr f) =
          inr (subst (λ m. Falls F laws model links x m y) (omega arith) f)

  -- twoOptImprove returns a permutation of the path with the same host, which costs no more than the
  -- path. It leaves a path of fewer than four nodes as it is; on others it stops at a path that no
  -- reversal of a segment behind the host improves by more than the margin, unless each of its 64
  -- passes made the path cheaper.
  pub two_opt_improve-IsRefined :
      (route : List (Node F))
      → IsRefined two_opt_max_passes route (two_opt_improve F model links route)
  unfolding two_opt_improve
  two_opt_improve-IsRefined route = refined two_opt_max_passes route
