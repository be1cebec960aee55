-- ===== src/Planner/Ordering/Improve.antt =====
-- twoOptImprove, go/planner/plan/ordering.go: what the refinement keeps and what it reaches.
use mathlib.Core.List.{Perm}
use mathlib.Core.List.Perm
use purser.Prelude.{
  ℕ, zero, suc, ◌+◌, ◌≤◌, ◌<◌, ◌≡◌, ◌⊎◌, inl, inr, refl, true, false, List, Bool-cases, arith, ap,
  sym, ◌∙◌, subst, ℕ_discrete,
}
use purser.Planner.Float.{Float64, OrderLaws}
use purser.Planner.Types.{Node, Link, ModelSpec}
use purser.Planner.Ordering.{
  reverse_segment, order_cost, Best, try_reversal, try_ends, two_opt_improve_eps,
}
use purser.Planner.Ordering.Swaps.{StartsWith, reverse_segment-Perm, reverse_segment-StartsWith}

module _ (F : Float64) (laws : OrderLaws F) (model : ModelSpec F) (links : List (Link F)) where
  abbrev pub cost : List (Node F) → F.T
  cost = order_cost F model links

  -- What subtracts the margin only lowers a number.
  abbrev pub Margin : Type 0
  Margin = (x y : F.T) → F.lt x (F.sub y (two_opt_improve_eps F)) ≡ true → F.lt x y ≡ true

  -- Each of `n` paths in turn is cheaper than the one before; the first cost is `x` and the last `y`.
  pub data Falls (x : F.T) : ℕ → F.T → Type 0 where
    still : Falls x 0 x
    lower : (n : ℕ) (y z : F.T) → Falls x n y → F.lt z y ≡ true → Falls x (suc n) z

  -- No reversal of a segment behind the host is cheaper by more than the margin.
  abbrev pub IsSettled : ℕ → List (Node F) → Type 0
  IsSettled n route =
      (i k : ℕ)
      → 1 ≤ i
      → i < k
      → k < n
      → F.lt (cost (reverse_segment i k route)) (F.sub (cost route) (two_opt_improve_eps F)) ≡ false

  -- What a state keeps of an earlier one.
  pub record Keeps (from to : Best F model links) : Type 0 where
    pub costed : to.cost ≡ cost to.route
    pub permuted : Perm from.route to.route
    pub same_head : (h : Node F) → StartsWith h from.route → StartsWith h to.route
    pub no_dearer : (to.cost ≡ from.cost) ⊎ (F.lt to.cost from.cost ≡ true)
    pub unchanged : to.improved ≡ false → to ≡ from
    pub lowered : from.improved ≡ false → to.improved ≡ true → F.lt to.cost from.cost ≡ true

  pub self-Keeps : (st : Best F model links) → st.cost ≡ cost st.route → Keeps st st
  self-Keeps st e = record {
    costed = e;
    permuted = Perm.refl _;
    same_head = λ h s. s;
    no_dearer = inl refl;
    unchanged = λ _. refl;
    lowered = λ quiet yes. absurd (ground (arith, quiet, yes));
  }

  pub trans-Keeps : (a b c : Best F model links) → Keeps a b → Keeps b c → Keeps a c
  trans-Keeps a b c f g = record {
    costed = g.costed;
    permuted = Perm.trans f.permuted g.permuted;
    same_head = λ h s. g.same_head h (f.same_head h s);
    no_dearer = then_no_dearer f.no_dearer g.no_dearer;
    unchanged = λ quiet.
        let same = g.unchanged quiet in
        same ∙ f.unchanged (sym (ap (λ st. st.improved) same) ∙ quiet);
    lowered = λ quiet yes. elim (Bool-cases b.improved) [
      | inl mid ↦ then_lower (f.lowered quiet mid) g.no_dearer
      | inr mid ↦ subst (λ st. F.lt c.cost st.cost ≡ true) (f.unchanged mid) (g.lowered mid yes)
    ];
  }
    where
      then_lower :
          F.lt b.cost a.cost ≡ true
          → (c.cost ≡ b.cost) ⊎ (F.lt c.cost b.cost ≡ true)
          → F.lt c.cost a.cost ≡ true
      then_lower low (inl same) = subst (λ x. F.lt x a.cost ≡ true) (sym same) low
      then_lower low (inr low') = laws.lt_trans _ _ _ low' low

      then_no_dearer :
          (b.cost ≡ a.cost) ⊎ (F.lt b.cost a.cost ≡ true)
          → (c.cost ≡ b.cost) ⊎ (F.lt c.cost b.cost ≡ true)
          → (c.cost ≡ a.cost) ⊎ (F.lt c.cost a.cost ≡ true)
      then_no_dearer (inl same) (inl same') = inl (same' ∙ same)
      then_no_dearer (inl same) (inr low) = inr (subst (λ x. F.lt c.cost x ≡ true) same low)
      then_no_dearer (inr low) h = inr (then_lower low h)

  module _ (margin : Margin) where
    try-Keeps :
        (i k : ℕ) (st : Best F model links)
        → st.cost ≡ cost st.route
        → Keeps st (try_reversal F model links (suc i) k st)
    unfolding try_reversal
    try-Keeps i k st e =
        let cand = reverse_segment (suc i) k st.route in
        elim (Bool-cases (F.lt (cost cand) (F.sub st.cost (two_opt_improve_eps F)))) [
          | inr worse ↦ rw worse (self-Keeps st e)
          | inl better ↦ rw better (record {
            costed = refl;
            permuted = reverse_segment-Perm (suc i) k st.route;
            same_head = λ h s. reverse_segment-StartsWith h i k st.route s;
            no_dearer = inr (margin _ _ better);
            unchanged = λ quiet. absurd (ground (arith, quiet));
            lowered = λ _ _. margin _ _ better;
          })
        ]

    -- whether the reversal is not tried in vain
    abbrev pub IsUseless : ℕ → ℕ → List (Node F) → Type 0
    IsUseless i k route =
        F.lt (cost (reverse_segment i k route)) (F.sub (cost route) (two_opt_improve_eps F)) ≡ false

    try-IsUseless :
        (i k : ℕ) (st : Best F model links)
        → st.cost ≡ cost st.route
        → (try_reversal F model links i k st).improved ≡ false
        → IsUseless i k st.route
    unfolding try_reversal
    try-IsUseless i k st e quiet =
        let cand = reverse_segment i k st.route in
        elim (Bool-cases (F.lt (cost cand) (F.sub st.cost (two_opt_improve_eps F)))) [
          | inr worse ↦
              subst (λ x. F.lt (cost cand) (F.sub x (two_opt_improve_eps F)) ≡ false) e worse
          | inl better ↦ absurd (ground (arith, better, quiet))
        ]

    pub ends-Keeps :
        (left i k : ℕ) (st : Best F model links)
        → st.cost ≡ cost st.route
        → Keeps st (try_ends F model links left (suc i) k st)
    unfolding try_ends
    ends-Keeps zero i k st e = self-Keeps st e
    ends-Keeps (suc left) i k st e =
        let one = try-Keeps i k st e in
        trans-Keeps _ _ _ one (ends-Keeps left i (suc k) _ one.costed)

    pub ends-IsUseless :
        (left i k j : ℕ) (st : Best F model links)
        → st.cost ≡ cost st.route
        → (try_ends F model links left (suc i) k st).improved ≡ false
        → k ≤ j
        → j < k + left
        → IsUseless (suc i) j st.route
    unfolding try_ends
    ends-IsUseless zero i k j st e quiet low high = absurd (omega arith)
    ends-IsUseless (suc left) i k j st e quiet low high =
        let one = try-Keeps i k st e in
        let mid = try_reversal F model links (suc i) k st in
        let rest = ends-Keeps left i (suc k) mid one.costed in
        let mid_no : mid.improved ≡ false =
          sym (ap (λ x. x.improved) (rest.unchanged quiet)) ∙ quiet in
        elim (ℕ_discrete k j) [
          | yes same ↦
              subst (λ n. IsUseless (suc i) n st.route) same (try-IsUseless (suc i) k st e mid_no)
          | no other ↦
              subst (λ x. IsUseless (suc i) j x.route) (one.unchanged mid_no)
                (ends-IsUseless left i (suc k) j mid one.costed quiet (omega (arith, other))
                  (omega arith))
        ]
