-- ===== src/Planner/Ranked.antt =====
-- Phase A, selectQuantization of go/planner/plan/plan.go, picks the best quantization that fits.
use purser.Prelude.{
  ◌≡◌, ◌⊎◌, refl, true, false, Option, none, some, List, [], ◌∷◌, if◌then◌else◌, All, arith,
  Bool-cases, inl, inr, subst,
}
use purser.Planner.Float.{Float64, OrderLaws}
use purser.Planner.Types.{Node, ModelSpec, Quantization, Constraints}
use purser.Planner.Choose.{
  Choice, chosen, failed, no_quantizations, rank_quant, rank_quants, mark_fp4, quant_need, ram_from,
  first_fit, or_too_large, too_large_for, choose_quantization, select_quantization, is_nil,
}

-- Some element of the list has the property.
abbrev pub Some {ℓ} : {A : Type ℓ} → (A → Type 0) → List A → Type 0
Some P [] = ⊥
Some P (x ∷ xs) = P x ⊎ Some P xs

module _ (F : Float64) (laws : OrderLaws F) where
  abbrev Below : Quantization F → Quantization F → Type 0
  Below p r = F.lt p.quality r.quality ≡ false

  abbrev IsRanked : List (Quantization F) → Type 0
  IsRanked [] = Unit {0}
  IsRanked (p ∷ ps) = All (Below p) ps × IsRanked ps

  abbrev pub IsFinite : Quantization F → Type 0
  IsFinite q = F.lt q.quality F.inf ≡ true

  All-rank_quant :
      (P : Quantization F → Type 0) (q : Quantization F) (ps : List (Quantization F))
      → P q
      → All P ps
      → All P (rank_quant F q ps)
  unfolding rank_quant
  All-rank_quant P q [] h a = (h, tt)
  All-rank_quant P q (p ∷ ps) h a = elim (Bool-cases (F.lt q.quality p.quality)) [
    | inl lower ↦ rw lower (a.0, All-rank_quant P q ps h a.1)
    | inr higher ↦ rw higher (h, a)
  ]

  rank_quant-All :
      (P : Quantization F → Type 0) (q : Quantization F) (ps : List (Quantization F))
      → All P (rank_quant F q ps)
      → P q × All P ps
  unfolding rank_quant
  rank_quant-All P q [] a = (a.0, tt)
  rank_quant-All P q (p ∷ ps) a = elim (Bool-cases (F.lt q.quality p.quality)) [
    | inl lower ↦
        let b = subst (λ t. All P (if t then p ∷ rank_quant F q ps else q ∷ p ∷ ps)) lower a in
        let rest = rank_quant-All P q ps b.1 in (rest.0, (b.0, rest.1))
    | inr higher ↦ subst (λ t. All P (if t then p ∷ rank_quant F q ps else q ∷ p ∷ ps)) higher a
  ]

  rank_quant-Some :
      (P : Quantization F → Type 0) (q : Quantization F) (ps : List (Quantization F))
      → Some P (rank_quant F q ps)
      → P q ⊎ Some P ps
  unfolding rank_quant
  rank_quant-Some P q [] s = s
  rank_quant-Some P q (p ∷ ps) s = elim (Bool-cases (F.lt q.quality p.quality)) [
    | inl lower ↦
        elim (subst (λ t. Some P (if t then p ∷ rank_quant F q ps else q ∷ p ∷ ps)) lower s) [
          | inl h ↦ inr (inl h)
          | inr t ↦ elim (rank_quant-Some P q ps t) [ inl h ↦ inl h | inr u ↦ inr (inr u) ]
        ]
    | inr higher ↦ subst (λ t. Some P (if t then p ∷ rank_quant F q ps else q ∷ p ∷ ps)) higher s
  ]

  All-Below-trans :
      (q p : Quantization F) (ps : List (Quantization F))
      → IsFinite p
      → Below q p
      → All (Below p) ps
      → All (Below q) ps
  All-Below-trans q p [] f h a = tt
  All-Below-trans q p (r ∷ ps) f h a = (
    elim (Bool-cases (F.lt q.quality r.quality)) [
      | inl better ↦
          absurd (ground (arith, laws.lt_of_not_lt q.quality p.quality r.quality f better h, a.0))
      | inr fine ↦ fine
    ],
    All-Below-trans q p ps f h a.1,
  )

  rank_quant-IsRanked :
      (q : Quantization F) (ps : List (Quantization F))
      → All IsFinite ps
      → IsRanked ps
      → IsRanked (rank_quant F q ps)
  unfolding rank_quant
  rank_quant-IsRanked q [] f r = (tt, tt)
  rank_quant-IsRanked q (p ∷ ps) f r = elim (Bool-cases (F.lt q.quality p.quality)) [
    | inl lower ↦ rw lower (
      All-rank_quant (Below p) q ps (asym p.quality q.quality lower) r.0,
      rank_quant-IsRanked q ps f.1 r.1,
    )
    | inr higher ↦ rw higher ((higher, All-Below-trans q p ps f.0 higher r.0), r)
  ]
    where
      asym : (x y : F.T) → F.lt y x ≡ true → F.lt x y ≡ false
      asym x y h = elim (Bool-cases (F.lt x y)) [
        | inl k ↦ absurd (ground (arith, laws.lt_trans x y x k h, laws.lt_irrefl x))
        | inr k ↦ k
      ]

  ranked-All :
      (P : Quantization F → Type 0) (qs : List (Quantization F))
      → All P qs
      → All P (rank_quants F qs)
  unfolding rank_quants
  ranked-All P [] a = tt
  ranked-All P (q ∷ qs) a = All-rank_quant P q (rank_quants F qs) a.0 (ranked-All P qs a.1)

  All-of_ranked :
      (P : Quantization F → Type 0) (qs : List (Quantization F))
      → All P (rank_quants F qs)
      → All P qs
  unfolding rank_quants
  All-of_ranked P [] a = tt
  All-of_ranked P (q ∷ qs) a =
      let b = rank_quant-All P q (rank_quants F qs) a in (b.0, All-of_ranked P qs b.1)

  Some-of_ranked :
      (P : Quantization F → Type 0) (qs : List (Quantization F))
      → Some P (rank_quants F qs)
      → Some P qs
  unfolding rank_quants
  Some-of_ranked P [] s = s
  Some-of_ranked P (q ∷ qs) s = elim (rank_quant-Some P q (rank_quants F qs) s) [
    | inl h ↦ inl h
    | inr t ↦ inr (Some-of_ranked P qs t)
  ]

  rank_quants-IsRanked :
      (qs : List (Quantization F)) → All IsFinite qs → IsRanked (rank_quants F qs)
  unfolding rank_quants
  rank_quants-IsRanked [] f = tt
  rank_quants-IsRanked (q ∷ qs) f =
      rank_quant-IsRanked q (rank_quants F qs) (ranked-All IsFinite qs f.1)
        (rank_quants-IsRanked qs f.1)

  module _ (nodes : List (Node F)) (kv : F.T) where
    -- the weights, the KV cache and the overhead are at most the available memory of the nodes
    abbrev pub FitsAll : Quantization F → Type 0
    FitsAll q = F.le (quant_need F nodes kv q) (ram_from F (F.of_nat 0) nodes) ≡ true

    -- a declared quantization that fits, and than which none that fits is better
    abbrev pub IsBest : List (Quantization F) → Quantization F → Type 0
    IsBest qs q =
        Some (λ p. (q ≡ mark_fp4 F nodes p) × FitsAll p) qs
        × All (λ p. FitsAll p → F.lt q.quality p.quality ≡ false) qs

    Below-unless :
        (q : Quantization F) (ps : List (Quantization F))
        → All (Below q) ps
        → All (λ p. FitsAll p → Below q p) ps
    Below-unless q [] a = tt
    Below-unless q (p ∷ ps) a = (λ _. a.0, Below-unless q ps a.1)

    abbrev FirstFit : List (Quantization F) → Option (Quantization F) → Type 0
    FirstFit qs none = All (λ p. ¬ FitsAll p) qs
    FirstFit qs (some q) = IsBest qs q

    first_fit-FirstFit :
        (qs : List (Quantization F)) → IsRanked qs → FirstFit qs (first_fit F nodes kv qs)
    unfolding first_fit
    first_fit-FirstFit [] r = tt
    first_fit-FirstFit (q ∷ qs) r =
        elim (Bool-cases (F.le (quant_need F nodes kv q) (ram_from F (F.of_nat 0) nodes))) [
          | inl fits ↦
              rw fits (inl (refl, fits), (λ _. laws.lt_irrefl q.quality, Below-unless q qs r.0))
          | inr large ↦ rw large (skip (first_fit F nodes kv qs) (first_fit-FirstFit qs r.1) large)
        ]
      where
        skip :
            (o : Option (Quantization F))
            → FirstFit qs o
            → F.le (quant_need F nodes kv q) (ram_from F (F.of_nat 0) nodes) ≡ false
            → FirstFit (q ∷ qs) o
        skip none a large = (λ fits. absurd (ground arith), a)
        skip (some p) b large = (inr b.0, (λ fits. absurd (ground arith), b.1))

    abbrev pub Selects : List (Quantization F) → Choice F → Type 0
    Selects qs (chosen q) = IsBest qs q
    Selects qs (failed e) = All (λ p. ¬ FitsAll p) qs

    or_too_large-Selects :
        (qs : List (Quantization F)) (o : Option (Quantization F))
        → FirstFit (rank_quants F qs) o
        → Selects qs (or_too_large F nodes kv (rank_quants F qs) o)
    or_too_large-Selects qs (some q) b = (Some-of_ranked _ qs b.0, All-of_ranked _ qs b.1)
    or_too_large-Selects qs none a = too_large-Selects (rank_quants F qs) (All-of_ranked _ qs a)
      where
        too_large-Selects :
            (ranked : List (Quantization F))
            → All (λ p. ¬ FitsAll p) qs
            → Selects qs (too_large_for F nodes kv ranked)
        too_large-Selects [] b = b
        too_large-Selects (q ∷ ranked) b = b

    -- Without a forced quantization, and for qualities below infinity: selectQuantization returns
    -- a declared quantization that fits the aggregate memory, with the emulation flag set for the
    -- nodes, than which no declared one that fits has a higher quality; it fails only when none fits.
    pub select_quantization-Selects :
        (model : ModelSpec F) (c : Constraints F)
        → c.force_quant ≡ none
        → All IsFinite model.quantizations
        → Selects model.quantizations (select_quantization F nodes model kv c)
    unfolding select_quantization
    select_quantization-Selects model c h f = rw h (some_or_none model.quantizations f)
      where
        some_or_none :
            (qs : List (Quantization F))
            → All IsFinite qs
            → Selects qs (
                if is_nil qs
                then failed no_quantizations
                else choose_quantization F nodes qs kv none)
        some_or_none [] f = tt
        some_or_none (q ∷ qs) f =
            or_too_large-Selects (q ∷ qs) (first_fit F nodes kv (rank_quants F (q ∷ qs)))
              (first_fit-FirstFit (rank_quants F (q ∷ qs)) (rank_quants-IsRanked (q ∷ qs) f))
