-- ===== src/Planner/Ordering/Swaps.antt =====
-- The exchanges of two entries and the reversals of a segment in go/planner/plan/ordering.go permute.
use mathlib.Core.List.{Perm}
use mathlib.Core.List.Perm
use purser.Prelude.{ℕ, zero, suc, ◌≡◌, List, [], ◌∷◌, ltb, Bool-cases, inl, inr, get_elem?, ap}
use mathlib.Core.Option.{some-injective}
use purser.Planner.Ordering.{exchange, swap, reverse_segment}

module _ {ℓ} {A : Type ℓ} where
  exchange-Perm :
      (r : ℕ) (x : A) (ys : List A) → Perm (x ∷ ys) ((exchange r x ys).0 ∷ (exchange r x ys).1)
  unfolding exchange
  exchange-Perm r x [] = Perm.refl _
  exchange-Perm zero x (y ∷ ys) = Perm.swap y x ys
  exchange-Perm (suc r) x (y ∷ ys) =
      Perm.trans (Perm.swap y x ys)
        (Perm.trans (Perm.cons y (exchange-Perm r x ys)) (Perm.swap _ y _))

  swap-Perm : (l r : ℕ) (xs : List A) → Perm xs (swap l r xs)
  unfolding swap
  swap-Perm l r [] = Perm.refl _
  swap-Perm l zero (x ∷ xs) = Perm.refl _
  swap-Perm zero (suc r) (x ∷ xs) = exchange-Perm r x xs
  swap-Perm (suc l) (suc r) (x ∷ xs) = Perm.cons x (swap-Perm l r xs)

  pub reverse_segment-Perm : (l r : ℕ) (xs : List A) → Perm xs (reverse_segment l r xs)
  unfolding reverse_segment
  reverse_segment-Perm l zero xs = Perm.refl _
  reverse_segment-Perm l (suc r) xs = elim (Bool-cases (ltb l (suc r))) [
    | inr done ↦ rw done (Perm.refl _)
    | inl more ↦
        rw more
          (Perm.trans (swap-Perm l (suc r) xs) (reverse_segment-Perm (suc l) r (swap l (suc r) xs)))
  ]

  -- The list begins with `h`.
  abbrev pub StartsWith : A → List A → Type ℓ
  StartsWith h xs = (ys : List A) × (xs ≡ h ∷ ys)

  swap-StartsWith :
      (h : A) (l r : ℕ) (xs : List A) → StartsWith h xs → StartsWith h (swap (suc l) r xs)
  unfolding swap
  swap-StartsWith h l zero [] s = s
  swap-StartsWith h l (suc r) [] s = s
  swap-StartsWith h l zero (x ∷ xs) s = s
  swap-StartsWith h l (suc r) (x ∷ xs) s =
      (swap l r xs, ap (λ y. y ∷ swap l r xs) (some-injective _ _ (ap (λ ys. get_elem? ys 0) s.1)))

  pub reverse_segment-StartsWith :
      (h : A) (l r : ℕ) (xs : List A)
      → StartsWith h xs
      → StartsWith h (reverse_segment (suc l) r xs)
  unfolding reverse_segment
  reverse_segment-StartsWith h l zero xs s = s
  reverse_segment-StartsWith h l (suc r) xs s = elim (Bool-cases (ltb (suc l) (suc r))) [
    | inr done ↦ rw done s
    | inl more ↦ rw more (
        reverse_segment-StartsWith h (suc l) r (swap (suc l) (suc r) xs)
          (swap-StartsWith h l (suc r) xs s))
  ]
