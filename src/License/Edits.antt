-- ===== src/License/Edits.antt =====
-- levenshtein, enterprise/license/features.go, is the least number of edits.
use Prim.Native.Nat.{min}
use purser.Prelude.{
  ℕ, zero, suc, ◌+◌, ◌≤◌, ◌≡◌, refl, List, [], ◌∷◌, ◌++◌, ◌==◌, length, ap, ◌∙◌, arith, sym, subst,
  ◌⊎◌, Bool-cases, inl, inr,
}
use mathlib.Core.List.{append-nil}
use purser.License.Distance.{cost, row_from, last_row, first_row, entry, levenshtein}

-- The texts differ by `n` insertions, deletions and replacements of a rune.
pub data Edits : List ℕ → List ℕ → ℕ → Type 0 where
  done : Edits [] [] 0
  keep : (x : ℕ) (a b : List ℕ) (n : ℕ) → Edits a b n → Edits (x ∷ a) (x ∷ b) n
  replace : (x y : ℕ) (a b : List ℕ) (n : ℕ) → Edits a b n → Edits (x ∷ a) (y ∷ b) (suc n)
  insert : (y : ℕ) (a b : List ℕ) (n : ℕ) → Edits a b n → Edits a (y ∷ b) (suc n)
  delete : (x : ℕ) (a b : List ℕ) (n : ℕ) → Edits a b n → Edits (x ∷ a) b (suc n)

-- the distance by recursion on both texts, without rows
dist : List ℕ → List ℕ → ℕ
dist [] b = length b
dist (x ∷ a) [] = suc (length a)
dist (x ∷ a) (y ∷ b) = min (min (dist (x ∷ a) b + 1) (dist a (y ∷ b) + 1)) (dist a b + cost x y)

-- the texts from their ends
abbrev reverse_onto : List ℕ → List ℕ → List ℕ
reverse_onto [] b = b
reverse_onto (x ∷ a) b = reverse_onto a (x ∷ b)

-- a row, less its first entry, for the reversed prefixes `pa` and `pb` and what follows `pb`
cells : List ℕ → List ℕ → List ℕ → List ℕ
cells pa pb [] = []
cells pa pb (y ∷ b) = dist pa (y ∷ pb) ∷ cells pa (y ∷ pb) b

dist-nil : (pa : List ℕ) → dist pa [] ≡ length pa
unfolding dist
dist-nil [] = refl
dist-nil (x ∷ pa) = refl

row_from-cells :
    (x : ℕ) (b pa pb : List ℕ)
    → row_from x b (dist pa pb) (cells pa pb b) (dist (x ∷ pa) pb) ≡ cells (x ∷ pa) pb b
unfolding row_from cells dist
row_from-cells x [] pa pb = refl
row_from-cells x (y ∷ b) pa pb =
    ap (λ r. dist (x ∷ pa) (y ∷ pb) ∷ r) (row_from-cells x b pa (y ∷ pb))

last_row-cells :
    (i : ℕ) (a b pa : List ℕ)
    → i ≡ suc (length pa)
    → last_row i a b (dist pa [] ∷ cells pa [] b)
      ≡ dist (reverse_onto a pa) [] ∷ cells (reverse_onto a pa) [] b
unfolding last_row
last_row-cells i [] b pa e = refl
last_row-cells i (x ∷ a) b pa e =
    ap (last_row (suc i) a b) (
      ap (λ k. k ∷ row_from x b (dist pa []) (cells pa [] b) k) (e ∙ sym (dist-nil (x ∷ pa)))
      ∙ ap (λ r. dist (x ∷ pa) [] ∷ r) (row_from-cells x b pa []))
    ∙ last_row-cells (suc i) a b (x ∷ pa) (omega arith)

first_row-cells : (b pb : List ℕ) → first_row (length pb) b ≡ length pb ∷ cells [] pb b
unfolding first_row cells dist
first_row-cells [] pb = refl
first_row-cells (y ∷ b) pb = ap (λ r. length pb ∷ r) (first_row-cells b (y ∷ pb))

entry-cells :
    (b pa pb : List ℕ) → entry b (dist pa pb ∷ cells pa pb b) ≡ dist pa (reverse_onto b pb)
unfolding entry cells
entry-cells [] pa pb = refl
entry-cells (y ∷ b) pa pb = entry-cells b pa (y ∷ pb)

length-reverse_onto : (a b : List ℕ) → length (reverse_onto a b) ≡ length a + length b
length-reverse_onto [] b = omega arith
length-reverse_onto (x ∷ a) b = omega (arith, length-reverse_onto a (x ∷ b))

levenshtein-dist : (a b : List ℕ) → levenshtein a b ≡ dist (reverse_onto a []) (reverse_onto b [])
unfolding levenshtein dist
levenshtein-dist [] b = omega (arith, length-reverse_onto b [])
levenshtein-dist (x ∷ a) [] =
    omega (arith, length-reverse_onto (x ∷ a) [], dist-nil (reverse_onto (x ∷ a) []))
levenshtein-dist (x ∷ a) (y ∷ b) =
    ap (λ r. entry (y ∷ b) (last_row 1 (x ∷ a) (y ∷ b) r)) (first_row-cells (y ∷ b) [])
    ∙ (ap (entry (y ∷ b)) (last_row-cells 1 (x ∷ a) (y ∷ b) [] refl)
        ∙ entry-cells (y ∷ b) (reverse_onto (x ∷ a) []) [])

dist-delete : (x : ℕ) (a b : List ℕ) → dist (x ∷ a) b ≤ dist a b + 1
unfolding dist
dist-delete x a [] = omega (arith, dist-nil a)
dist-delete x a (y ∷ b) = omega arith

dist-insert : (y : ℕ) (a b : List ℕ) → dist a (y ∷ b) ≤ dist a b + 1
unfolding dist
dist-insert y [] b = omega arith
dist-insert y (x ∷ a) b = omega arith

cost_le : (x y : ℕ) → cost x y ≤ 1
cost_le x y = ground arith

cost_same : (x : ℕ) → cost x x ≡ 0
cost_same x = ground arith

dist_le : (a b : List ℕ) (n : ℕ) → Edits a b n → dist a b ≤ n
unfolding dist
dist_le [] [] zero done = omega arith
dist_le _ _ _ (keep x a b n e) = omega (arith, dist_le a b n e, cost_same x)
dist_le _ _ _ (replace x y a b n e) = omega (arith, dist_le a b n e, cost_le x y)
dist_le _ _ _ (insert y a b n e) = omega (arith, dist_le a b n e, dist-insert y a b)
dist_le _ _ _ (delete x a b n e) = omega (arith, dist_le a b n e, dist-delete x a b)

min_choice : (m n : ℕ) → (min m n ≡ m) ⊎ (min m n ≡ n)
min_choice m n = omega arith

least : (P : ℕ → Type 0) (m n k : ℕ) → P m → P n → P k → P (min (min m n) k)
least P m n k p q r = elim (min_choice (min m n) k) [
  | inr e ↦ subst P (sym e) r
  | inl e ↦ elim (min_choice m n) [
    | inl f ↦ subst P (sym (e ∙ f)) p
    | inr f ↦ subst P (sym (e ∙ f)) q
  ]
]

same_or_replaced :
    (x y : ℕ) (a b : List ℕ) (n : ℕ) → Edits a b n → Edits (x ∷ a) (y ∷ b) (n + cost x y)
same_or_replaced x y a b n e = elim (Bool-cases (x == y)) [
  | inr other ↦ rw other (subst (Edits _ _) (omega arith) (replace x y a b n e))
  | inl same ↦ rw same (
      subst (λ z. Edits (x ∷ a) (z ∷ b) (n + 0)) (ground (arith, same))
        (subst (Edits _ _) (omega arith) (keep x a b n e)))
]

dist-Edits : (a b : List ℕ) → Edits a b (dist a b)
unfolding dist
dist-Edits [] [] = done
dist-Edits [] (y ∷ b) = insert y [] b _ (dist-Edits [] b)
dist-Edits (x ∷ a) [] = delete x a [] _ (subst (Edits a []) (dist-nil a) (dist-Edits a []))
dist-Edits (x ∷ a) (y ∷ b) =
    least (Edits (x ∷ a) (y ∷ b)) _ _ _
      (subst (Edits _ _) (omega arith) (insert y (x ∷ a) b _ (dist-Edits (x ∷ a) b)))
      (subst (Edits _ _) (omega arith) (delete x a (y ∷ b) _ (dist-Edits a (y ∷ b))))
      (same_or_replaced x y a b _ (dist-Edits a b))

reverse_onto-Edits :
    (a b c d : List ℕ) (n m : ℕ)
    → Edits a b n
    → Edits c d m
    → Edits (reverse_onto a c) (reverse_onto b d) (n + m)
reverse_onto-Edits [] [] c d zero m done f = subst (Edits c d) (omega arith) f
reverse_onto-Edits _ _ c d _ m (keep x a b n e) f =
    reverse_onto-Edits a b (x ∷ c) (x ∷ d) n m e (keep x c d m f)
reverse_onto-Edits _ _ c d _ m (replace x y a b n e) f =
    subst (Edits _ _) (omega arith)
      (reverse_onto-Edits a b (x ∷ c) (y ∷ d) n (suc m) e (replace x y c d m f))
reverse_onto-Edits _ _ c d _ m (insert y a b n e) f =
    subst (Edits _ _) (omega arith)
      (reverse_onto-Edits a b c (y ∷ d) n (suc m) e (insert y c d m f))
reverse_onto-Edits _ _ c d _ m (delete x a b n e) f =
    subst (Edits _ _) (omega arith)
      (reverse_onto-Edits a b (x ∷ c) d n (suc m) e (delete x c d m f))

reverse_onto-twice : (a c d : List ℕ) → reverse_onto (reverse_onto a c) d ≡ reverse_onto c (a ++ d)
reverse_onto-twice [] c d = refl
reverse_onto-twice (x ∷ a) c d = reverse_onto-twice a (x ∷ c) d

reversed-Edits :
    (a b : List ℕ) (n : ℕ) → Edits (reverse_onto a []) (reverse_onto b []) n → Edits a b n
reversed-Edits a b n e =
    subst (λ c. Edits c b n) (reverse_onto-twice a [] [] ∙ append-nil a)
      (subst (λ d. Edits (reverse_onto (reverse_onto a []) []) d n)
        (reverse_onto-twice b [] [] ∙ append-nil b)
        (subst (Edits _ _) (omega arith) (reverse_onto-Edits _ _ [] [] n 0 e done)))

-- levenshtein returns the least number of insertions, deletions and replacements of a rune that turn
-- one text into the other: that many are enough, and fewer are not.
pub levenshtein-least :
    (a b : List ℕ) → Edits a b (levenshtein a b) × ((n : ℕ) → Edits a b n → levenshtein a b ≤ n)
levenshtein-least a b =
    let same = levenshtein-dist a b in
    (
      subst (Edits a b) (sym same)
          (reversed-Edits a b _ (dist-Edits (reverse_onto a []) (reverse_onto b []))),
      λ n e.
          subst (λ d. d ≤ n) (sym same)
            (dist_le _ _ n
              (subst (Edits _ _) (omega arith) (reverse_onto-Edits a b [] [] n 0 e done))),
    )
