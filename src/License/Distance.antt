-- ===== src/License/Distance.antt =====
-- The edit distance of enterprise/license/features.go, with two rolling rows, over lists of runes.
use Prim.Native.Nat.{min}
use purser.Prelude.{ℕ, suc, ◌+◌, List, [], ◌∷◌, ◌==◌, if◌then◌else◌, length}

abbrev pub cost : ℕ → ℕ → ℕ
cost x y = if x == y then 0 else 1

-- the loop over j: cur[j] from prev[j-1], prev[j] and cur[j-1]
unfoldable pub row_from : ℕ → List ℕ → ℕ → List ℕ → ℕ → List ℕ
row_from x [] diag prev left = []
row_from x (y ∷ b) diag [] left = []
row_from x (y ∷ b) diag (up ∷ prev) left =
    let v = min (min (left + 1) (up + 1)) (diag + cost x y) in v ∷ row_from x b up prev v

abbrev pub next_row : ℕ → ℕ → List ℕ → List ℕ → List ℕ
next_row i x b [] = []
next_row i x b (diag ∷ prev) = i ∷ row_from x b diag prev i

-- the loop over i
unfoldable pub last_row : ℕ → List ℕ → List ℕ → List ℕ → List ℕ
unfolding row_from
last_row i [] b row = row
last_row i (x ∷ a) b row = last_row (suc i) a b (next_row i x b row)

-- for j := range prev { prev[j] = j }, from `j`
unfoldable pub first_row : ℕ → List ℕ → List ℕ
first_row j [] = j ∷ []
first_row j (y ∷ b) = j ∷ first_row (suc j) b

-- prev[len(rb)]; the row has one entry more than `b`
unfoldable pub entry : List ℕ → List ℕ → ℕ
entry [] [] = 0
entry [] (v ∷ row) = v
entry (y ∷ b) [] = 0
entry (y ∷ b) (v ∷ row) = entry b row

unfoldable pub levenshtein : List ℕ → List ℕ → ℕ
unfolding last_row first_row entry
levenshtein [] b = length b
levenshtein (x ∷ a) [] = length (x ∷ a)
levenshtein (x ∷ a) (y ∷ b) = entry (y ∷ b) (last_row 1 (x ∷ a) (y ∷ b) (first_row 0 (y ∷ b)))
