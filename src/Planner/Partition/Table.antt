-- ===== src/Planner/Partition/Table.antt =====
-- The tables and loops of dpPartition (go/planner/plan/partition.go), over any stage-time function.
-- A column number `m` of the code, 1 or more, is `suc p` here.
use purser.Prelude.{ℕ, zero, suc, ◌-◌, ◌&&◌, Option, none, some, List, ◌∷◌, ◌==◌, if◌then◌else◌}
use purser.Planner.Float.{Float64}

pub record Tables (T : Type 0) : Type 0 where
  pub dp : ℕ → ℕ → T
  -- -1 of the code is `none`
  pub cut : ℕ → ℕ → Option ℕ

-- a[j][m] = v
unfoldable pub set_at {ℓ} : {A : Type ℓ} → (ℕ → ℕ → A) → ℕ → ℕ → A → ℕ → ℕ → A
set_at f j m v j' m' = if j' == j && m' == m then v else f j' m'

module _ (F : Float64) (stage : ℕ → ℕ → ℕ → F.T) where
  open F use {T, lt, inf, is_inf, max_of, of_nat}

  -- the two `make` loops and dp[0][0] = 0
  unfoldable pub fresh : Tables T
  unfolding set_at
  fresh = record { dp = set_at (λ j m. inf) 0 0 (of_nat 0); cut = λ j m. none }

  -- the update of dp[j][m] and cut[j][m]
  unfoldable pub relax : ℕ → ℕ → ℕ → T → Tables T → Tables T
  unfolding set_at
  relax p i j st t =
      let bottleneck = max_of (t.dp i p) st in
      if lt bottleneck (t.dp j (suc p))
      then record { dp = set_at t.dp j (suc p) bottleneck; cut = set_at t.cut j (suc p) (some i) }
      else t

  -- for j := i + 1; j <= L; j++, with the rounds left first; an infinite stage time breaks it
  unfoldable pub ends_loop : ℕ → ℕ → ℕ → ℕ → Tables T → Tables T
  unfolding relax
  ends_loop p i zero j t = t
  ends_loop p i (suc n) j t =
      let rest = ends_loop p i n (suc j) (relax p i j (stage (suc p) i j) t) in
      if is_inf (stage (suc p) i j) then t else rest

  -- the body of the loop over i, with its `continue`
  unfoldable pub starts_body : ℕ → ℕ → ℕ → Tables T → Tables T
  unfolding ends_loop
  starts_body L p i t = if is_inf (t.dp i p) then t else ends_loop p i (L - i) (suc i) t

  -- for i := 0; i <= L; i++
  unfoldable pub starts_loop : ℕ → ℕ → ℕ → ℕ → Tables T → Tables T
  unfolding starts_body
  starts_loop L p zero i t = t
  starts_loop L p (suc n) i t = starts_loop L p n (suc i) (starts_body L p i t)

  -- for m := 1; m <= M; m++
  unfoldable pub columns_loop : ℕ → ℕ → ℕ → Tables T → Tables T
  unfolding starts_loop
  columns_loop L zero p t = t
  columns_loop L (suc n) p t = columns_loop L n (suc p) (starts_loop L p (suc L) 0 t)

  -- the loop that picks bestM and best; bestM is -1 (`none`) at first
  unfoldable pub pick_loop : Tables T → ℕ → ℕ → ℕ → Option ℕ × T → Option ℕ × T
  pick_loop t L zero p (best_m, best) = (best_m, best)
  pick_loop t L (suc n) p (best_m, best) =
      pick_loop t L n (suc p)
        (if lt (t.dp L (suc p)) best then (some (suc p), t.dp L (suc p)) else (best_m, best))

-- The backward walk of reconstructCuts: starts[0 .. usedM] for the stages that cover `j` layers,
-- in front of the starts found so far. It reads no entry that is -1.
unfoldable pub cut_starts : (ℕ → ℕ → Option ℕ) → ℕ → ℕ → List ℕ → Option (List ℕ)
cut_starts cut zero j acc = some acc
cut_starts cut (suc m) j acc = elim (cut j (suc m)) [
  | none ↦ none
  | some i ↦ cut_starts cut m i (i ∷ acc)
]
