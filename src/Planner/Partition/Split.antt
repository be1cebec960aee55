-- ===== src/Planner/Partition/Split.antt =====
-- Splits of the layer chain, described without tables: a list of shard ends, one for each node of a
-- prefix of the order.
use purser.Prelude.{ℕ, suc, ◌+◌, ◌-◌, ◌<◌, ◌≡◌, refl, false, List, [], ◌∷◌, String, arith, length}
use native.Mathlib.Nat.{add-zero}
use purser.Planner.Float.{Float64}
use purser.Planner.Types.{Assignment, Role, worker}
use purser.Planner.Partition.Columns.{Chain, shard}
use purser.Planner.Partition.Cuts.{shards}

-- The shards end at `ends`, from layer `i` on, and the last one at `L`; none is empty.
abbrev pub IsSplit : ℕ → ℕ → List ℕ → Type 0
IsSplit i L [] = i ≡ L
IsSplit i L (e ∷ ends) = (i < e) × IsSplit e L ends

-- The shards on the nodes of the order, the first with the role given.
unfoldable pub place : Role → List String → ℕ → List ℕ → List Assignment
place role [] i ends = []
place role (id ∷ order) i [] = []
place role (id ∷ order) i (e ∷ ends) =
    record { node_id = id; role = role; layer_start = i; layer_end = e - 1; draft = false }
    ∷ place worker order e ends

pub shards-eq-place :
    (role : Role) (order : List String) (i L : ℕ) (ends : List ℕ)
    → IsSplit i L ends
    → shards role order (i ∷ ends) ≡ place role order i ends
unfolding shards place
shards-eq-place role [] i L ends h = refl
shards-eq-place role (id ∷ order) i L [] h = refl
shards-eq-place role (id ∷ order) i L (e ∷ ends) h =
    ground (arith, h.0, shards-eq-place worker order e L ends h.1)

module _ (F : Float64) (stage : ℕ → ℕ → ℕ → F.T) where
  -- The slowest stage of a split, from stage suc p on: `acc` is the slowest so far.
  unfoldable pub bottleneck : ℕ → F.T → ℕ → List ℕ → F.T
  bottleneck p acc i [] = acc
  bottleneck p acc i (e ∷ ends) = bottleneck (suc p) (F.max_of acc (stage (suc p) i e)) e ends

  pub Chain-bottleneck :
      (p i L : ℕ) (acc : F.T) (ends : List ℕ)
      → Chain F stage p i acc
      → IsSplit i L ends
      → Chain F stage (p + length ends) L (bottleneck p acc i ends)
  unfolding bottleneck
  Chain-bottleneck p i L acc [] ch h = rw (← h, add-zero) ch
  Chain-bottleneck p i L acc (e ∷ ends) ch h =
      rw (shift p (length ends)) (Chain-bottleneck (suc p) e L _ ends (shard ch h.0 refl) h.1)
    where
      shift : (p n : ℕ) → p + suc n ≡ suc p + n
      shift p n = omega arith
