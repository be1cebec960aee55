-- ===== src/Planner/Float.antt =====
-- float64 as the planner uses it: a type with the operations the code calls, and the laws that the
-- proofs rely on, each of which IEEE arithmetic has (NaN included).
use purser.Prelude.{ℕ, ◌<◌, ◌≤◌, ◌^◌, ◌≡◌, ◌⊎◌, Bool, true, false, ◌&&◌}

pub record Float64 : Type 1 where
  pub T : Type 0
  -- float64(n), and the literal n / 10 ^ k
  pub of_nat : ℕ → T
  pub decimal : ℕ → ℕ → T
  pub add : T → T → T
  pub sub : T → T → T
  pub mul : T → T → T
  pub div : T → T → T
  -- x < y, x <= y, math.Max, math.Min, math.Inf(1), math.IsInf(x, 1)
  pub lt : T → T → Bool
  pub le : T → T → Bool
  pub max_of : T → T → T
  pub min_of : T → T → T
  pub inf : T
  pub is_inf : T → Bool

-- The order of the floats. A comparison with NaN is false, and math.Max of NaN and a number is NaN.
pub record OrderLaws (F : Float64) : Type 0 where
  pub lt_trans : (x y z : F.T) → F.lt x y ≡ true → F.lt y z ≡ true → F.lt x z ≡ true
  pub lt_irrefl : (x : F.T) → F.lt x x ≡ false
  -- `y` is a number, since it is below infinity
  pub lt_of_not_lt :
      (x y z : F.T) → F.lt y F.inf ≡ true → F.lt x z ≡ true → F.lt x y ≡ false → F.lt y z ≡ true
  pub inf_top : (x : F.T) → F.lt F.inf x ≡ false
  pub zero_lt_inf : F.lt (F.of_nat 0) F.inf ≡ true
  pub eq_inf : (x : F.T) → F.is_inf x ≡ true → x ≡ F.inf
  pub is_inf_inf : F.is_inf F.inf ≡ true
  pub max_lt : (x y z : F.T) → F.lt (F.max_of x y) z ≡ (F.lt x z && F.lt y z)
  pub lt_max : (x y z : F.T) → F.lt x (F.max_of y z) ≡ true → (F.lt x y ≡ true) ⊎ (F.lt x z ≡ true)

-- The arithmetic that makes the memory of a shard grow with it. The premises keep out infinity times
-- zero and other sources of NaN.
pub record GrowthLaws (F : Float64) : Type 0 where
  pub le_trans : (x y z : F.T) → F.le x y ≡ true → F.le y z ≡ true → F.le x z ≡ true
  pub of_nat_mono : (m n : ℕ) → m ≤ n → F.le (F.of_nat m) (F.of_nat n) ≡ true
  -- float64 of an int is finite
  pub of_nat_finite : (n : ℕ) → n < 2 ^ 63 → F.lt (F.of_nat n) F.inf ≡ true
  pub mul_mono :
      (x a b : F.T)
      → F.le (F.of_nat 0) x ≡ true
      → F.lt x F.inf ≡ true
      → F.le (F.of_nat 0) a ≡ true
      → F.le a b ≡ true
      → F.lt b F.inf ≡ true
      → F.le (F.mul x a) (F.mul x b) ≡ true
  pub mul_nonneg :
      (x a : F.T)
      → F.le (F.of_nat 0) x ≡ true
      → F.lt x F.inf ≡ true
      → F.le (F.of_nat 0) a ≡ true
      → F.lt a F.inf ≡ true
      → F.le (F.of_nat 0) (F.mul x a) ≡ true
  pub div_mono :
      (a b : F.T) (n : ℕ)
      → 0 < n
      → n < 2 ^ 63
      → F.le a b ≡ true
      → F.le (F.div a (F.of_nat n)) (F.div b (F.of_nat n)) ≡ true
  pub div_nonneg :
      (a : F.T) (n : ℕ)
      → 0 < n
      → n < 2 ^ 63
      → F.le (F.of_nat 0) a ≡ true
      → F.le (F.of_nat 0) (F.div a (F.of_nat n)) ≡ true
  pub div_finite :
      (a : F.T) (n : ℕ)
      → 0 < n
      → n < 2 ^ 63
      → F.lt a F.inf ≡ true
      → F.lt (F.div a (F.of_nat n)) F.inf ≡ true
  pub add_mono :
      (a b c d : F.T)
      → F.le (F.of_nat 0) a ≡ true
      → F.le (F.of_nat 0) c ≡ true
      → F.le a b ≡ true
      → F.le c d ≡ true
      → F.le (F.add a c) (F.add b d) ≡ true
  pub add_nonneg :
      (a b : F.T)
      → F.le (F.of_nat 0) a ≡ true
      → F.le (F.of_nat 0) b ≡ true
      → F.le (F.of_nat 0) (F.add a b) ≡ true
