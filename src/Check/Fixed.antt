-- ===== src/Check/Fixed.antt =====
-- A concrete float64 for tests and witnesses: thousandths of a natural number, and infinity.
use purser.Prelude.{
  ℕ, zero, suc, ◌+◌, ◌-◌, ◌*◌, ◌/◌, ◌^◌, ◌≤◌, ◌≡◌, refl, Bool, true, false, ltb, leb, arith,
  if◌then◌else◌, inl, inr, ◌⊎◌, ◌&&◌,
}
use native.Mathlib.Nat.{
  le_trans, div-zero, div-mul-le_self, le-div_iff_mul-le, mul-le-mul_left, mul-le-mul_right,
}
use purser.Planner.Float.{Float64, OrderLaws, GrowthLaws}

pub data Fixed : Type 0 where
  milli : ℕ → Fixed
  infinite : Fixed

abbrev fixed_lt : Fixed → Fixed → Bool
fixed_lt (milli a) (milli b) = ltb a b
fixed_lt (milli a) infinite = true
fixed_lt infinite _ = false

abbrev fixed_le : Fixed → Fixed → Bool
fixed_le (milli a) (milli b) = leb a b
fixed_le (milli a) infinite = true
fixed_le infinite (milli b) = false
fixed_le infinite infinite = true

abbrev fixed_max : Fixed → Fixed → Fixed
fixed_max a b = if fixed_lt a b then b else a

abbrev fixed_min : Fixed → Fixed → Fixed
fixed_min a b = if fixed_lt b a then b else a

abbrev lift : (ℕ → ℕ → ℕ) → Fixed → Fixed → Fixed
lift f (milli a) (milli b) = milli (f a b)
lift f (milli a) infinite = infinite
lift f infinite b = infinite

abbrev fixed_is_inf : Fixed → Bool
fixed_is_inf (milli a) = false
fixed_is_inf infinite = true

abbrev pub fixed : Float64
fixed = record {
  T = Fixed;
  of_nat = λ n. milli (n * 1000);
  decimal = λ n k. milli (n * 1000 / 10 ^ k);
  add = lift (λ a b. a + b);
  sub = lift (λ a b. a - b);
  mul = lift (λ a b. a * b / 1000);
  div = lift (λ a b. a * 1000 / b);
  lt = fixed_lt;
  le = fixed_le;
  max_of = fixed_max;
  min_of = fixed_min;
  inf = infinite;
  is_inf = fixed_is_inf;
}

abbrev F : Float64
F = fixed

lt_trans : (x y z : Fixed) → fixed_lt x y ≡ true → fixed_lt y z ≡ true → fixed_lt x z ≡ true
lt_trans (milli a) (milli b) (milli c) h k = ground arith
lt_trans (milli a) (milli b) infinite h k = refl
lt_trans (milli a) infinite z h k = ground arith
lt_trans infinite y z h k = ground arith

lt_irrefl : (x : Fixed) → fixed_lt x x ≡ false
lt_irrefl (milli a) = ground arith
lt_irrefl infinite = refl

lt_of_not_lt :
    (x y z : Fixed)
    → fixed_lt y infinite ≡ true
    → fixed_lt x z ≡ true
    → fixed_lt x y ≡ false
    → fixed_lt y z ≡ true
lt_of_not_lt (milli a) (milli b) (milli c) f h k = ground arith
lt_of_not_lt (milli a) (milli b) infinite f h k = refl
lt_of_not_lt (milli a) infinite z f h k = ground arith
lt_of_not_lt infinite y z f h k = ground arith

eq_inf : (x : Fixed) → fixed_is_inf x ≡ true → x ≡ infinite
eq_inf (milli a) h = ground arith
eq_inf infinite h = refl

max_lt : (x y z : Fixed) → fixed_lt (fixed_max x y) z ≡ (fixed_lt x z && fixed_lt y z)
max_lt (milli a) (milli b) (milli c) = ground arith
max_lt (milli a) (milli b) infinite = ground arith
max_lt (milli a) infinite (milli c) = ground arith
max_lt (milli a) infinite infinite = refl
max_lt infinite (milli b) z = refl
max_lt infinite infinite z = refl

lt_max :
    (x y z : Fixed)
    → fixed_lt x (fixed_max y z) ≡ true
    → (fixed_lt x y ≡ true) ⊎ (fixed_lt x z ≡ true)
lt_max x (milli b) (milli c) h = ground arith
lt_max x (milli b) infinite h = inr h
lt_max x infinite z h = inl h

pub fixed_order : OrderLaws fixed
fixed_order = record {
  lt_trans = lt_trans;
  lt_irrefl = lt_irrefl;
  lt_of_not_lt = lt_of_not_lt;
  inf_top = λ x. refl;
  zero_lt_inf = refl;
  eq_inf = eq_inf;
  is_inf_inf = refl;
  max_lt = max_lt;
  lt_max = lt_max;
}

milli_le : (a b : ℕ) → a ≤ b → fixed_le (milli a) (milli b) ≡ true
milli_le a b h = ground arith

milli_le_inv : (a b : ℕ) → fixed_le (milli a) (milli b) ≡ true → a ≤ b
milli_le_inv a b h = ground arith

nat_div_mono : (a b n : ℕ) → a ≤ b → a / n ≤ b / n
nat_div_mono a b zero h = rw (div-zero a, div-zero b) (omega arith)
nat_div_mono a b (suc n) h =
    (le-div_iff_mul-le {k = suc n} (omega arith)).1 (le_trans (div-mul-le_self a (suc n)) h)

nonneg : (x : Fixed) → fixed_le (milli 0) x ≡ true
nonneg (milli a) = ground arith
nonneg infinite = refl

le_trans_fixed : (x y z : Fixed) → fixed_le x y ≡ true → fixed_le y z ≡ true → fixed_le x z ≡ true
le_trans_fixed (milli a) (milli b) (milli c) h k = ground arith
le_trans_fixed (milli a) (milli b) infinite h k = refl
le_trans_fixed (milli a) infinite (milli c) h k = ground arith
le_trans_fixed (milli a) infinite infinite h k = refl
le_trans_fixed infinite (milli b) z h k = ground arith
le_trans_fixed infinite infinite z h k = k

mul_mono :
    (x a b : Fixed)
    → fixed_lt x infinite ≡ true
    → fixed_le a b ≡ true
    → fixed_lt b infinite ≡ true
    → fixed_le (F.mul x a) (F.mul x b) ≡ true
mul_mono (milli x) (milli a) (milli b) f h g =
    milli_le _ _ (nat_div_mono (x * a) (x * b) 1000 (mul-le-mul_left x (milli_le_inv a b h)))
mul_mono (milli x) infinite (milli b) f h g = ground arith
mul_mono (milli x) a infinite f h g = ground arith
mul_mono infinite a b f h g = ground arith

div_mono :
    (a b : Fixed) (n : ℕ)
    → fixed_le a b ≡ true
    → fixed_le (F.div a (F.of_nat n)) (F.div b (F.of_nat n)) ≡ true
div_mono (milli a) (milli b) n h =
    milli_le _ _
      (nat_div_mono (a * 1000) (b * 1000) (n * 1000) (mul-le-mul_right 1000 (milli_le_inv a b h)))
div_mono (milli a) infinite n h = refl
div_mono infinite (milli b) n h = ground arith
div_mono infinite infinite n h = refl

div_finite :
    (a : Fixed) (n : ℕ)
    → fixed_lt a infinite ≡ true
    → fixed_lt (F.div a (F.of_nat n)) infinite ≡ true
div_finite (milli a) n h = refl
div_finite infinite n h = ground arith

add_mono :
    (a b c d : Fixed)
    → fixed_le a b ≡ true
    → fixed_le c d ≡ true
    → fixed_le (F.add a c) (F.add b d) ≡ true
add_mono (milli a) (milli b) (milli c) (milli d) h k = ground arith
add_mono (milli a) (milli b) (milli c) infinite h k = refl
add_mono (milli a) (milli b) infinite (milli d) h k = ground arith
add_mono (milli a) (milli b) infinite infinite h k = refl
add_mono (milli a) infinite (milli c) d h k = refl
add_mono (milli a) infinite infinite d h k = refl
add_mono infinite (milli b) c d h k = ground arith
add_mono infinite infinite c d h k = refl

pub fixed_growth : GrowthLaws fixed
fixed_growth = record {
  le_trans = le_trans_fixed;
  of_nat_mono = λ m n h. milli_le _ _ (mul-le-mul_right 1000 h);
  of_nat_finite = λ n h. refl;
  mul_mono = λ x a b _ f _ h g. mul_mono x a b f h g;
  mul_nonneg = λ x a _ _ _ _. nonneg (F.mul x a);
  div_mono = λ a b n _ _ h. div_mono a b n h;
  div_nonneg = λ a n _ _ _. nonneg (F.div a (F.of_nat n));
  div_finite = λ a n _ _ h. div_finite a n h;
  add_mono = λ a b c d _ _ h k. add_mono a b c d h k;
  add_nonneg = λ a b _ _. nonneg (F.add a b);
}
