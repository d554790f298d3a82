-- ===== src/Math/Ceil.antt =====
-- What the helpers of utils/math.c compute.
use mcsrv.Common.{ℕ, ◌+◌, ◌-◌, ◌*◌, ◌/◌, ◌%◌, ◌^◌, ◌≤◌, ◌<◌, ◌≡◌, arith, min}
use mcsrv.Common.Int.{pos, ◌+ℤ◌}
use mcsrv.Math.{min_u64, ceil_u64, ceil_i64, sub_no_underflow, clamp}
use native.Mathlib.Nat.{div-add-mod, mod-lt}

pub min_u64-eq-min : (a b : ℕ) → min_u64 a b ≡ min a b
unfolding min_u64
min_u64-eq-min a b = ground arith

whole_multiple : (q m : ℕ) → 0 < m → (m * q + m) % m ≡ 0
whole_multiple q m h = grind arith

next_multiple : (a m : ℕ) → 0 < m → a + m - a % m ≡ m * (a / m) + m
next_multiple a m h = omega (arith, div-add-mod a m, mod-lt a h)

next_multiple-mod : (a m : ℕ) → 0 < m → (a + m - a % m) % m ≡ 0
next_multiple-mod a m h = rw (next_multiple a m h) (whole_multiple (a / m) m h)

no_wrap : (x r : ℕ) → r ≤ x → x < 2 ^ 64 → (x + 2 ^ 64 - r) % 2 ^ 64 ≡ x - r
no_wrap x r h k = omega arith

-- Where `a + multiple` does not wrap, `ceil_u64` is the least multiple of `multiple` from `a` on.
pub ceil_u64_bounds :
    (a m : ℕ)
    → 0 < m
    → a + m < 2 ^ 64
    → (a ≤ ceil_u64 a m) × (ceil_u64 a m < a + m) × (ceil_u64 a m % m ≡ 0)
unfolding ceil_u64
ceil_u64_bounds a m h fits =
    ground (arith, next_multiple-mod a m h, mod-lt a h, no_wrap (a + m) (a % m))

-- `clamp` lands in the range.
pub clamp_bounds : (x inf sup : ℕ) → inf ≤ sup → (inf ≤ clamp x inf sup) × (clamp x inf sup ≤ sup)
unfolding clamp
clamp_bounds x inf sup h = ground arith

pub sub_no_underflow-eq : (a b : ℕ) → sub_no_underflow a b ≡ a - b
unfolding sub_no_underflow
sub_no_underflow-eq a b = ground arith

-- For an i64 that is not negative `ceil_i64` is `ceil_u64`.
ceil_i64-pos : (a m : ℕ) → a + m < 2 ^ 63 → ceil_i64 (pos a) (pos m) ≡ pos (ceil_u64 a m)
unfolding ceil_i64 ceil_u64 ◌+ℤ◌
ceil_i64-pos a m fits = ground (arith, mod-lt a)
