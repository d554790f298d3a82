-- ===== src/Math/Tests.antt =====
-- Concrete numbers.
use mcsrv.Common.{◌≤◌, ◌≡◌, refl, arith}
use mcsrv.Common.Int.{pos, negsuc, ◌+ℤ◌}
use mcsrv.Math.{clamp, ceil_i64}
use mcsrv.Math.Ceil.{clamp_bounds}

clamp_bounds_example : (2 ≤ clamp 9 2 5) × (clamp 9 2 5 ≤ 5)
clamp_bounds_example = clamp_bounds 9 2 5 (omega arith)

-- The multiple of 4 above -3 is 0.
ceil_i64-negative : ceil_i64 (negsuc 2) (pos 4) ≡ pos 4
unfolding ceil_i64 ◌+ℤ◌
ceil_i64-negative = refl
