-- ===== src/Math.antt =====
-- The helpers of utils/math.c, and `ceil_two_pow` of utils/bitwise.c.
pub mod Ceil
mod Tests
use mcsrv.Common.{ℕ, zero, suc, ◌+◌, ◌-◌, ◌%◌, ◌^◌, ltb, ◌==◌, if◌then◌else◌}
use mcsrv.Common.Int.{ℤ, pos, negsuc, pos_part, ◌+ℤ◌, to_u64, to_i64, sub64}

-- The modulus of u64 arithmetic.
abbrev pub u64_mod : ℕ
u64_mod = 2 ^ 64

unfoldable pub min_u64 : ℕ → ℕ → ℕ
min_u64 a b = if ltb b a then b else a

-- `a + multiple - remainder`, which wraps at 2^64.
unfoldable pub ceil_u64 : ℕ → ℕ → ℕ
ceil_u64 a multiple =
    if multiple == 0
    then a
    else if a % multiple == 0
    then a
    else (a + multiple + u64_mod - a % multiple) % u64_mod

unfoldable pub sub_no_underflow : ℕ → ℕ → ℕ
sub_no_underflow a b = if ltb a b then 0 else a - b

unfoldable pub clamp : ℕ → ℕ → ℕ → ℕ
clamp x inf sup = if ltb x inf then inf else if ltb sup x then sup else x

abbrev pub abs_i64 : ℤ → ℤ
abs_i64 (pos n) = pos n
abs_i64 (negsuc n) = pos (suc n)

-- C's `a % multiple` for a `multiple` above 0: it has the sign of `a`.
abbrev pub signed_rem : ℤ → ℕ → ℤ
signed_rem (pos n) multiple = pos (n % multiple)
signed_rem (negsuc n) multiple =
    if suc n % multiple == 0 then pos 0 else negsuc (suc n % multiple - 1)

-- The remainder is a u64, with which the sum is taken as a u64 too.
unfoldable pub ceil_i64 : ℤ → ℤ → ℤ
ceil_i64 a multiple =
    let m = pos_part (abs_i64 multiple) in
    let remainder = to_u64 (signed_rem a m) in
    if m == 0
    then a
    else if remainder == 0
    then a
    else to_i64 (sub64 (to_u64 (a +ℤ pos m)) remainder)
