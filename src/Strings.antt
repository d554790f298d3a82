-- ===== src/Strings.antt =====
-- utils/string.c: strings as an area of bytes, with their length and a NUL behind it. The arenas are
-- taken to be large enough, and an area from arena_allocate holds `junk`.
pub mod Copies
mod Tests
use mcsrv.Common.{
  ℕ, zero, suc, ◌+◌, ◌-◌, ◌*◌, ◌/◌, ◌%◌, ◌^◌, Bool, true, false, List, [], ◌∷◌, ◌++◌, Option, none,
  some, ◌==◌, ltb, if◌then◌else◌, length, replicate, memcpy, load, take,
}
use mcsrv.Common.Int.{ℤ, pos, negsuc, sub64}
use mcsrv.Common.Outcome.{Outcome, ok, fault, ◌>>=◌}
use mcsrv.Math.{min_u64}
use mcsrv.Dict.{default_hash}
use mcsrv.Nbt.{to_signed}

-- `string`
pub record Str : Type 0 where
  pub base : List ℕ
  pub length : ℕ

-- C's strlen: the bytes in front of the first NUL; without one it leaves the area.
unfoldable pub strlen : List ℕ → Outcome ℕ
strlen [] = fault
strlen (c ∷ cstr) = if c == 0 then ok 0 else do n ← strlen cstr; ok (suc n)

-- C's memcmp on areas of the same length: only the sign of its result is said.
unfoldable pub memcmp : List ℕ → List ℕ → ℤ
memcmp [] ys = pos 0
memcmp (x ∷ xs) [] = pos 0
memcmp (x ∷ xs) (y ∷ ys) = if ltb x y then negsuc 0 else if ltb y x then pos 1 else memcmp xs ys

-- C's memset with 0.
unfoldable pub clear : List ℕ → ℕ → ℕ → Outcome (List ℕ)
clear area at n = memcpy area at (replicate n 0)

unfoldable pub str_alloc : ℕ → Str
str_alloc n = record { base = replicate (n + 1) 0; length = n }

module _ (junk : ℕ) where
  unfoldable pub str_create : List ℕ → Outcome Str
  str_create cstr = do
    len ← strlen cstr
    xs ← load cstr 0 len
    base ← memcpy (replicate (len + 1) junk) 0 xs
    ended ← memcpy base len (0 ∷ [])
    ok (record { base = ended; length = len })

-- `none` is NULL, of which the area is empty.
unfoldable pub str_create_view : Option (List ℕ) → Outcome Str
str_create_view none = ok (record { base = []; length = 0 })
str_create_view (some cstr) = do len ← strlen cstr; ok (record { base = cstr; length = len })

unfoldable pub str_copy : Str → Str → Outcome Str
str_copy dst src = do
  let len = min_u64 src.length dst.length
  xs ← load src.base 0 len
  base ← memcpy dst.base 0 xs
  ended ← clear base len (dst.length - len + 1)
  ok (record dst { base = ended })

unfoldable pub str_create_copy : Str → Outcome Str
str_create_copy str = str_copy (str_alloc str.length) str

unfoldable pub str_create_from_buffer : List ℕ → ℕ → Outcome Str
str_create_from_buffer buf n = do
  xs ← load buf 0 n
  base ← memcpy (str_alloc n).base 0 xs
  ended ← memcpy base n (0 ∷ [])
  ok (record { base = ended; length = n })

unfoldable pub str_copy_substring : Str → ℕ → ℕ → Outcome Str
str_copy_substring str begin end = do
  xs ← load str.base begin (sub64 end begin)
  base ← memcpy (str_alloc (sub64 end begin)).base 0 xs
  ended ← memcpy base (sub64 end begin) (0 ∷ [])
  ok (record { base = ended; length = sub64 end begin })

-- C's memccpy up to a NUL: what is copied of at most `n` bytes.
unfoldable pub up_to_nul : List ℕ → ℕ → Outcome (List ℕ)
up_to_nul cstr zero = ok []
up_to_nul [] (suc n) = fault
up_to_nul (c ∷ cstr) (suc n) = if c == 0 then ok (0 ∷ []) else do xs ← up_to_nul cstr n; ok (c ∷ xs)

unfoldable pub str_set : Str → List ℕ → Outcome Str
str_set str cstr = do
  xs ← up_to_nul cstr str.length
  base ← memcpy str.base 0 xs
  ended ← clear base (mcsrv.Common.length xs) (str.length - mcsrv.Common.length xs + 1)
  ok (record str { base = ended })

-- The lengths are cut to 32 bits.
unfoldable pub str_concat : Str → Str → Outcome Str
str_concat lhs rhs = do
  let llen = lhs.length % 2 ^ 32
  let rlen = rhs.length % 2 ^ 32
  let res = str_alloc ((llen + rlen) % 2 ^ 32)
  xs ← load lhs.base 0 llen
  base ← memcpy res.base 0 xs
  ys ← load rhs.base 0 rlen
  joined ← memcpy base llen ys
  ok (record res { base = joined })

abbrev pub str_printable_buffer : Str → List ℕ
str_printable_buffer str = str.base

unfoldable pub str_hash : Str → Outcome ℕ
str_hash str = do xs ← load str.base 0 str.length; ok (default_hash xs)

-- `none` is NULL. A string and itself have the same bytes, so that the pointers need no comparison.
unfoldable pub str_compare : Option Str → Option Str → Outcome ℤ
str_compare none none = ok (pos 0)
str_compare none (some rhs) = ok (negsuc 0)
str_compare (some lhs) none = ok (negsuc 0)
str_compare (some lhs) (some rhs) =
    if lhs.length == rhs.length
    then (do xs ← load lhs.base 0 lhs.length; ys ← load rhs.base 0 rhs.length; ok (memcmp xs ys))
    else ok (to_signed 32 (sub64 lhs.length rhs.length))
