-- ===== src/Common/Memory.antt =====
-- `memcpy` between areas: an access outside an area is a fault.
use mcsrv.Common.Tests.{leb, ◌==◌, if◌then◌else◌}
use mcsrv.Common.Lists.{length, take, drop, length-take, length-drop}
use mcsrv.Common.Circular.{splice}
use mcsrv.Common.Outcome.{Outcome, ok, fault}
use Prim.Native.Nat.{ℕ, ◌+◌, ◌%◌, ◌≤◌}
use mathlib.Core.Path.{◌≡◌}
use mathlib.Core.List.{List}
use native.Mathlib.Omega.{arith}

module _ {A : Type 0} where
  unfoldable pub memcpy : List A → ℕ → List A → Outcome (List A)
  memcpy buf pos xs = if leb (pos + length xs) (length buf) then ok (splice buf pos xs) else fault

  -- The `n` elements from index `pos` on.
  unfoldable pub load : List A → ℕ → ℕ → Outcome (List A)
  load buf pos n = if leb (pos + n) (length buf) then ok (take n (drop pos buf)) else fault

  pub memcpy-ok :
      (buf : List A) (pos : ℕ) (xs : List A)
      → pos + length xs ≤ length buf
      → memcpy buf pos xs ≡ ok (splice buf pos xs)
  unfolding memcpy
  memcpy-ok buf pos xs h = ground arith

  pub load-ok :
      (buf : List A) (pos n : ℕ)
      → pos + n ≤ length buf
      → load buf pos n ≡ ok (take n (drop pos buf))
  unfolding load
  load-ok buf pos n h = ground arith

  pub length-take-drop :
      (buf : List A) (pos n : ℕ) → pos + n ≤ length buf → length (take n (drop pos buf)) ≡ n
  length-take-drop buf pos n h = omega (arith, length-take n (drop pos buf), length-drop pos buf)

-- `a % b` on u64; a division by 0 is a fault.
unfoldable pub rem : ℕ → ℕ → Outcome ℕ
rem a b = if b == 0 then fault else ok (a % b)
