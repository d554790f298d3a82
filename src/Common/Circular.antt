-- ===== src/Common/Circular.antt =====
-- A memory area used as a circle: `memcpy` into it, and what stands in it from an index on.
use mcsrv.Common.Tests.{ltb, if◌then◌else◌}
use mcsrv.Common.Lists.{length, get_elem?, take, drop, length-append, length-take, length-drop}
use mcsrv.Common.Slices.{ext, get_elem?-take, get_elem?-drop, get_elem?-append, get_elem?-beyond}
use Prim.Native.Nat.{ℕ, ◌+◌, ◌-◌, ◌%◌, ◌≤◌, ◌<◌}
use mathlib.Core.Path.{◌≡◌}
use mathlib.Core.List.{List, ◌++◌}
use mathlib.Core.Option.{none}
use native.Mathlib.Omega.{arith}
use native.Mathlib.Nat.{mod-eq_of_lt, mod-eq-sub-mod}

module _ {A : Type 0} where
  -- `memcpy(buf + pos, data, n)`, `n` the length of `data`, where it stays inside the area.
  unfoldable pub splice : List A → ℕ → List A → List A
  splice buf pos xs = take pos buf ++ (xs ++ drop (pos + length xs) buf)

  -- The area read from index `h` on, round its end.
  unfoldable pub rotate : ℕ → List A → List A
  rotate h buf = drop h buf ++ take h buf

  pub get_elem?-splice :
      (buf : List A) (pos : ℕ) (xs : List A) (i : ℕ)
      → pos + length xs ≤ length buf
      → get_elem? (splice buf pos xs) i ≡ (
          if ltb i pos
          then get_elem? buf i
          else if ltb i (pos + length xs)
          then get_elem? xs (i - pos)
          else get_elem? buf i)
  unfolding splice
  get_elem?-splice buf pos xs i h = ground (
    arith,
    get_elem?-append (take pos buf) (xs ++ drop (pos + length xs) buf) i,
    get_elem?-append xs (drop (pos + length xs) buf) (i - pos),
    get_elem?-drop (pos + length xs) buf (i - pos - length xs),
    get_elem?-take pos buf i,
    length-take pos buf,
  )

  pub length-splice :
      (buf : List A) (pos : ℕ) (xs : List A)
      → pos + length xs ≤ length buf
      → length (splice buf pos xs) ≡ length buf
  unfolding splice
  length-splice buf pos xs h = omega (
    arith,
    length-append (take pos buf) (xs ++ drop (pos + length xs) buf),
    length-append xs (drop (pos + length xs) buf),
    length-drop (pos + length xs) buf,
    length-take pos buf,
  )

  pub get_elem?-rotate :
      (h : ℕ) (buf : List A) (i : ℕ)
      → h ≤ length buf
      → get_elem? (rotate h buf) i ≡ (
          if ltb (h + i) (length buf)
          then get_elem? buf (h + i)
          else if ltb i (length buf)
          then get_elem? buf (h + i - length buf)
          else none)
  unfolding rotate
  get_elem?-rotate h buf i p = ground (
    arith,
    get_elem?-append (drop h buf) (take h buf) i,
    get_elem?-drop h buf i,
    get_elem?-take h buf (i - length (drop h buf)),
    length-drop h buf,
    get_elem?-beyond buf (h + i),
  )

  pub length-rotate : (h : ℕ) (buf : List A) → h ≤ length buf → length (rotate h buf) ≡ length buf
  unfolding rotate
  length-rotate h buf p =
      omega (arith, length-append (drop h buf) (take h buf), length-drop h buf, length-take h buf)

  -- Data written where a window of `n` elements ends, and not past the end of the area, extend it.
  pub window-splice :
      (buf xs : List A) (h n e : ℕ)
      → h ≤ length buf
      → n + length xs ≤ length buf
      → e + length xs ≤ length buf
      → e ≡ (if ltb (h + n) (length buf) then h + n else h + n - length buf)
      → take (n + length xs) (rotate h (splice buf e xs)) ≡ take n (rotate h buf) ++ xs
  window-splice buf xs h n e hh hn he where_e = ext _ _ λ i. ground (
    arith,
    get_elem?-take (n + length xs) (rotate h (splice buf e xs)) i,
    get_elem?-rotate h (splice buf e xs) i,
    length-splice buf e xs he,
    get_elem?-splice buf e xs (h + i) he,
    get_elem?-splice buf e xs (h + i - length buf) he,
    get_elem?-append (take n (rotate h buf)) xs i,
    get_elem?-take n (rotate h buf) i,
    get_elem?-rotate h buf i,
    length-take n (rotate h buf),
    length-rotate h buf hh,
    get_elem?-beyond xs (i - n),
  )

  -- A window without its first `k` elements starts `k` steps further on.
  pub window-drop :
      (buf : List A) (h n k e : ℕ)
      → h ≤ length buf
      → n ≤ length buf
      → k ≤ n
      → e ≡ (if ltb (h + k) (length buf) then h + k else h + k - length buf)
      → take (n - k) (rotate e buf) ≡ drop k (take n (rotate h buf))
  window-drop buf h n k e hh hn hk where_e = ext _ _ λ i. ground (
    arith,
    get_elem?-take (n - k) (rotate e buf) i,
    get_elem?-rotate e buf i,
    get_elem?-drop k (take n (rotate h buf)) i,
    get_elem?-take n (rotate h buf) (k + i),
    get_elem?-rotate h buf (k + i),
    get_elem?-beyond buf (h + (k + i)),
  )

  -- What stands from `h` on, up to the end of the area, is the front of the window.
  pub window-front :
      (buf : List A) (h n k : ℕ)
      → k ≤ n
      → h + k ≤ length buf
      → take k (take n (rotate h buf)) ≡ take k (drop h buf)
  window-front buf h n k hk hh = ext _ _ λ i. ground (
    arith,
    get_elem?-take k (take n (rotate h buf)) i,
    get_elem?-take n (rotate h buf) i,
    get_elem?-rotate h buf i,
    get_elem?-take k (drop h buf) i,
    get_elem?-drop h buf i,
  )

-- An index that moves on by at most the capacity, modulo the capacity.
pub add-mod-wrap :
    (h k c : ℕ) → h < c → k ≤ c → (h + k) % c ≡ (if ltb (h + k) c then h + k else h + k - c)
add-mod-wrap h k c hh hk = ground (
  arith,
  mod-eq_of_lt {n = h + k} {m = c},
  mod-eq-sub-mod {n = h + k} {m = c},
  mod-eq_of_lt {n = h + k - c} {m = c},
)

module _ {A : Type 0} where
  rotate-splice :
      (buf xs : List A) (e : ℕ)
      → e + length xs ≤ length buf
      → rotate e (splice buf e xs) ≡ splice (rotate e buf) 0 xs
  rotate-splice buf xs e h = ext _ _ λ i. ground (
    arith,
    get_elem?-rotate e (splice buf e xs) i,
    length-splice buf e xs,
    get_elem?-splice buf e xs (e + i),
    get_elem?-splice buf e xs (e + i - length buf),
    get_elem?-splice (rotate e buf) 0 xs i,
    length-rotate e buf,
    get_elem?-rotate e buf i,
  )

  take-splice_front :
      (buf xs : List A) (n : ℕ)
      → n + length xs ≤ length buf
      → take (n + length xs) (splice buf 0 xs) ≡ xs ++ drop (length xs) (take (n + length xs) buf)
  take-splice_front buf xs n h = ext _ _ λ i. ground (
    arith,
    get_elem?-take (n + length xs) (splice buf 0 xs) i,
    get_elem?-splice buf 0 xs i,
    get_elem?-append xs (drop (length xs) (take (n + length xs) buf)) i,
    get_elem?-drop (length xs) (take (n + length xs) buf) (i - length xs),
    get_elem?-take (n + length xs) buf (length xs + (i - length xs)),
  )

  -- Data written just before a window stand in front of it.
  pub window-prepend :
      (buf xs : List A) (r n e : ℕ)
      → e + length xs ≤ length buf
      → n + length xs ≤ length buf
      → r ≡ (if ltb (e + length xs) (length buf) then e + length xs else e + length xs - length buf)
      → take (n + length xs) (rotate e (splice buf e xs)) ≡ xs ++ take n (rotate r buf)
  window-prepend buf xs r n e he hn hr = ground (
    arith,
    rotate-splice buf xs e he,
    take-splice_front (rotate e buf) xs n,
    length-rotate e buf,
    window-drop buf e (n + length xs) (length xs) r,
  )

  pub splice-splice :
      (buf xs ys : List A) (e : ℕ)
      → length ys ≤ e
      → e + length xs ≤ length buf
      → splice (splice buf e xs) 0 ys ≡ splice (splice buf 0 ys) e xs
  splice-splice buf xs ys e hy hx = ext _ _ λ i. ground (
    arith,
    get_elem?-splice (splice buf e xs) 0 ys i,
    get_elem?-splice buf e xs i,
    length-splice buf e xs,
    get_elem?-splice (splice buf 0 ys) e xs i,
    get_elem?-splice buf 0 ys i,
    length-splice buf 0 ys,
  )
