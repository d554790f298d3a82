-- ===== src/ByteBuffer/Fixed.antt =====
-- A fixed buffer as a circle: its invariant, its contents, and what the rounds of a write do.
use mcsrv.Common.{
  ℕ, zero, suc, ◌+◌, ◌-◌, ◌^◌, ◌≤◌, ◌<◌, ◌≡◌, refl, min, List, [], ◌∷◌, ltb, if◌then◌else◌, length,
  take, splice, rotate, rem, arith, length-take, length-splice, ext, get_elem?-splice, memcpy-ok,
  add-mod-wrap,
}
use mcsrv.Common.Int.{pos}
use mcsrv.Common.Outcome.{ok}
use mcsrv.ByteBuffer.Defs.{ByteBuffer, write_rounds}

-- `r` is the read head.
pub record IsFixed (b : ByteBuffer) (r : ℕ) : Type 0 where
  pub read_at : b.read_head ≡ pos r
  pub write_at :
      b.write_head
      ≡ pos (if ltb (r + b.size) b.capacity then r + b.size else r + b.size - b.capacity)
  pub area : length b.buf ≡ b.capacity
  pub small : b.capacity < 2 ^ 62
  pub read_in : r < b.capacity
  pub size_in : b.size ≤ b.capacity

-- The bytes held, oldest first.
abbrev pub contents : ByteBuffer → ℕ → List ℕ
contents b r = take b.size (rotate r b.buf)

pub take_all {ℓ} : {A : Type ℓ} (xs : List A) → take (length xs) xs ≡ xs
take_all [] = refl
take_all (x ∷ xs) = rw (take_all xs)

splice-nil : (buf : List ℕ) (at : ℕ) → at ≤ length buf → splice buf at [] ≡ buf
splice-nil buf at h = ext _ _ λ i. ground (arith, get_elem?-splice buf at [] i)

module _ (size : ℕ) (small : size < 2 ^ 62) where
  round :
      (fuel : ℕ) (buf xs : List ℕ) (at m k : ℕ)
      → length buf ≡ size
      → at < size
      → suc m ≤ length xs
      → suc m ≤ size
      → k ≡ min (suc m) (size - at)
      → write_rounds (suc fuel) buf size xs at (suc m)
        ≡ write_rounds fuel
            (splice buf at (take k xs))
            size
            xs
            (if ltb (at + k) size then at + k else at + k - size)
            (suc m - k)
  unfolding write_rounds rem
  round fuel buf xs at m k area h enough fits e =
      ground (arith, memcpy-ok buf at (take k xs), length-take k xs, add-mod-wrap at k size)

  -- Data that fit between the position and the end of the area take one round at most.
  pub write_rounds_fit :
      (fuel : ℕ) (buf xs : List ℕ) (at n : ℕ)
      → length buf ≡ size
      → at < size
      → n ≤ length xs
      → at + n ≤ size
      → write_rounds (suc fuel) buf size xs at n ≡ ok (splice buf at (take n xs))
  unfolding write_rounds
  write_rounds_fit fuel buf xs at zero area h enough fits = rw (splice-nil buf at (omega arith))
  write_rounds_fit zero buf xs at (suc m) area h enough fits =
      ground (arith, round zero buf xs at m (suc m))
  write_rounds_fit (suc fuel) buf xs at (suc m) area h enough fits =
      ground (arith, round (suc fuel) buf xs at m (suc m))

  -- Data that reach past the end take a second round, from the data's first byte again.
  pub write_rounds_wrap :
      (fuel : ℕ) (buf xs : List ℕ) (at n : ℕ)
      → length buf ≡ size
      → at < size
      → n ≤ length xs
      → size < at + n
      → n ≤ size
      → write_rounds (suc (suc fuel)) buf size xs at n
        ≡ ok (splice (splice buf at (take (size - at) xs)) 0 (take (n - (size - at)) xs))
  write_rounds_wrap fuel buf xs at zero area h enough past fits = absurd (omega arith)
  write_rounds_wrap fuel buf xs at (suc m) area h enough past fits = ground (
    arith,
    round (suc fuel) buf xs at m (size - at),
    write_rounds_fit fuel (splice buf at (take (size - at) xs)) xs 0 (suc m - (size - at)),
    length-splice buf at (take (size - at) xs),
    length-take (size - at) xs,
  )
