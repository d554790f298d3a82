-- ===== src/ByteBuffer/Write.antt =====
-- What `bytebuf_write` leaves in a fixed buffer.
use mcsrv.Common.{
  ℕ, suc, ◌+◌, ◌-◌, ◌^◌, ◌≤◌, ◌<◌, ◌≡◌, refl, true, List, ◌++◌, ltb, leb, if◌then◌else◌, length,
  take, splice, rotate, rem, arith, length-take, length-splice, add-mod-wrap, window-splice,
  append_assoc, Bool-cases, inl, inr,
}
use mcsrv.Common.Int.{pos, ◌+ℤ◌, ◌-ℤ◌, add64}
use mcsrv.Common.Outcome.{ok, abort}
use mcsrv.ByteBuffer.Defs.{
  ByteBuffer, Heap, is_negative, is_fixed, write_rounds, write_at_position, ensure_capacity,
  bytebuf_write, bytebuf_register_write,
}
use mcsrv.ByteBuffer.Fixed.{IsFixed, contents, take_all, write_rounds_fit, write_rounds_wrap}

-- The write head as an index.
abbrev pub head_index : ByteBuffer → ℕ → ℕ
head_index b r = if ltb (r + b.size) b.capacity then r + b.size else r + b.size - b.capacity

-- The bytes that one `write_at_position` puts behind each other: the data up to the end of the
-- area, and then as many bytes of the data's front as are left to write.
abbrev pub stored : ℕ → List ℕ → List ℕ
stored room xs = if leb (length xs) room then xs else take room xs ++ take (length xs - room) xs

pub stored_whole : (room : ℕ) (xs : List ℕ) → length xs ≤ room → stored room xs ≡ xs
stored_whole room xs h = ground arith

abbrev pub area_after : List ℕ → ℕ → ℕ → List ℕ → List ℕ
area_after buf size at xs =
    if leb (length xs) (size - at)
    then splice buf at xs
    else splice (splice buf at (take (size - at) xs)) 0 (take (length xs - (size - at)) xs)

write_rounds_lem :
    (buf xs : List ℕ) (size at : ℕ)
    → length buf ≡ size
    → size < 2 ^ 62
    → at < size
    → length xs ≤ size
    → write_rounds (length xs + 2) buf size xs at (length xs) ≡ ok (area_after buf size at xs)
write_rounds_lem buf xs size at area small h fits =
    let two : length xs + 2 ≡ suc (suc (length xs)) = omega arith in
    rw two (
      ground (
        arith,
        write_rounds_fit size small (suc (length xs)) buf xs at (length xs),
        write_rounds_wrap size small (length xs) buf xs at (length xs),
        take_all xs,
      ))

window_after :
    (buf xs : List ℕ) (size r n at : ℕ)
    → length buf ≡ size
    → r < size
    → n + length xs ≤ size
    → at ≡ (if ltb (r + n) size then r + n else r + n - size)
    → take (n + length xs) (rotate r (area_after buf size at xs))
      ≡ take n (rotate r buf) ++ stored (size - at) xs
window_after buf xs size r n at area hr hn e = elim (Bool-cases (leb (length xs) (size - at))) [
  | inl fits ↦ rw fits (ground (arith, window-splice buf xs r n at))
  | inr past ↦ rw past (
      ground (
        arith,
        window-splice buf front r n at,
        window-splice (splice buf at front) back r (n + (size - at)) 0,
        length-splice buf at front,
        length-take (size - at) xs,
        length-take (length xs - (size - at)) xs,
        append_assoc (take n (rotate r buf)) front back,
      ))
]
  where
    front : List ℕ
    front = take (size - at) xs

    back : List ℕ
    back = take (length xs - (size - at)) xs

pub length-area_after :
    (buf xs : List ℕ) (size at : ℕ)
    → length buf ≡ size
    → at < size
    → length xs ≤ size
    → length (area_after buf size at xs) ≡ size
length-area_after buf xs size at area h fits = ground (
  arith,
  length-splice buf at xs,
  length-splice buf at (take (size - at) xs),
  length-splice (splice buf at (take (size - at) xs)) 0 (take (length xs - (size - at)) xs),
  length-take (size - at) xs,
  length-take (length xs - (size - at)) xs,
)

pub is_fixed-IsFixed : (b : ByteBuffer) (r : ℕ) → IsFixed b r → is_fixed b ≡ true
unfolding is_fixed is_negative
is_fixed-IsFixed b r v = rw (v.read_at, v.write_at)

pub at_position-fixed :
    (b : ByteBuffer) (at : ℕ) (xs : List ℕ)
    → is_fixed b ≡ true
    → length b.buf ≡ b.capacity
    → b.capacity < 2 ^ 62
    → at < b.capacity
    → length xs ≤ b.capacity
    → write_at_position b xs (pos at) (length xs)
      ≡ ok (record b { buf = area_after b.buf b.capacity at xs })
unfolding write_at_position is_negative ◌-ℤ◌ ◌+ℤ◌
at_position-fixed b at xs f area small h fits =
    ground (arith, write_rounds_lem b.buf xs b.capacity at)

module _ (heap : Heap) where
  abbrev written : ByteBuffer → ℕ → List ℕ → ByteBuffer
  written b r xs = record b {
    buf = area_after b.buf b.capacity (head_index b r) xs;
    write_head = pos (head_index (record b { size = b.size + length xs }) r);
    size = b.size + length xs;
  }

  pub ensure-fixed :
      (b : ByteBuffer) (r n : ℕ)
      → IsFixed b r
      → ensure_capacity heap b n ≡ (if leb n b.capacity then ok b else abort)
  unfolding ensure_capacity
  ensure-fixed b r n v = ground (arith, is_fixed-IsFixed b r v)

  register-fixed :
      (b : ByteBuffer) (r n : ℕ)
      → IsFixed b r
      → b.size + n ≤ b.capacity
      → bytebuf_register_write heap b n
        ≡ ok (
          record b {
            write_head = pos (head_index (record b { size = b.size + n }) r);
            size = b.size + n;
          },
          n,
        )
  unfolding bytebuf_register_write rem
  register-fixed b r n v fits = ground (
    arith,
    ensure-fixed b r (add64 b.size n) v,
    is_fixed-IsFixed b r v,
    add-mod-wrap (head_index b r) n b.capacity,
  )

  write-written :
      (b : ByteBuffer) (r : ℕ) (xs : List ℕ)
      → IsFixed b r
      → b.size + length xs ≤ b.capacity
      → bytebuf_write heap b xs ≡ ok (written b r xs)
  unfolding bytebuf_write
  write-written b r xs v fits = ground (
    arith,
    ensure-fixed b r (add64 b.size (length xs)) v,
    at_position-fixed b (head_index b r) xs,
    is_fixed-IsFixed b r v,
    is_fixed-IsFixed _ r v',
    register-fixed (record b { buf = area_after b.buf b.capacity (head_index b r) xs }) r
        (length xs) v',
  )
    where
      v' : IsFixed (record b { buf = area_after b.buf b.capacity (head_index b r) xs }) r
      v' = ground (arith, length-area_after b.buf xs b.capacity (head_index b r))

  written-IsFixed :
      (b : ByteBuffer) (r : ℕ) (xs : List ℕ)
      → IsFixed b r
      → b.size + length xs ≤ b.capacity
      → IsFixed (written b r xs) r
  written-IsFixed b r xs v fits =
      ground (arith, length-area_after b.buf xs b.capacity (head_index b r))

  -- A write of at most the available bytes into a fixed buffer succeeds, keeps the invariant and
  -- the read head, and appends the data, of which those that reach past the end of the memory
  -- area are replaced by as many bytes of the data's front.
  pub bytebuf_write-IsFixed :
      (b : ByteBuffer) (r : ℕ) (xs : List ℕ)
      → IsFixed b r
      → b.size + length xs ≤ b.capacity
      → (b' : ByteBuffer) × (bytebuf_write heap b xs ≡ ok b')
        × IsFixed b' r
        × (contents b' r ≡ contents b r ++ stored (b.capacity - head_index b r) xs)
        × (b'.size ≡ b.size + length xs)
        × (b'.capacity ≡ b.capacity)
  bytebuf_write-IsFixed b r xs v fits = (
    written b r xs,
    write-written b r xs v fits,
    written-IsFixed b r xs v fits,
    window_after b.buf xs b.capacity r b.size (head_index b r) v.area v.read_in fits refl,
    refl,
    refl,
  )

  -- A write of more than the available bytes into a fixed buffer aborts.
  bytebuf_write-abort :
      (b : ByteBuffer) (r : ℕ) (xs : List ℕ)
      → IsFixed b r
      → b.capacity < b.size + length xs
      → length xs < 2 ^ 62
      → bytebuf_write heap b xs ≡ abort
  unfolding bytebuf_write
  bytebuf_write-abort b r xs v over small =
      ground (arith, ensure-fixed b r (add64 b.size (length xs)) v)
