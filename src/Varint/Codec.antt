-- ===== src/Varint/Codec.antt =====
-- What `encode_varint` writes, and where it stops being an encoding.
use mcsrv.Common.{
  ℕ, zero, suc, ◌+◌, ◌/◌, ◌^◌, ◌≤◌, ◌<◌, ◌≡◌, refl, ◌∙◌, ap, true, ltb, if◌then◌else◌, length,
  arith, ◌⊎◌, [], ◌∷◌, ◌++◌, length-append,
}
use mcsrv.Common.Int.{ℤ, pos, negsuc}
use mcsrv.Common.Outcome.{fault}
use mcsrv.ByteBuffer.{ByteBuffer, Heap}
use mcsrv.ByteBuffer.Fixed.{IsFixed}
use mcsrv.ByteBuffer.Write.{is_fixed-IsFixed, bytebuf_write-IsFixed, head_index}
use mcsrv.ByteBuffer.Back.{bytebuf_prepend-IsFixed}
use mcsrv.Varint.{
  in_one_copy, encode_rounds, encode_varint, varint_length, bytebuf_write_varint,
  bytebuf_prepend_varint,
}

-- The integers that need more than four groups of seven bits.
abbrev pub IsWide : ℤ → Type 0
IsWide (pos n) = 2 ^ 28 ≤ n
IsWide (negsuc n) = Unit

pub length-encode_rounds :
    (left w i : ℕ)
    → w < 128 ^ suc left
    → (length (encode_rounds (suc left) (pos w) i).0 + i ≡ (encode_rounds (suc left) (pos w) i).1)
      × ((encode_rounds (suc left) (pos w) i).1 ≤ suc left + i)
unfolding encode_rounds
length-encode_rounds zero w i h = ground arith
length-encode_rounds (suc left) w i h =
    ground (arith, length-encode_rounds left (w / 128) (i + 1) (omega arith))

-- A number below 2^28 is written in one to four bytes, and their number is returned.
pub encode_varint-length :
    (n : ℕ)
    → n < 2 ^ 28
    → (length (encode_varint (pos n)).0 ≡ (encode_varint (pos n)).1)
      × ((encode_varint (pos n)).1 ≤ 4)
unfolding encode_varint
encode_varint-length n h = omega (arith, length-encode_rounds 3 n 0 (omega arith))

pub encode_varint-pos : (n : ℕ) → 0 < (encode_varint (pos n)).1
unfolding encode_varint
encode_varint-pos n = ground arith

-- Any other integer fills the array of four bytes, and the count returned is 5.
pub encode_varint-wide :
    (n : ℤ) → IsWide n → (length (encode_varint n).0 ≡ 4) × ((encode_varint n).1 ≡ 5)
unfolding encode_varint
encode_varint-wide (pos n) h = ground arith
encode_varint-wide (negsuc n) h = (refl, refl)

-- A fifth byte for a position of a fixed buffer from which one transfer takes all five.
in_one_copy-fixed :
    (b : ByteBuffer) (r : ℕ) (position : ℤ) (at : ℕ)
    → IsFixed b r
    → position ≡ pos at
    → at + 5 ≤ b.capacity
    → in_one_copy b position 5 ≡ true
unfolding in_one_copy
in_one_copy-fixed b r position at v e before =
    rw (e, is_fixed-IsFixed b r v) (ground (arith, v.small))

-- Writing or prepending a negative integer, or one from 2^28 on, reads past the end of the array
-- that holds its encoding, in a valid fixed buffer with room for five bytes, when five bytes are
-- left before the end of its memory area from the write head on, and the read head is at the start
-- of the area or at least five bytes behind it.
pub write_varint-wide :
    (heap : Heap) (b : ByteBuffer) (r : ℕ) (n : ℤ)
    → IsFixed b r
    → IsWide n
    → b.size + 5 ≤ b.capacity
    → head_index b r + 5 ≤ b.capacity
    → (r ≡ 0) ⊎ (5 ≤ r)
    → (bytebuf_write_varint heap b n ≡ fault) × (bytebuf_prepend_varint heap b n ≡ fault)
unfolding bytebuf_write_varint bytebuf_prepend_varint
write_varint-wide heap b r n v wide room before back =
    let (four, five) = encode_varint-wide n wide in
    let xs = (encode_varint n).0 ++ (0 ∷ []) in
    let long : length xs ≡ 5 =
      length-append (encode_varint n).0 (0 ∷ []) ∙ ap (λ (k : ℕ). k + 1) four in
    let (b', e, _, _, _, _) = bytebuf_write-IsFixed heap b r xs v (omega (arith, long)) in
    let (b'', r', f, v', _, _, _, at) =
      bytebuf_prepend-IsFixed heap b r xs v (omega (arith, long)) in
    let moved : r' + 5 ≤ b.capacity = ground (arith, at, long, back, v.read_in) in
    (
      rw (four, five, e, in_one_copy-fixed b r b.write_head (head_index b r) v v.write_at before)
          refl,
      rw (four, five, f, in_one_copy-fixed b r b''.read_head r' v v'.read_at moved) refl,
    )

-- `varint_length` answers 5 for every number of one byte and -1 for every other integer.
varint_length_lem :
    (n : ℤ)
    → varint_length n
      ≡ elim n [ pos m ↦ if ltb m 128 then pos 5 else negsuc 0 | negsuc m ↦ negsuc 0 ]
unfolding varint_length
varint_length_lem (pos n) = ground arith
varint_length_lem (negsuc n) = refl
