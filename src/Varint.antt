-- ===== src/Varint.antt =====
-- VarInts and UUIDs: network/utils.c, and the VarInt operations of containers/bytebuffer.c.
-- An `int` is the integer that it stands for; the byte array `buf[4]` is the list of its written
-- bytes, and a single transfer of more bytes than were written reads outside the array.
pub mod Codec
pub mod Decode
pub mod Buffer
pub mod Uuid
mod Tests
use mcsrv.Common.{
  ℕ, zero, suc, ◌+◌, ◌-◌, ◌*◌, ◌/◌, ◌%◌, ◌^◌, Bool, true, false, List, [], ◌∷◌, Option, none, some,
  ltb, leb, ◌==◌, if◌then◌else◌, length, ◌&&◌, ◌||◌, not, ◌++◌, take,
}
use mathlib.Core.Option
use mcsrv.Common.Int.{ℤ, pos, negsuc, to_u64}
use mcsrv.Common.Outcome.{Outcome, ok, fault, stuck, ◌>>=◌}
use mcsrv.ByteBuffer.{
  ByteBuffer, Heap, is_fixed, bytebuf_write, bytebuf_prepend, bytebuf_register_read, peek_byte,
}

-- `n & SEGMENT_BITS`, `n & ~SEGMENT_BITS` (is it not 0?) and the arithmetic shift `n >>= 7`.
unfoldable pub low_bits : ℤ → ℕ
low_bits (pos n) = n % 128
low_bits (negsuc n) = 127 - n % 128

unfoldable pub has_high_bits : ℤ → Bool
has_high_bits (pos n) = leb 128 n
has_high_bits (negsuc n) = true

unfoldable pub shift_right : ℤ → ℤ
shift_right (pos n) = pos (n / 128)
shift_right (negsuc n) = negsuc (n / 128)

abbrev pub varint_max_size : ℕ
varint_max_size = 4

-- The loop with the rounds left; `i` counts those made. The low bits are below 128, so
-- `buf[i] |= CONTINUE_BIT` adds 128.
unfoldable pub encode_rounds : ℕ → ℤ → ℕ → List ℕ × ℕ
unfolding low_bits has_high_bits shift_right
encode_rounds zero n i = ([], i + 1)
encode_rounds (suc left) n i =
    let rest = encode_rounds left (shift_right n) (i + 1) in
    if has_high_bits n then ((low_bits n + 128) ∷ rest.0, rest.1) else (low_bits n ∷ [], i + 1)

-- The bytes written to `buf`, and the count returned.
unfoldable pub encode_varint : ℤ → List ℕ × ℕ
unfolding encode_rounds
encode_varint n = encode_rounds varint_max_size n 0

-- The loop leaves `n` and `i`.
unfoldable pub length_rounds : ℕ → ℤ → ℕ → ℤ × ℕ
unfolding has_high_bits shift_right
length_rounds zero n i = (n, i)
length_rounds (suc left) n i =
    let rest = length_rounds left (shift_right n) (i + 1) in
    if has_high_bits n then (n, i) else rest

unfoldable pub varint_length : ℤ → ℤ
unfolding length_rounds
varint_length n =
    let (n', i) = length_rounds varint_max_size n 0 in
    elim n' [ pos m ↦ if m == 0 then pos (i + 1) else negsuc 0 | negsuc m ↦ negsuc 0 ]

-- Whether one `memcpy` takes all the bytes that go to a position of a buffer with room for them:
-- always without a wrap-around, and in a fixed buffer when they end before the end of the area, or
-- start at its end, from where they go to the front. Otherwise two transfers take some of the bytes
-- each, both from the start of the data.
unfoldable pub in_one_copy : ByteBuffer → ℤ → ℕ → Bool
in_one_copy buffer position size =
    not (is_fixed buffer)
    || leb (to_u64 position + size) buffer.capacity
    || to_u64 position == buffer.capacity

module _ (heap : Heap) where
  -- The size is checked against the room in the buffer first. A fifth byte, which is not in the
  -- array, is read by a transfer of all five only; else its value does not matter.
  unfoldable pub bytebuf_write_varint : ByteBuffer → ℤ → Outcome ByteBuffer
  bytebuf_write_varint buffer n =
      let (buf, size) = encode_varint n in
      if leb size (length buf) then bytebuf_write heap buffer (take size buf) else do
        b ← bytebuf_write heap buffer (buf ++ (0 ∷ []))
        if in_one_copy buffer buffer.write_head size then fault else ok b

  unfoldable pub bytebuf_prepend_varint : ByteBuffer → ℤ → Outcome ByteBuffer
  bytebuf_prepend_varint buffer n =
      let (buf, size) = encode_varint n in
      if leb size (length buf) then bytebuf_prepend heap buffer (take size buf) else do
        b ← bytebuf_prepend heap buffer (buf ++ (0 ∷ []))
        if in_one_copy buffer b.read_head size then fault else ok b

-- The count returned, `*out` where it is set (its u32 bits), and the buffer. The bits that are
-- set in `res` stand below `position`, so `|=` adds.
unfoldable pub read_rounds : ℕ → ByteBuffer → ℕ → ℕ → ℕ → Outcome (ℤ × Option ℕ × ByteBuffer)
read_rounds zero buffer res position i = stuck
read_rounds (suc left) buffer res position i = do
  byte ← peek_byte buffer i
  elim byte [
    | [] ↦ ok (pos 0, none, buffer)
    | b ∷ _ ↦
        let res' = res + b % 128 * 2 ^ position % 2 ^ 32 in
        let rest = read_rounds left buffer res' (position + 7) (i + 1) in
        if ltb b 128
        then (do (b', n) ← bytebuf_register_read buffer (i + 1); ok (pos n, some res', b'))
        else if leb 32 (position + 7)
        then ok (negsuc 0, none, buffer)
        else rest
  ]

-- `position` is 35 after five rounds, so the loop makes no sixth.
unfoldable pub bytebuf_read_varint : ByteBuffer → Outcome (ℤ × Option ℕ × ByteBuffer)
unfolding read_rounds
bytebuf_read_varint buffer = read_rounds 5 buffer 0 0 0

-- A character of a UUID.
unfoldable pub parse_hex_digit : ℕ → ℕ
parse_hex_digit c =
    if leb b'0' c && leb c b'9'
    then c - b'0'
    else if leb b'a' c && leb c b'f'
    then c - b'a' + 10
    else if leb b'A' c && leb c b'F'
    then c - b'A' + 10
    else 16

-- The loop from an even `i` on, two characters to a byte; `none` is FALSE.
unfoldable pub uuid_rounds : List ℕ → Option (List ℕ)
uuid_rounds [] = some []
uuid_rounds (c ∷ []) =
    if parse_hex_digit c == 16 then none else some ((parse_hex_digit c * 16) ∷ [])
uuid_rounds (c ∷ d ∷ cs) =
    let rest = uuid_rounds cs in
    if parse_hex_digit c == 16
    then none
    else if parse_hex_digit d == 16
    then none
    else Option.map (λ bytes. (parse_hex_digit c * 16 + parse_hex_digit d) ∷ bytes) rest

-- The 16 bytes of `out`, or FALSE.
unfoldable pub parse_uuid : List ℕ → Option (List ℕ)
parse_uuid str = if length str == 32 then uuid_rounds str else none
