-- ===== src/ByteBuffer/Back.antt =====
-- Taking back reads and writes of a fixed buffer, and writing before its first byte.
use mcsrv.Common.{
  ℕ, ◌+◌, ◌-◌, ◌^◌, ◌≤◌, ◌<◌, ◌≡◌, refl, true, List, ◌++◌, ltb, leb, if◌then◌else◌, length, take,
  rotate, splice, arith, length-take, length-splice, append_assoc, window-prepend, splice-splice,
  Bool-cases, inl, inr,
}
use mcsrv.Common.Int.{pos, add64}
use mcsrv.Common.Outcome.{ok}
use mcsrv.ByteBuffer.Defs.{
  ByteBuffer, Heap, is_negative, is_fixed, bytebuf_prepend, bytebuf_register_read,
}
use mcsrv.ByteBuffer.Ops.{bytebuf_unread, bytebuf_unwrite}
use mcsrv.ByteBuffer.Fixed.{IsFixed, contents}
use mcsrv.ByteBuffer.Write.{
  is_fixed-IsFixed, at_position-fixed, stored, area_after, head_index, length-area_after,
  ensure-fixed,
}
use mcsrv.ByteBuffer.Read.{advanced, advanced-IsFixed, register_read-fixed, take-take}

fixed_heads :
    (b : ByteBuffer) (r w : ℕ) → b.read_head ≡ pos r → b.write_head ≡ pos w → is_fixed b ≡ true
unfolding is_fixed is_negative
fixed_heads b r w p q = rw (p, q)

-- Taking back a registered read of at most the bytes held by a fixed buffer restores the buffer, heads and all.
unread-register_read :
    (b : ByteBuffer) (r n : ℕ)
    → IsFixed b r
    → n ≤ b.size
    → (b' : ByteBuffer) × (bytebuf_register_read b n ≡ ok (b', n)) × (bytebuf_unread b' n ≡ b)
unfolding bytebuf_unread is_negative
unread-register_read b r n v h = (
  advanced b r n,
  ground (arith, register_read-fixed b r n v),
  ground (arith, is_fixed-IsFixed _ _ (advanced-IsFixed b r n v h)),
)

-- Taking back `n` written bytes of a fixed buffer leaves the others, and empties it if there are
-- not as many.
unwrite-IsFixed :
    (b : ByteBuffer) (r n : ℕ)
    → IsFixed b r
    → n < 2 ^ 62
    → IsFixed (bytebuf_unwrite b n) r
      × (contents (bytebuf_unwrite b n) r ≡ take (b.size - n) (contents b r))
unfolding bytebuf_unwrite is_negative
unwrite-IsFixed b r n v small =
    ground (arith, is_fixed-IsFixed b r v, take-take (b.size - n) b.size (rotate r b.buf))

before_window :
    (buf xs : List ℕ) (size r n e : ℕ)
    → length buf ≡ size
    → r < size
    → n + length xs ≤ size
    → e ≡ (if ltb r (length xs) then r + size - length xs else r - length xs)
    → take (n + length xs) (rotate e (area_after buf size e xs))
      ≡ stored (size - e) xs ++ take n (rotate r buf)
before_window buf xs size r n e area hr hn he = elim (Bool-cases (leb (length xs) (size - e))) [
  | inl fits ↦ rw fits (ground (arith, window-prepend buf xs r n e))
  | inr past ↦ rw past (
      ground (
        arith,
        splice-splice buf front back e,
        window-prepend (splice buf 0 back) front 0 (n + length back) e,
        window-prepend buf back r n 0,
        length-splice buf 0 back,
        length-take (size - e) xs,
        length-take (length xs - (size - e)) xs,
        append_assoc front back (take n (rotate r buf)),
      ))
]
  where
    front : List ℕ
    front = take (size - e) xs

    back : List ℕ
    back = take (length xs - (size - e)) xs

-- Bytes put before the first one of a fixed buffer, if they fit into the available space, move
-- the read head back and stand in front of the contents; those that reach past the end of the
-- memory area are replaced by as many bytes of the data's front.
pub bytebuf_prepend-IsFixed :
    (heap : Heap) (b : ByteBuffer) (r : ℕ) (xs : List ℕ)
    → IsFixed b r
    → b.size + length xs ≤ b.capacity
    → (b' : ByteBuffer) × (r' : ℕ) × (bytebuf_prepend heap b xs ≡ ok b')
      × IsFixed b' r'
      × (contents b' r' ≡ stored (b.capacity - r') xs ++ contents b r)
      × (b'.size ≡ b.size + length xs)
      × (b'.capacity ≡ b.capacity)
      × (r' ≡ (if ltb r (length xs) then r + b.capacity - length xs else r - length xs))
unfolding bytebuf_prepend is_negative
bytebuf_prepend-IsFixed heap b r xs v fits = (
  done,
  r',
  ground (
    arith,
    ensure-fixed heap b r (add64 b.size (length xs)) v,
    is_fixed-IsFixed b r v,
    at_position-fixed (record b { read_head = pos r' }) r' xs moved,
  ),
  ground (arith, length-area_after b.buf xs b.capacity r'),
  before_window b.buf xs b.capacity r b.size r' v.area v.read_in fits refl,
  refl,
  refl,
  refl,
)
  where
    r' : ℕ
    r' = if ltb r (length xs) then r + b.capacity - length xs else r - length xs

    done : ByteBuffer
    done = record b {
      buf = area_after b.buf b.capacity r' xs;
      read_head = pos r';
      size = b.size + length xs;
    }

    moved : is_fixed (record b { read_head = pos r' }) ≡ true
    moved = ground (arith, fixed_heads (record b { read_head = pos r' }) r' (head_index b r))
