-- ===== src/Varint/Buffer.antt =====
-- VarInts through a fixed buffer: written, prepended and read back.
use mcsrv.Common.{
  ℕ, ◌+◌, ◌-◌, ◌^◌, ◌≤◌, ◌<◌, ◌≡◌, ◌∙◌, ap, rotate, sym, List, [], ◌++◌, take, arith, some,
  append-nil,
}
use mcsrv.Common.Int.{pos}
use mcsrv.Common.Outcome.{ok}
use mcsrv.ByteBuffer.{ByteBuffer, Heap, bytebuf_write, bytebuf_prepend}
use mcsrv.ByteBuffer.Fixed.{IsFixed, contents, take_all}
use mcsrv.ByteBuffer.Write.{stored_whole, bytebuf_write-IsFixed, head_index}
use mcsrv.Varint.{encode_varint, bytebuf_read_varint, bytebuf_write_varint, bytebuf_prepend_varint}
use mcsrv.Varint.Codec.{encode_varint-length}
use mcsrv.Varint.Decode.{bytebuf_read_varint-encoded}

module _ (heap : Heap) (b : ByteBuffer) (r : ℕ) (v : IsFixed b r) (n : ℕ) (h : n < 2 ^ 28) where
  abbrev pub encoded : List ℕ
  encoded = (encode_varint (pos n)).0

  pub write_varint-short : bytebuf_write_varint heap b (pos n) ≡ bytebuf_write heap b encoded
  unfolding bytebuf_write_varint
  write_varint-short =
      let (count, _) = encode_varint-length n h in rw (← count) (ground (arith, take_all encoded))

  pub prepend_varint-short : bytebuf_prepend_varint heap b (pos n) ≡ bytebuf_prepend heap b encoded
  unfolding bytebuf_prepend_varint
  prepend_varint-short =
      let (count, _) = encode_varint-length n h in rw (← count) (ground (arith, take_all encoded))

  -- A number below 2^28 written to a fixed buffer with four bytes of room before the end of its
  -- memory area is appended as its encoding.
  pub bytebuf_write_varint-IsFixed :
      b.size + 4 ≤ b.capacity
      → head_index b r + 4 ≤ b.capacity
      → (b' : ByteBuffer) × (bytebuf_write_varint heap b (pos n) ≡ ok b')
        × IsFixed b' r
        × (contents b' r ≡ contents b r ++ encoded)
        × (b'.capacity ≡ b.capacity)
  bytebuf_write_varint-IsFixed room before =
      let (count, small) = encode_varint-length n h in
      let (b', e, v', c, s, k) = bytebuf_write-IsFixed heap b r encoded v (omega arith) in
      (
        b',
        rw write_varint-short e,
        v',
        rw (stored_whole (b.capacity - head_index b r) encoded (omega arith)) at c,
        k,
      )

  -- A number below 2^28 written to an empty fixed buffer, with four bytes before the end of its
  -- memory area, is read back and leaves the buffer empty.
  pub read_varint-write_varint :
      b.size ≡ 0
      → r + 4 ≤ b.capacity
      → (b' b'' : ByteBuffer) × (bytebuf_write_varint heap b (pos n) ≡ ok b')
        × (bytebuf_read_varint b' ≡ ok (pos (encode_varint (pos n)).1, some n, b''))
        × ((r' : ℕ) × IsFixed b'' r' × (contents b'' r' ≡ []))
  read_varint-write_varint none_held before =
      let (count, small) = encode_varint-length n h in
      let (b', e, v', c, k) = bytebuf_write_varint-IsFixed (omega arith) (ground arith) in
      let whole : contents b' r ≡ encoded ++ [] =
        c
        ∙ ap (λ (k : ℕ). take k (rotate r b.buf) ++ encoded) none_held
        ∙ sym (append-nil encoded) in
      let (b'', r', read, valid, left, _, _) =
        bytebuf_read_varint-encoded b' r v' n [] h whole (omega arith) in
      (b', b'', e, read, (r', valid, left))
