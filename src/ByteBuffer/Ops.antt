-- ===== src/ByteBuffer/Ops.antt =====
-- The reads of containers/bytebuffer.c, the operations that take bytes back, and the regions.
use mcsrv.Common.{
  ℕ, zero, suc, Bool, false, not, List, [], ◌∷◌, ltb, leb, ◌==◌, if◌then◌else◌, memcpy, load, rem,
}
use mcsrv.Common.Int.{ℤ, pos, ltb_ℤ, ◌+ℤ◌, ◌-ℤ◌, to_u64, to_i64, add64, sub64}
use mcsrv.Common.Outcome.{Outcome, ok, ◌>>=◌}
use mcsrv.Math.{min_u64}
use mcsrv.ByteBuffer.Defs.{
  ByteBuffer, Heap, is_negative, is_fixed, bytebuf_available, bytebuf_read_const,
  bytebuf_register_read, bytebuf_write,
}

-- `wanted` says whether `out_data` is given; the list holds what is copied to it.
unfoldable pub bytebuf_read : ByteBuffer → ℕ → Bool → Outcome (List ℕ × ℕ × ByteBuffer)
bytebuf_read buffer asked wanted =
    let size = if ltb buffer.size asked then buffer.size else asked in
    do
      out ← (if wanted then (do (xs, n) ← bytebuf_read_const buffer size; ok xs) else ok [])
      b ←
          (if is_fixed buffer then ok buffer else (do
            kept ← load buffer.buf size (sub64 buffer.size size)
            buf ← memcpy buffer.buf 0 kept
            ok (record buffer { buf = buf })))
      (b, n) ← bytebuf_register_read b size
      ok (out, n, b)

unfoldable pub bytebuf_peek : ByteBuffer → ℕ → Outcome (List ℕ × ℕ)
bytebuf_peek buffer asked =
    let size = if ltb buffer.size asked then buffer.size else asked in
    do (xs, n) ← bytebuf_read_const buffer size; ok (xs, size)

-- The byte at `index`; no byte is FALSE. The address does not go round the end of the area.
unfoldable pub peek_byte : ByteBuffer → ℕ → Outcome (List ℕ)
peek_byte buffer index =
    if buffer.size == 0
    then ok []
    else if leb buffer.size index
    then ok []
    else load buffer.buf (if is_fixed buffer then add64 (to_u64 buffer.read_head) index else index)
        1

unfoldable pub bytebuf_unwrite : ByteBuffer → ℕ → ByteBuffer
bytebuf_unwrite buffer size =
    if size == 0
    then buffer
    else if leb buffer.size size
    then record buffer {
      size = 0;
      write_head = if is_fixed buffer then buffer.read_head else buffer.write_head;
    }
    else let head = to_i64 (sub64 (to_u64 buffer.write_head) size) in
      let head' =
        (if is_negative head then to_i64 (add64 (to_u64 head) buffer.capacity) else head) in
      record buffer {
        size = sub64 buffer.size size;
        write_head = if is_fixed buffer then head' else buffer.write_head;
      }

unfoldable pub bytebuf_unread : ByteBuffer → ℕ → ByteBuffer
bytebuf_unread buffer size =
    if size == 0
    then buffer
    else if not (is_fixed buffer)
    then buffer
    else if leb (sub64 buffer.capacity buffer.size) size
    then record buffer { size = buffer.capacity; read_head = buffer.write_head }
    else let head = to_i64 (sub64 (to_u64 buffer.read_head) size) in
      let head' =
        (if is_negative head then to_i64 (add64 (to_u64 head) buffer.capacity) else head) in
      record buffer { size = add64 buffer.size size; read_head = head' }

-- A fixed destination's `write_head` is set to the size, without going round.
unfoldable pub bytebuf_copy : ByteBuffer → ByteBuffer → Outcome ByteBuffer
unfolding min_u64
bytebuf_copy dst src =
    let size = min_u64 dst.capacity src.size in
    do
      (xs, n) ← bytebuf_read_const src size
      buf ← memcpy dst.buf 0 xs
      ok (record dst {
        buf = buf;
        size = size;
        read_head = if is_fixed dst then pos 0 else dst.read_head;
        write_head = if is_fixed dst then to_i64 size else dst.write_head;
      })

unfoldable pub bytebuf_current_pos : ByteBuffer → ℤ
unfolding ◌+ℤ◌ ◌-ℤ◌
bytebuf_current_pos buffer =
    let res = buffer.write_head -ℤ buffer.read_head in
    if ltb_ℤ res (pos 0) then res +ℤ to_i64 buffer.capacity else res

-- The lengths of the contiguous regions from `start` on.
unfoldable pub get_read_region_size : ByteBuffer → ℤ → ℕ
get_read_region_size b start =
    if b.size == 0
    then 0
    else if to_u64 b.read_head == to_u64 b.write_head
    then sub64 b.capacity (to_u64 start)
    else if ltb_ℤ b.write_head b.read_head
    then (if not (ltb_ℤ start b.read_head)
        then sub64 b.capacity (to_u64 start)
        else if ltb_ℤ start b.write_head
        then sub64 (to_u64 b.write_head) (to_u64 start)
        else 0)
    else if not (ltb_ℤ start b.write_head)
    then 0
    else if ltb_ℤ start b.read_head
    then 0
    else sub64 (to_u64 b.write_head) (to_u64 start)

unfoldable pub get_write_region_size : ByteBuffer → ℤ → ℕ
get_write_region_size b start =
    if b.size == b.capacity
    then 0
    else if to_u64 b.read_head == to_u64 b.write_head
    then sub64 b.capacity (to_u64 start)
    else if ltb_ℤ b.write_head b.read_head
    then (if not (ltb_ℤ start b.read_head)
        then 0
        else if ltb_ℤ start b.write_head
        then 0
        else sub64 (to_u64 b.read_head) (to_u64 start))
    else if not (ltb_ℤ start b.write_head)
    then sub64 b.capacity (to_u64 start)
    else if ltb_ℤ start b.read_head
    then sub64 (to_u64 b.read_head) (to_u64 start)
    else 0

unfoldable pub has_more_regions : ByteBuffer → ℕ → Bool → Bool
has_more_regions b total writable =
    if writable then ltb total (sub64 b.capacity b.size) else ltb total b.size

-- `struct BufferRegion`: the start as an index into the buffer's memory, and the length.
pub record BufferRegion : Type 0 where
  pub start : ℤ
  pub size : ℕ

-- The recursion is on the rounds left of `*out_count`.
unfoldable pub region_rounds : ByteBuffer → Bool → ℕ → ℤ → ℕ → Outcome (List BufferRegion × ℕ)
region_rounds b writable zero start total = ok ([], total)
region_rounds b writable (suc left) start total =
    let size = (if writable then get_write_region_size b start else get_read_region_size b start) in
    let more = (do
      next ← rem (add64 (to_u64 start) size) b.capacity
      (regions, sum) ← region_rounds b writable left (to_i64 next) (add64 total size)
      ok (record { start = start; size = size } ∷ regions, sum)) in
    if has_more_regions b total writable then more else ok ([], total)

-- The regions, whose number is the new `*out_count`, and the total length returned.
unfoldable pub get_regions : ByteBuffer → ℕ → Bool → ℤ → Outcome (List BufferRegion × ℕ)
get_regions b out_count writable asked =
    let max_size = if writable then bytebuf_available b else b.size in
    let from = (if is_negative asked then pos 0 else asked) in
    let from' = (if ltb max_size (to_u64 from) then to_i64 max_size else from) in
    region_rounds b writable out_count (from' +ℤ (if writable then b.write_head else b.read_head)) 0

module _ (heap : Heap) where
  -- `bytebuf_write` of each region in turn; a start before the memory is a fault.
  unfoldable pub write_regions : ByteBuffer → List ℕ → List BufferRegion → Outcome ByteBuffer
  write_regions dst memory [] = ok dst
  write_regions dst memory (r ∷ rs) = do
    xs ← load memory (to_u64 r.start) r.size
    dst ← bytebuf_write heap dst xs
    write_regions dst memory rs

  unfoldable pub bytebuf_write_buffer : ByteBuffer → ByteBuffer → Outcome ByteBuffer
  bytebuf_write_buffer dst src = do
    (regions, total) ← get_regions src 2 false (pos 0)
    write_regions dst src.buf regions
