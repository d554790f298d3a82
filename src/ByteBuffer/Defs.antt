-- ===== src/ByteBuffer/Defs.antt =====
-- The buffer's record, its capacity, the heads and the transfers of containers/bytebuffer.c.
use mcsrv.Common.{
  ℕ, zero, suc, ◌+◌, ◌/◌, ◌≤◌, ◌≡◌, Bool, true, false, not, ◌&&◌, ◌||◌, List, [], ◌++◌, Option,
  none, some, ltb, leb, if◌then◌else◌, length, take, memcpy, load, rem,
}
use mcsrv.Common.Int.{ℤ, pos, negsuc, ltb_ℤ, ◌+ℤ◌, ◌-ℤ◌, to_u64, to_i64, add64, sub64}
use mcsrv.Common.Outcome.{Outcome, ok, abort, stuck, ◌>>=◌}
use mcsrv.Math.{min_u64}

-- `struct byte_buffer`
pub record ByteBuffer : Type 0 where
  pub buf : List ℕ
  pub read_head : ℤ
  pub write_head : ℤ
  pub size : ℕ
  pub capacity : ℕ

-- What the buffer relies on of `realloc`: an area of the length asked for, which starts with the
-- old bytes; `none` is the NULL of a failure.
pub record Heap : Type 0 where
  pub realloc : List ℕ → ℕ → Option (List ℕ)
  pub realloc_length : (xs : List ℕ) (n : ℕ) (ys : List ℕ) → realloc xs n ≡ some ys → length ys ≡ n
  pub realloc_keeps :
      (xs : List ℕ) (n : ℕ) (ys : List ℕ)
      → realloc xs n ≡ some ys
      → length xs ≤ n
      → take (length xs) ys ≡ xs

unfoldable pub is_negative : ℤ → Bool
is_negative (pos n) = false
is_negative (negsuc n) = true

unfoldable pub is_fixed : ByteBuffer → Bool
unfolding is_negative
is_fixed buffer = not (is_negative buffer.read_head) && not (is_negative buffer.write_head)

-- `bytebuf_create`, over what `malloc` returns, and `bytebuf_create_fixed`, over the arena's area.
unfoldable pub bytebuf_create : List ℕ → ℕ → ByteBuffer
bytebuf_create area size = record {
  buf = area;
  read_head = negsuc 0;
  write_head = negsuc 0;
  size = 0;
  capacity = size;
}

unfoldable pub bytebuf_create_fixed : List ℕ → ℕ → ByteBuffer
bytebuf_create_fixed area size = record {
  buf = area;
  read_head = pos 0;
  write_head = pos 0;
  size = 0;
  capacity = size;
}

unfoldable pub bytebuf_available : ByteBuffer → ℕ
bytebuf_available buffer = sub64 buffer.capacity buffer.size

-- `while (new_cap < size) new_cap += new_cap >> 1;`
unfoldable pub grow_cap : ℕ → ℕ → ℕ → Outcome ℕ
grow_cap zero new_cap size = stuck
grow_cap (suc fuel) new_cap size =
    let next = grow_cap fuel (add64 new_cap (new_cap / 2)) size in
    if ltb new_cap size then next else ok new_cap

-- `data` from its start: the pointer does not move on between the rounds.
unfoldable pub write_rounds : ℕ → List ℕ → ℕ → List ℕ → ℕ → ℕ → Outcome (List ℕ)
unfolding min_u64
write_rounds fuel buf capacity xs position zero = ok buf
write_rounds zero buf capacity xs position (suc n) = stuck
write_rounds (suc fuel) buf capacity xs position (suc n) =
    let writable = min_u64 (sub64 capacity position) (suc n) in
    do
      buf' ← memcpy buf position (take writable xs)
      position' ← rem (add64 position writable) capacity
      write_rounds fuel buf' capacity xs position' (sub64 (suc n) writable)

-- `position < -(i64) capacity || (u64) position > capacity` aborts, so a negative position always
-- does, and the correction that follows the test is never made.
unfoldable pub write_at_position : ByteBuffer → List ℕ → ℤ → ℕ → Outcome ByteBuffer
write_at_position buffer xs position size =
    if not (is_fixed buffer)
    then ok buffer
    else if ltb_ℤ position (pos 0 -ℤ to_i64 buffer.capacity)
        || ltb buffer.capacity (to_u64 position)
    then abort
    else let start =
        if is_negative position then position +ℤ to_i64 buffer.capacity else position in
      do
        buf ← write_rounds (size + 2) buffer.buf buffer.capacity xs (to_u64 start) size
        ok (record buffer { buf = buf })

-- The bytes that are copied to `out_data`, and the count returned.
unfoldable pub bytebuf_read_const : ByteBuffer → ℕ → Outcome (List ℕ × ℕ)
unfolding min_u64
bytebuf_read_const buffer size =
    if not (is_fixed buffer)
    then (do out ← load buffer.buf 0 (min_u64 size buffer.size); ok (out, min_u64 size buffer.size))
    else let to_read = min_u64 size (sub64 buffer.capacity (to_u64 buffer.read_head)) in
      do
        out ← load buffer.buf (to_u64 buffer.read_head) to_read
        wrapped ← (if ltb to_read size then load buffer.buf 0 (sub64 size to_read) else ok [])
        ok (out ++ wrapped, to_read)

unfoldable pub bytebuf_register_read : ByteBuffer → ℕ → Outcome (ByteBuffer × ℕ)
bytebuf_register_read buffer wanted =
    let size = if ltb buffer.size wanted then buffer.size else wanted in
    do
      head ←
          (if is_fixed buffer
            then (do h ← rem (add64 (to_u64 buffer.read_head) size) buffer.capacity; ok (to_i64 h))
            else ok buffer.read_head)
      ok (record buffer { read_head = head; size = sub64 buffer.size size }, size)

module _ (heap : Heap) where
  -- The fuel is at least the number of rounds from a capacity of 2 on (`grow_cap-ok`).
  unfoldable pub ensure_capacity : ByteBuffer → ℕ → Outcome ByteBuffer
  ensure_capacity buffer size =
      if leb size buffer.capacity then ok buffer else if is_fixed buffer then abort else do
        new_cap ← grow_cap (size + 1) buffer.capacity size
        elim (heap.realloc buffer.buf new_cap) [
          | none ↦ abort
          | some area ↦ ok (record buffer { buf = area; capacity = new_cap })
        ]

  unfoldable pub bytebuf_register_write : ByteBuffer → ℕ → Outcome (ByteBuffer × ℕ)
  bytebuf_register_write buffer size = do
    b ← ensure_capacity buffer (add64 buffer.size size)
    head ←
        (if is_fixed b
          then (do h ← rem (add64 (to_u64 b.write_head) size) b.capacity; ok (to_i64 h))
          else ok b.write_head)
    ok (record b { write_head = head; size = add64 b.size size }, size)

  unfoldable pub bytebuf_write : ByteBuffer → List ℕ → Outcome ByteBuffer
  bytebuf_write buffer xs = do
    b ← ensure_capacity buffer (add64 buffer.size (length xs))
    b ←
        (if is_fixed b
          then write_at_position b xs b.write_head (length xs)
          else (do buf ← memcpy b.buf b.size xs; ok (record b { buf = buf })))
    (b, n) ← bytebuf_register_write b (length xs)
    ok b

  -- The slot that the caller may fill; `none` is the NULL for a fixed buffer.
  unfoldable pub bytebuf_reserve : ByteBuffer → ℕ → Outcome (Option ℕ × ByteBuffer)
  bytebuf_reserve buffer size = if is_fixed buffer then ok (none, buffer) else do
    b ← ensure_capacity buffer (add64 buffer.size size)
    ok (some b.size, record b { size = add64 b.size size })

  unfoldable pub bytebuf_prepend : ByteBuffer → List ℕ → Outcome ByteBuffer
  bytebuf_prepend buffer xs = do
    b ← ensure_capacity buffer (add64 buffer.size (length xs))
    b ←
        (if is_fixed b
          then (let head = to_i64 (sub64 (to_u64 b.read_head) (length xs)) in
              let head' =
                (if is_negative head then to_i64 (add64 (to_u64 head) b.capacity) else head) in
              write_at_position (record b { read_head = head' }) xs head' (length xs))
          else (do
            moved ← load b.buf 0 b.size
            buf ← memcpy b.buf (length xs) moved
            buf ← memcpy buf 0 xs
            ok (record b { buf = buf })))
    ok (record b { size = add64 b.size (length xs) })
