-- ===== src/ByteBuffer/Regions.antt =====
-- The contiguous regions of a fixed buffer, and the copy of one buffer into another.
use mcsrv.Common.{
  ℕ, zero, suc, ◌+◌, ◌-◌, ◌^◌, ◌≤◌, ◌<◌, ◌≡◌, refl, min, ◌⊎◌, true, false, List, [], ◌∷◌, ◌++◌, ltb,
  leb, ◌==◌, if◌then◌else◌, length, take, drop, rem, arith, add-mod-wrap, append-nil, append_assoc,
  length-append, ap, sym, ◌∙◌, load-ok,
}
use mcsrv.Common.Int.{ℤ, pos, ◌+ℤ◌, to_u64, to_i64, add64}
use mcsrv.Common.Outcome.{ok, ◌>>=◌}
use mcsrv.ByteBuffer.Defs.{ByteBuffer, Heap, is_negative}
use mcsrv.ByteBuffer.Ops.{
  BufferRegion, get_read_region_size, has_more_regions, region_rounds, get_regions, write_regions,
  bytebuf_write_buffer,
}
use mcsrv.ByteBuffer.Fixed.{IsFixed, contents}
use mcsrv.ByteBuffer.Write.{head_index, stored_whole, bytebuf_write-IsFixed}
use mcsrv.ByteBuffer.Read.{two_loads, one_load, length-contents}

abbrev region : ℕ → ℕ → BufferRegion
region at n = record { start = pos at; size = n }

-- The regions of the bytes held.
abbrev pub held_regions : ByteBuffer → ℕ → List BufferRegion
held_regions b r =
    if b.size == 0
    then []
    else if leb (r + b.size) b.capacity
    then region r b.size ∷ []
    else region r (b.capacity - r) ∷ region 0 (b.size - (b.capacity - r)) ∷ []

-- The bytes of the regions, one after the other.
abbrev pub region_bytes : List ℕ → List BufferRegion → List ℕ
region_bytes memory [] = []
region_bytes memory (s ∷ rs) = take s.size (drop (to_u64 s.start) memory) ++ region_bytes memory rs

module _ (b : ByteBuffer) (r : ℕ) (v : IsFixed b r) where
  rounds_end :
      (left : ℕ) (start : ℤ) (total : ℕ)
      → b.size ≤ total
      → region_rounds b false left start total ≡ ok ([], total)
  unfolding region_rounds has_more_regions
  rounds_end zero start total h = refl
  rounds_end (suc left) start total h = ground arith

  next_round :
      (left at total n : ℕ)
      → get_read_region_size b (pos at) ≡ n
      → total < b.size
      → at < b.capacity
      → total + n < 2 ^ 64
      → at + n ≤ b.capacity
      → region_rounds b false (suc left) (pos at) total ≡ (do
        (regions, sum) ←
            region_rounds b false left
              (pos (if ltb (at + n) b.capacity then at + n else at + n - b.capacity))
              (total + n)
        ok (region at n ∷ regions, sum))
  unfolding region_rounds has_more_regions
  next_round left at total n e more inside small fits = rw (e, turned, back, sum, ahead) refl
    where
      next : ℕ
      next = if ltb (at + n) b.capacity then at + n else at + n - b.capacity

      turned : rem (add64 at n) b.capacity ≡ ok next
      turned = unfold rem in ground (arith, add-mod-wrap at n b.capacity)

      back : to_i64 next ≡ pos next
      back = ground arith

      sum : add64 total n ≡ total + n
      sum = omega arith

      ahead : ltb total b.size ≡ true
      ahead = ground arith

  size_at :
      (at n : ℕ)
      → (b.size ≡ b.capacity → r ≡ 0)
      → 0 < b.size
      → ((at ≡ r) × (n ≡ min b.size (b.capacity - r)))
        ⊎ ((at ≡ 0) × (b.capacity < r + b.size) × (n ≡ r + b.size - b.capacity))
      → get_read_region_size b (pos at) ≡ n
  unfolding get_read_region_size
  size_at at n unambiguous some_held e = rw (v.read_at, v.write_at) (ground arith)

  rounds_lem :
      (b.size ≡ b.capacity → r ≡ 0)
      → region_rounds b false 2 (pos r) 0 ≡ ok (held_regions b r, b.size)
  rounds_lem unambiguous = ground (
    arith,
    rounds_end 2 (pos r) 0,
    size_at r (min b.size (b.capacity - r)) unambiguous,
    next_round 1 r 0 (min b.size (b.capacity - r)),
    rounds_end 1
        (pos (
          if ltb (r + min b.size (b.capacity - r)) b.capacity
          then r + min b.size (b.capacity - r)
          else r + min b.size (b.capacity - r) - b.capacity))
        b.size,
    size_at 0 (r + b.size - b.capacity) unambiguous,
    next_round 0 0 (b.capacity - r) (r + b.size - b.capacity),
    rounds_end 0 (pos (r + b.size - b.capacity)) b.size,
  )

  pub get_regions_lem :
      (b.size ≡ b.capacity → r ≡ 0) → get_regions b 2 false (pos 0) ≡ ok (held_regions b r, b.size)
  unfolding get_regions is_negative ◌+ℤ◌
  get_regions_lem unambiguous = rw v.read_at (ground (arith, rounds_lem unambiguous))

pub bytes-held_regions :
    (b : ByteBuffer) (r : ℕ) → IsFixed b r → region_bytes b.buf (held_regions b r) ≡ contents b r
bytes-held_regions b r v = ground (
  arith,
  two_loads b.buf r b.size (b.capacity - r),
  one_load b.buf r b.size,
  append-nil (take b.size (drop r b.buf)),
  append-nil (take (b.size - (b.capacity - r)) b.buf),
)

-- Unless it is full with the read head away from the front, the read regions of a fixed buffer
-- are as long as the buffer's size together, and hold its contents in order.
pub get_regions-contents :
    (b : ByteBuffer) (r : ℕ)
    → IsFixed b r
    → (b.size ≡ b.capacity → r ≡ 0)
    → (regions : List BufferRegion) × (get_regions b 2 false (pos 0) ≡ ok (regions, b.size))
      × (region_bytes b.buf regions ≡ contents b r)
get_regions-contents b r v unambiguous =
    (held_regions b r, get_regions_lem b r v unambiguous, bytes-held_regions b r v)

full_region :
    (b : ByteBuffer) (r at : ℕ)
    → IsFixed b r
    → b.size ≡ b.capacity
    → at < b.capacity
    → get_read_region_size b (pos at) ≡ b.capacity - at
unfolding get_read_region_size
full_region b r at v full inside = rw (v.read_at, v.write_at) (ground arith)

-- The read regions of a full fixed buffer whose read head is away from the front overlap: the
-- second one is the whole memory area, and their total length is more than the buffer holds.
pub get_regions-full :
    (b : ByteBuffer) (r : ℕ)
    → IsFixed b r
    → b.size ≡ b.capacity
    → 0 < r
    → (get_regions b 2 false (pos 0)
        ≡ ok (region r (b.capacity - r) ∷ region 0 b.capacity ∷ [], b.capacity - r + b.capacity))
      × (b.size < b.capacity - r + b.capacity)
unfolding get_regions is_negative ◌+ℤ◌
get_regions-full b r v full away = (
  rw v.read_at (
      ground (
        arith,
        full_region b r r v full,
        next_round b r v 1 r 0 (b.capacity - r),
        full_region b r 0 v full,
        next_round b r v 0 0 (b.capacity - r) b.capacity,
        rounds_end b r v 0 (pos 0) (b.capacity - r + b.capacity),
      )),
  omega (arith, v.read_in),
)

abbrev pub AllInside : List ℕ → List BufferRegion → Type 0
AllInside memory [] = Unit
AllInside memory (g ∷ gs) = (to_u64 g.start + g.size ≤ length memory) × AllInside memory gs

-- The bytes of regions are appended, where they fit before the end of the destination's area.
write_regions-append :
    (heap : Heap) (memory : List ℕ) (s : ℕ) (gs : List BufferRegion) (d : ByteBuffer)
    → IsFixed d s
    → AllInside memory gs
    → d.size + length (region_bytes memory gs) ≤ d.capacity
    → head_index d s + length (region_bytes memory gs) ≤ d.capacity
    → (d' : ByteBuffer) × (write_regions heap d memory gs ≡ ok d')
      × IsFixed d' s
      × (contents d' s ≡ contents d s ++ region_bytes memory gs)
      × (d'.size ≡ d.size + length (region_bytes memory gs))
unfolding write_regions
write_regions-append heap memory s [] d v inside fits before =
    (d, refl, v, sym (append-nil (contents d s)), omega arith)
write_regions-append heap memory s (g ∷ gs) d v (here, inside) fits before =
    let xs = take g.size (drop (to_u64 g.start) memory) in
    let both = length-append xs (region_bytes memory gs) in
    let (e, w, u, c, n, k) = bytebuf_write-IsFixed heap d s xs v (omega (arith, both)) in
    let whole = stored_whole (d.capacity - head_index d s) xs (omega (arith, both)) in
    let (f, w', u', c', n') =
      write_regions-append heap memory s gs e u inside (omega (arith, both))
        (ground (arith, both)) in
    (
      f,
      rw (load-ok memory (to_u64 g.start) g.size here, w) w',
      u',
      rw (c', c, whole) (append_assoc (contents d s) xs (region_bytes memory gs)),
      omega (arith, both),
    )

pub held_regions-AllInside :
    (b : ByteBuffer) (r : ℕ) → IsFixed b r → AllInside b.buf (held_regions b r)
held_regions-AllInside b r v = ground arith

-- Unless the source is full with its read head away from the front, the contents of one fixed
-- buffer are appended to another, if they fit before the end of the other's memory area.
pub bytebuf_write_buffer-IsFixed :
    (heap : Heap) (d b : ByteBuffer) (s r : ℕ)
    → IsFixed d s
    → IsFixed b r
    → (b.size ≡ b.capacity → r ≡ 0)
    → d.size + b.size ≤ d.capacity
    → head_index d s + b.size ≤ d.capacity
    → (d' : ByteBuffer) × (bytebuf_write_buffer heap d b ≡ ok d')
      × IsFixed d' s
      × (contents d' s ≡ contents d s ++ contents b r)
      × (d'.size ≡ d.size + b.size)
unfolding bytebuf_write_buffer
bytebuf_write_buffer-IsFixed heap d b s r u v unambiguous fits before =
    let bytes = bytes-held_regions b r v in
    let count : length (region_bytes b.buf (held_regions b r)) ≡ b.size =
      ap length bytes ∙ length-contents b r v in
    let (d', e, u', c, n) =
      write_regions-append heap b.buf s (held_regions b r) d u (held_regions-AllInside b r v)
        (omega (arith, count)) (omega (arith, count)) in
    (d', rw (get_regions_lem b r v unambiguous) e, u', rw bytes at c, omega (arith, count, n))
