-- ===== src/ByteBuffer/WriteRegions.antt =====
-- The regions of an empty fixed buffer into which the socket reads.
use mcsrv.Common.{ℕ, suc, ◌+◌, ◌-◌, ◌<◌, ◌≡◌, refl, true, [], ◌∷◌, ltb, rem, arith, add-mod-wrap}
use mcsrv.Common.Int.{ℤ, pos, ◌+ℤ◌, add64, sub64}
use mcsrv.Common.Outcome.{ok, ◌>>=◌}
use mcsrv.ByteBuffer.Defs.{ByteBuffer, is_negative, bytebuf_available}
use mcsrv.ByteBuffer.Ops.{get_write_region_size, has_more_regions, region_rounds, get_regions}
use mcsrv.ByteBuffer.Fixed.{IsFixed}

module _ (b : ByteBuffer) (r : ℕ) (v : IsFixed b r) (none_held : b.size ≡ 0) where
  free_region : (at : ℕ) → at < b.capacity → get_write_region_size b (pos at) ≡ b.capacity - at
  unfolding get_write_region_size
  free_region at inside = rw (v.read_at, v.write_at) (ground arith)

  free_round :
      (left at total : ℕ)
      → total < b.capacity
      → at < b.capacity
      → region_rounds b true (suc left) (pos at) total ≡ (do
        (regions, sum) ← region_rounds b true left (pos 0) (total + (b.capacity - at))
        ok (record { start = pos at; size = b.capacity - at } ∷ regions, sum))
  unfolding region_rounds has_more_regions
  free_round left at total more inside = rw (free_region at inside, turned, sum, ahead) refl
    where
      turned : rem (add64 at (b.capacity - at)) b.capacity ≡ ok 0
      turned = unfold rem in ground (arith, add-mod-wrap at (b.capacity - at) b.capacity)

      sum : add64 total (b.capacity - at) ≡ total + (b.capacity - at)
      sum = omega arith

      ahead : ltb total (sub64 b.capacity b.size) ≡ true
      ahead = ground arith

  no_rounds : (start : ℤ) (total : ℕ) → region_rounds b true 0 start total ≡ ok ([], total)
  unfolding region_rounds
  no_rounds start total = refl

  -- The write regions of an empty fixed buffer whose heads are away from the front overlap: the
  -- second one is the whole memory area, and their total length is more than the capacity.
  get_regions-empty :
      0 < r
      → (get_regions b 2 true (pos 0)
          ≡ ok (
            record { start = pos r; size = b.capacity - r }
                ∷ record { start = pos 0; size = b.capacity }
                ∷ [],
            b.capacity - r + b.capacity,
          ))
        × (b.capacity < b.capacity - r + b.capacity)
  unfolding get_regions is_negative bytebuf_available ◌+ℤ◌
  get_regions-empty away = (
    rw v.write_at (
        ground (
          arith,
          free_round 1 r 0,
          free_round 0 0 (b.capacity - r),
          no_rounds (pos 0) (b.capacity - r + b.capacity),
        )),
    omega (arith, v.read_in),
  )
