-- ===== src/ByteBuffer/Tests.antt =====
-- Concrete buffers, and a heap whose `realloc` always finds memory.
use mcsrv.Common.{
  ◌<◌, false, ℕ, zero, suc, ◌-◌, ◌≤◌, ◌<◌, ◌≡◌, refl, some, true, List, [], ◌∷◌, ◌++◌, length, take,
  rotate, arith,
}
use mcsrv.Common.Int.{pos, negsuc}
use mcsrv.Common.Outcome.{ok}
use mcsrv.ByteBuffer.{ByteBuffer, Heap, bytebuf_write, bytebuf_read, bytebuf_prepend}
use mcsrv.ByteBuffer.{BufferRegion, get_regions, bytebuf_write_buffer}
use mcsrv.ByteBuffer.Regions.{
  region_bytes, get_regions-contents, get_regions-full, bytebuf_write_buffer-IsFixed,
}
use mcsrv.ByteBuffer.Fixed.{IsFixed, contents}
use mcsrv.ByteBuffer.Write.{stored, bytebuf_write-IsFixed}
use mcsrv.ByteBuffer.Read.{bytebuf_read-IsFixed}
use mcsrv.ByteBuffer.Back.{bytebuf_prepend-IsFixed}
use mcsrv.ByteBuffer.Dynamic.{IsDynamic, held, bytebuf_write-IsDynamic, bytebuf_read-IsDynamic}

unfoldable pub resized : ℕ → List ℕ → List ℕ
resized zero xs = []
resized (suc n) [] = 0 ∷ resized n []
resized (suc n) (x ∷ xs) = x ∷ resized n xs

pub length-resized : (n : ℕ) (xs : List ℕ) → length (resized n xs) ≡ n
unfolding resized
length-resized zero xs = refl
length-resized (suc n) [] = ground (arith, length-resized n [])
length-resized (suc n) (x ∷ xs) = ground (arith, length-resized n xs)

pub resized-keeps : (xs : List ℕ) (n : ℕ) → length xs ≤ n → take (length xs) (resized n xs) ≡ xs
unfolding resized
resized-keeps [] n h = refl
resized-keeps (x ∷ xs) zero h = absurd (omega arith)
resized-keeps (x ∷ xs) (suc n) h = ground (arith, resized-keeps xs n (omega arith))

abbrev pub test_heap : Heap
test_heap = record {
  realloc = λ xs n. some (resized n xs);
  realloc_length = λ xs n ys e. ground (arith, length-resized n xs);
  realloc_keeps = λ xs n ys e h. ground (arith, resized-keeps xs n h);
}

-- Three bytes, 1, 2 and 3, around the end of an area of five.
abbrev circle : ByteBuffer
circle = record {
  buf = 3 ∷ 0 ∷ 0 ∷ 1 ∷ 2 ∷ [];
  read_head = pos 3;
  write_head = pos 1;
  size = 3;
  capacity = 5;
}

circle-IsFixed : IsFixed circle 3
circle-IsFixed = record {
  read_at = refl;
  write_at = refl;
  area = refl;
  small = omega arith;
  read_in = omega arith;
  size_in = omega arith;
}

-- Two of four bytes used.
abbrev dynamic : ByteBuffer
dynamic = record {
  buf = 5 ∷ 6 ∷ 0 ∷ 0 ∷ [];
  read_head = negsuc 0;
  write_head = negsuc 0;
  size = 2;
  capacity = 4;
}

dynamic-IsDynamic : IsDynamic dynamic
dynamic-IsDynamic = record {
  no_read_head = refl;
  no_write_head = refl;
  area = refl;
  size_in = omega arith;
  small = omega arith;
}

bytebuf_write-IsFixed_example :
    (b' : ByteBuffer) × (bytebuf_write test_heap circle (8 ∷ 9 ∷ []) ≡ ok b')
    × IsFixed b' 3
    × (contents b' 3 ≡ 1 ∷ 2 ∷ 3 ∷ 8 ∷ 9 ∷ [])
    × (b'.size ≡ 5)
    × (b'.capacity ≡ 5)
unfolding rotate
bytebuf_write-IsFixed_example =
    bytebuf_write-IsFixed test_heap circle 3 (8 ∷ 9 ∷ []) circle-IsFixed (omega arith)

bytebuf_read-IsFixed_example :
    (b' : ByteBuffer) × (r' : ℕ) × (bytebuf_read circle 2 true ≡ ok (1 ∷ 2 ∷ [], 2, b'))
    × IsFixed b' r'
    × (contents b' r' ≡ 3 ∷ [])
unfolding rotate
bytebuf_read-IsFixed_example = bytebuf_read-IsFixed circle 3 2 true circle-IsFixed

bytebuf_prepend-IsFixed_example :
    (b' : ByteBuffer) × (r' : ℕ) × (bytebuf_prepend test_heap circle (8 ∷ 9 ∷ []) ≡ ok b')
    × IsFixed b' r'
    × (contents b' r' ≡ stored (circle.capacity - r') (8 ∷ 9 ∷ []) ++ (1 ∷ 2 ∷ 3 ∷ []))
    × (b'.size ≡ 5)
    × (b'.capacity ≡ 5)
    × (r' ≡ 1)
unfolding rotate
bytebuf_prepend-IsFixed_example =
    bytebuf_prepend-IsFixed test_heap circle 3 (8 ∷ 9 ∷ []) circle-IsFixed (omega arith)

bytebuf_write-IsDynamic_example :
    (b' : ByteBuffer) × (bytebuf_write test_heap dynamic (7 ∷ 8 ∷ 9 ∷ []) ≡ ok b')
    × IsDynamic b'
    × (held b' ≡ 5 ∷ 6 ∷ 7 ∷ 8 ∷ 9 ∷ [])
    × (b'.size ≡ 5)
bytebuf_write-IsDynamic_example =
    bytebuf_write-IsDynamic test_heap dynamic (7 ∷ 8 ∷ 9 ∷ []) (λ zs m. (resized m zs, refl))
      dynamic-IsDynamic (omega arith) (omega arith)

bytebuf_read-IsDynamic_example :
    (b' : ByteBuffer) × (bytebuf_read dynamic 1 true ≡ ok (5 ∷ [], 1, b'))
    × IsDynamic b'
    × (held b' ≡ 6 ∷ [])
bytebuf_read-IsDynamic_example = bytebuf_read-IsDynamic dynamic 1 dynamic-IsDynamic

get_regions-contents_example :
    (regions : List BufferRegion) × (get_regions circle 2 false (pos 0) ≡ ok (regions, 3))
    × (region_bytes circle.buf regions ≡ 1 ∷ 2 ∷ 3 ∷ [])
unfolding rotate
get_regions-contents_example =
    get_regions-contents circle 3 circle-IsFixed (λ full. absurd (omega (arith, full)))

-- The same area, full.
abbrev full_circle : ByteBuffer
full_circle = record circle { write_head = pos 3; size = 5 }

full_circle-IsFixed : IsFixed full_circle 3
full_circle-IsFixed = record {
  read_at = refl;
  write_at = refl;
  area = refl;
  small = omega arith;
  read_in = omega arith;
  size_in = omega arith;
}

get_regions-full_example :
    (get_regions full_circle 2 false (pos 0)
      ≡ ok (record { start = pos 3; size = 2 } ∷ record { start = pos 0; size = 5 } ∷ [], 7))
    × (5 < 7)
get_regions-full_example = get_regions-full full_circle 3 full_circle-IsFixed refl (omega arith)

-- Nothing, at index 1 of six.
abbrev vacant_six : ByteBuffer
vacant_six = record {
  buf = 0 ∷ 0 ∷ 0 ∷ 0 ∷ 0 ∷ 0 ∷ [];
  read_head = pos 1;
  write_head = pos 1;
  size = 0;
  capacity = 6;
}

vacant_six-IsFixed : IsFixed vacant_six 1
vacant_six-IsFixed = record {
  read_at = refl;
  write_at = refl;
  area = refl;
  small = omega arith;
  read_in = omega arith;
  size_in = omega arith;
}

bytebuf_write_buffer-IsFixed_example :
    (d' : ByteBuffer) × (bytebuf_write_buffer test_heap vacant_six circle ≡ ok d')
    × IsFixed d' 1
    × (contents d' 1 ≡ 1 ∷ 2 ∷ 3 ∷ [])
    × (d'.size ≡ 3)
unfolding rotate
bytebuf_write_buffer-IsFixed_example =
    bytebuf_write_buffer-IsFixed test_heap vacant_six circle 1 3 vacant_six-IsFixed circle-IsFixed
      (λ full. absurd (omega (arith, full))) (omega arith) (omega arith)
