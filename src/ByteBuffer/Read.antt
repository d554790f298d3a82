-- ===== src/ByteBuffer/Read.antt =====
-- What `bytebuf_read` and `bytebuf_peek` take from a fixed buffer.
use mcsrv.Common.{
  ℕ, ◌+◌, ◌-◌, ◌≤◌, ◌<◌, ◌≡◌, min, Bool, true, false, List, [], ◌++◌, ltb, if◌then◌else◌, length,
  take, drop, rotate, rem, arith, length-take, length-drop, ext, get_elem?-take, get_elem?-rotate,
  get_elem?-append, get_elem?-drop, get_elem?-beyond, load-ok, add-mod-wrap, window-drop,
  append-nil, length-rotate,
}
use mcsrv.Common.Int.{pos}
use mcsrv.Common.Outcome.{ok}
use mcsrv.ByteBuffer.Defs.{ByteBuffer, bytebuf_read_const, bytebuf_register_read}
use mcsrv.ByteBuffer.Ops.{bytebuf_read, bytebuf_peek}
use mcsrv.ByteBuffer.Fixed.{IsFixed, contents}
use mcsrv.ByteBuffer.Write.{is_fixed-IsFixed}

pub two_loads :
    (buf : List ℕ) (r k t : ℕ)
    → r < length buf
    → k ≤ length buf
    → t ≡ min k (length buf - r)
    → take t (drop r buf) ++ take (k - t) buf ≡ take k (rotate r buf)
two_loads buf r k t hr hk e = ext _ _ λ i. ground (
  arith,
  get_elem?-append (take t (drop r buf)) (take (k - t) buf) i,
  length-take t (drop r buf),
  length-drop r buf,
  get_elem?-take t (drop r buf) i,
  get_elem?-drop r buf i,
  get_elem?-take (k - t) buf (i - t),
  get_elem?-take k (rotate r buf) i,
  get_elem?-rotate r buf i,
)

pub one_load :
    (buf : List ℕ) (r k : ℕ) → r + k ≤ length buf → take k (drop r buf) ≡ take k (rotate r buf)
one_load buf r k h = ext _ _ λ i. ground (
  arith,
  get_elem?-take k (drop r buf) i,
  get_elem?-drop r buf i,
  get_elem?-take k (rotate r buf) i,
  get_elem?-rotate r buf i,
)

read_const-fixed :
    (b : ByteBuffer) (r k : ℕ)
    → IsFixed b r
    → k ≤ b.capacity
    → bytebuf_read_const b k ≡ ok (take k (rotate r b.buf), min k (b.capacity - r))
unfolding bytebuf_read_const
read_const-fixed b r k v h = ground (
  arith,
  is_fixed-IsFixed b r v,
  load-ok b.buf r (min k (b.capacity - r)),
  load-ok b.buf 0 (k - min k (b.capacity - r)),
  two_loads b.buf r k (min k (b.capacity - r)),
  one_load b.buf r k,
  append-nil (take k (drop r b.buf)),
)

-- The buffer without its `n` first bytes.
abbrev pub advanced : ByteBuffer → ℕ → ℕ → ByteBuffer
advanced b r n = record b {
  read_head = pos (if ltb (r + n) b.capacity then r + n else r + n - b.capacity);
  size = b.size - n;
}

pub advanced-IsFixed :
    (b : ByteBuffer) (r n : ℕ)
    → IsFixed b r
    → n ≤ b.size
    → IsFixed (advanced b r n) (if ltb (r + n) b.capacity then r + n else r + n - b.capacity)
advanced-IsFixed b r n v h = ground arith

pub register_read-fixed :
    (b : ByteBuffer) (r n : ℕ)
    → IsFixed b r
    → bytebuf_register_read b n ≡ ok (advanced b r (min n b.size), min n b.size)
unfolding bytebuf_register_read rem
register_read-fixed b r n v =
    ground (arith, is_fixed-IsFixed b r v, add-mod-wrap r (min n b.size) b.capacity)

pub take-take : (k n : ℕ) (xs : List ℕ) → k ≤ n → take k (take n xs) ≡ take k xs
take-take k n xs h = ext _ _ λ i.
    ground (arith, get_elem?-take k (take n xs) i, get_elem?-take n xs i, get_elem?-take k xs i)

take-min : (n : ℕ) (xs : List ℕ) → take (min n (length xs)) xs ≡ take n xs
take-min n xs = ext _ _ λ i.
    ground
      (arith, get_elem?-take (min n (length xs)) xs i, get_elem?-take n xs i, get_elem?-beyond xs i)

drop-min : (n : ℕ) (xs : List ℕ) → drop (min n (length xs)) xs ≡ drop n xs
drop-min n xs = ext _ _ λ i. ground (
  arith,
  get_elem?-drop (min n (length xs)) xs i,
  get_elem?-drop n xs i,
  get_elem?-beyond xs (length xs + i),
  get_elem?-beyond xs (n + i),
)

pub length-contents : (b : ByteBuffer) (r : ℕ) → IsFixed b r → length (contents b r) ≡ b.size
length-contents b r v = omega (arith, length-take b.size (rotate r b.buf), length-rotate r b.buf)

pub contents-advanced :
    (b : ByteBuffer) (r n : ℕ)
    → IsFixed b r
    → n ≤ b.size
    → contents (advanced b r n) (if ltb (r + n) b.capacity then r + n else r + n - b.capacity)
      ≡ drop n (contents b r)
contents-advanced b r n v h = ground (
  arith,
  window-drop b.buf r b.size n (if ltb (r + n) b.capacity then r + n else r + n - b.capacity),
)

-- A read from a fixed buffer takes the oldest bytes, all there are if fewer than asked for, in
-- order and across the end of the memory area, and leaves the rest. Without `out_data` it drops
-- the same bytes.
pub bytebuf_read-IsFixed :
    (b : ByteBuffer) (r n : ℕ) (wanted : Bool)
    → IsFixed b r
    → (b' : ByteBuffer) × (r' : ℕ) × (bytebuf_read b n wanted
        ≡ ok (if wanted then take n (contents b r) else [], min n b.size, b'))
      × IsFixed b' r'
      × (contents b' r' ≡ drop n (contents b r))
unfolding bytebuf_read
bytebuf_read-IsFixed b r n wanted v = (
  advanced b r k,
  (if ltb (r + k) b.capacity then r + k else r + k - b.capacity),
  called wanted,
  advanced-IsFixed b r k v (omega arith),
  ground (arith, contents-advanced b r k v, drop-min n (contents b r), length-contents b r v),
)
  where
    k : ℕ
    k = min n b.size

    taken : take k (rotate r b.buf) ≡ take n (contents b r)
    taken = ground (
      arith,
      take-take k b.size (rotate r b.buf),
      take-min n (contents b r),
      length-contents b r v,
    )

    called :
        (w : Bool)
        → bytebuf_read b n w ≡ ok (if w then take n (contents b r) else [], k, advanced b r k)
    called true = ground (
      arith,
      is_fixed-IsFixed b r v,
      read_const-fixed b r k v,
      taken,
      register_read-fixed b r k v,
    )
    called false = ground (arith, is_fixed-IsFixed b r v, register_read-fixed b r k v)

-- A peek hands out the same bytes and counts them, and leaves the buffer.
bytebuf_peek-fixed :
    (b : ByteBuffer) (r n : ℕ)
    → IsFixed b r
    → bytebuf_peek b n ≡ ok (take n (contents b r), min n b.size)
unfolding bytebuf_peek
bytebuf_peek-fixed b r n v = ground (
  arith,
  read_const-fixed b r (min n b.size) v,
  take-take (min n b.size) b.size (rotate r b.buf),
  take-min n (contents b r),
  length-contents b r v,
)
