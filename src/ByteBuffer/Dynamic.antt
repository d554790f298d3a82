-- ===== src/ByteBuffer/Dynamic.antt =====
-- Dynamic buffers: when their growth ends, and that they queue bytes without a bound.
use mcsrv.Common.{
  ℕ, zero, suc, ◌+◌, ◌-◌, ◌/◌, ◌^◌, ◌≤◌, ◌<◌, ◌≡◌, refl, min, true, false, some, List, ◌++◌, ltb,
  leb, if◌then◌else◌, length, take, drop, splice, ap, get_elem?, arith, length-take, length-splice,
  ext, Bool-cases, inl, inr, memcpy-ok, load-ok, length-take-drop, splice, get_elem?-take,
  get_elem?-drop, get_elem?-append, get_elem?-splice, get_elem?-beyond,
}
use mcsrv.Common.Int.{negsuc, add64}
use mcsrv.Common.Outcome.{ok, stuck}
use mcsrv.ByteBuffer.Defs.{
  ByteBuffer, Heap, is_negative, is_fixed, grow_cap, ensure_capacity, bytebuf_write,
  bytebuf_read_const, bytebuf_register_write, bytebuf_register_read,
}
use mcsrv.ByteBuffer.Ops.{bytebuf_read}

-- From a capacity of at least 2 the growth loop ends, within one round more than the bytes that
-- are missing, at a capacity that holds the size asked for and is no smaller than before.
grow_cap-ok :
    (fuel new_cap size : ℕ)
    → 2 ≤ new_cap
    → new_cap < 2 ^ 63
    → size < 2 ^ 62
    → size < fuel + new_cap
    → 0 < fuel
    → (c : ℕ) × (grow_cap fuel new_cap size ≡ ok c) × (size ≤ c) × (new_cap ≤ c) × (c < 2 ^ 63)
unfolding grow_cap
grow_cap-ok zero c size lo hi small enough some_fuel = absurd (omega arith)
grow_cap-ok (suc fuel) c size lo hi small enough some_fuel = elim (Bool-cases (ltb c size)) [
  | inl more ↦
      let (d, e, f, g, h) =
        grow_cap-ok fuel (add64 c (c / 2)) size (ground arith) (ground arith) small (ground arith)
          (ground arith) in
      (d, rw more e, f, ground arith, h)
  | inr done ↦ (c, rw done, ground arith, omega arith, hi)
]

-- From a capacity of 0 or 1 below the size asked for, the growth loop never ends, however many
-- rounds it is given.
grow_cap-stuck :
    (fuel new_cap size : ℕ) → new_cap ≤ 1 → new_cap < size → grow_cap fuel new_cap size ≡ stuck
unfolding grow_cap
grow_cap-stuck zero c size h lt = refl
grow_cap-stuck (suc fuel) c size h lt = ground (arith, grow_cap-stuck fuel (add64 c (c / 2)) size)

pub record IsDynamic (b : ByteBuffer) : Type 0 where
  pub no_read_head : b.read_head ≡ negsuc 0
  pub no_write_head : b.write_head ≡ negsuc 0
  pub area : length b.buf ≡ b.capacity
  pub size_in : b.size ≤ b.capacity
  pub small : b.capacity < 2 ^ 63

abbrev pub held : ByteBuffer → List ℕ
held b = take b.size b.buf

is_fixed-IsDynamic : (b : ByteBuffer) → IsDynamic b → is_fixed b ≡ false
unfolding is_fixed is_negative
is_fixed-IsDynamic b v = rw v.no_read_head

-- Enough room, with the bytes held as before.
record Room (b : ByteBuffer) (n : ℕ) (b' : ByteBuffer) : Type 0 where
  valid : IsDynamic b'
  room : n ≤ b'.capacity
  size_kept : b'.size ≡ b.size
  bytes : held b' ≡ held b

take_of_front :
    (n : ℕ) (xs ys : List ℕ) → n ≤ length xs → take (length xs) ys ≡ xs → take n ys ≡ take n xs
take_of_front n xs ys h e = ext _ _ λ i. ground (
  arith,
  get_elem?-take n ys i,
  get_elem?-take n xs i,
  ap (λ zs. get_elem? zs i) e,
  get_elem?-take (length xs) ys i,
)

append_at :
    (buf xs : List ℕ) (n : ℕ)
    → n + length xs ≤ length buf
    → take (n + length xs) (splice buf n xs) ≡ take n buf ++ xs
append_at buf xs n h = ext _ _ λ i. ground (
  arith,
  get_elem?-take (n + length xs) (splice buf n xs) i,
  get_elem?-splice buf n xs i,
  get_elem?-append (take n buf) xs i,
  get_elem?-take n buf i,
  length-take n buf,
  get_elem?-beyond xs (i - n),
)

module _ (heap : Heap) where
  ensure-fits : (b : ByteBuffer) (n : ℕ) → n ≤ b.capacity → ensure_capacity heap b n ≡ ok b
  unfolding ensure_capacity
  ensure-fits b n h = ground arith

  -- Where `realloc` gives memory, room is found.
  ensure-Room :
      (b : ByteBuffer) (n : ℕ)
      → ((xs : List ℕ) (m : ℕ) → (ys : List ℕ) × (heap.realloc xs m ≡ some ys))
      → IsDynamic b
      → 2 ≤ b.capacity
      → n < 2 ^ 62
      → (b' : ByteBuffer) × (ensure_capacity heap b n ≡ ok b') × Room b n b'
  unfolding ensure_capacity
  ensure-Room b n gives v two small = elim (Bool-cases (leb n b.capacity)) [
    | inl fits ↦ (b, rw fits, ground arith)
    | inr more ↦
        let (c, e, f, g, h) =
          grow_cap-ok (n + 1) b.capacity n two v.small small (omega arith) (omega arith) in
        let (ys, q) = gives b.buf c in
        (
          record b { buf = ys; capacity = c },
          rw (more, is_fixed-IsDynamic b v, e, q),
          record {
            valid = ground (arith, heap.realloc_length b.buf c ys q);
            room = f;
            size_kept = refl;
            bytes =
                take_of_front b.size b.buf ys (omega arith)
                  (heap.realloc_keeps b.buf c ys q (omega arith));
          },
        )
  ]

  abbrev Appended : ByteBuffer → List ℕ → ByteBuffer → Type 0
  Appended b xs b' =
      (bytebuf_write heap b xs ≡ ok b')
      × IsDynamic b'
      × (held b' ≡ held b ++ xs)
      × (b'.size ≡ b.size + length xs)

  write-Room :
      (b c : ByteBuffer) (xs : List ℕ)
      → b.size + length xs < 2 ^ 62
      → ensure_capacity heap b (add64 b.size (length xs)) ≡ ok c
      → Room b (add64 b.size (length xs)) c
      → Appended b xs (record c { buf = splice c.buf c.size xs; size = c.size + length xs })
  unfolding bytebuf_write bytebuf_register_write
  write-Room b c xs small e room = (
    ground (
      arith,
      e,
      fits,
      is_fixed-IsDynamic c room.valid,
      memcpy-ok c.buf c.size xs,
      ensure-fits (record c { buf = splice c.buf c.size xs }) (add64 c.size (length xs)),
      is_fixed-IsDynamic (record c { buf = splice c.buf c.size xs }) spliced,
    ),
    ground (arith, room.valid, fits, area),
    ground (arith, append_at c.buf xs c.size, fits, room.valid, room.bytes),
    omega (arith, room.size_kept),
  )
    where
      fits : c.size + length xs ≤ length c.buf
      fits = omega (arith, room.valid.area, room.room, room.size_kept)

      area : length (splice c.buf c.size xs) ≡ length c.buf
      area = length-splice c.buf c.size xs fits

      spliced : IsDynamic (record c { buf = splice c.buf c.size xs })
      spliced = ground (arith, room.valid, area)

  -- Where `realloc` gives memory, a write into a dynamic buffer of capacity at least 2 succeeds
  -- and appends the data.
  pub bytebuf_write-IsDynamic :
      (b : ByteBuffer) (xs : List ℕ)
      → ((zs : List ℕ) (m : ℕ) → (ys : List ℕ) × (heap.realloc zs m ≡ some ys))
      → IsDynamic b
      → 2 ≤ b.capacity
      → b.size + length xs < 2 ^ 62
      → (b' : ByteBuffer) × (bytebuf_write heap b xs ≡ ok b')
        × IsDynamic b'
        × (held b' ≡ held b ++ xs)
        × (b'.size ≡ b.size + length xs)
  bytebuf_write-IsDynamic b xs gives v two small =
      let (c, e, room) = ensure-Room b (add64 b.size (length xs)) gives v two (omega arith) in
      let (p, q, r, s) = write-Room b c xs small e room in
      (record c { buf = splice c.buf c.size xs; size = c.size + length xs }, p, q, r, s)

-- A read from a dynamic buffer takes the oldest bytes and moves the rest to the front.
pub bytebuf_read-IsDynamic :
    (b : ByteBuffer) (n : ℕ)
    → IsDynamic b
    → (b' : ByteBuffer) × (bytebuf_read b n true ≡ ok (take n (held b), min n b.size, b'))
      × IsDynamic b'
      × (held b' ≡ drop n (held b))
unfolding bytebuf_read bytebuf_read_const bytebuf_register_read
bytebuf_read-IsDynamic b n v = (
  record shifted { size = b.size - k },
  ground (
    arith,
    is_fixed-IsDynamic b v,
    is_fixed-IsDynamic shifted valid,
    load-ok b.buf 0 k,
    load-ok b.buf k (b.size - k),
    memcpy-ok b.buf 0 (take (b.size - k) (drop k b.buf)),
    length-take-drop b.buf k (b.size - k),
    taken,
  ),
  ground (arith, valid),
  ext _ _ λ i. ground (
    arith,
    get_elem?-take (b.size - k) (splice b.buf 0 (take (b.size - k) (drop k b.buf))) i,
    get_elem?-splice b.buf 0 (take (b.size - k) (drop k b.buf)) i,
    length-take-drop b.buf k (b.size - k),
    get_elem?-take (b.size - k) (drop k b.buf) i,
    get_elem?-drop k b.buf i,
    get_elem?-drop n (held b) i,
    get_elem?-take b.size b.buf (n + i),
    get_elem?-beyond b.buf (n + i),
  ),
)
  where
    k : ℕ
    k = if ltb b.size n then b.size else n

    shifted : ByteBuffer
    shifted = record b { buf = splice b.buf 0 (take (b.size - k) (drop k b.buf)) }

    valid : IsDynamic shifted
    valid = ground (
      arith,
      length-take-drop b.buf k (b.size - k),
      length-splice b.buf 0 (take (b.size - k) (drop k b.buf)),
    )

    taken : take k b.buf ≡ take n (held b)
    taken = ext _ _ λ i. ground (
      arith,
      get_elem?-take k b.buf i,
      get_elem?-take n (held b) i,
      get_elem?-take b.size b.buf i,
    )
