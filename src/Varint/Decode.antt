-- ===== src/Varint/Decode.antt =====
-- `bytebuf_read_varint` on a fixed buffer: what it reads back, and where it faults.
use mcsrv.Common.{
  ℕ, zero, suc, ◌+◌, ◌-◌, ◌*◌, ◌/◌, ◌%◌, ◌^◌, ◌≤◌, ◌<◌, ◌≡◌, refl, ap, ◌∙◌, Bool-cases, inl, inr,
  List, [], ◌∷◌, ◌++◌, ltb, if◌then◌else◌, load, length, get_elem?, take, drop, rotate, arith, some,
  get_elem?-take, get_elem?-rotate, get_elem?-append, get_elem?-beyond, load-ok, length-append,
  drop-append,
}
use mcsrv.Common.Int.{pos}
use mcsrv.Common.Outcome.{ok, fault}
use mcsrv.ByteBuffer.{ByteBuffer, peek_byte}
use mcsrv.ByteBuffer.Fixed.{IsFixed, contents}
use mcsrv.ByteBuffer.Write.{is_fixed-IsFixed}
use mcsrv.ByteBuffer.Read.{
  register_read-fixed, advanced, advanced-IsFixed, contents-advanced, length-contents,
}
use mcsrv.Varint.{encode_rounds, encode_varint, read_rounds, bytebuf_read_varint}
use mcsrv.Varint.Codec.{encode_varint-length}
use mathlib.Core.Path.{subst}
use native.Mathlib.Nat.{div-add-mod}
use native.Mathlib.Numerals.{towards_suc}

take_one : (buf : List ℕ) (j x : ℕ) → get_elem? buf j ≡ some x → take 1 (drop j buf) ≡ x ∷ []
take_one [] j x e = cc
take_one (y ∷ buf) zero x e = ground arith
take_one (y ∷ buf) (suc j) x e = take_one buf j x e

-- Before the end of the memory area, `peek_byte` finds the byte of the contents.
pub peek_byte-contents :
    (b : ByteBuffer) (r i x : ℕ)
    → IsFixed b r
    → i < b.size
    → r + i < b.capacity
    → get_elem? (contents b r) i ≡ some x
    → peek_byte b i ≡ ok (x ∷ [])
unfolding peek_byte
peek_byte-contents b r i x v h inside e = ground (
  arith,
  is_fixed-IsFixed b r v,
  load-ok b.buf (r + i) 1,
  take_one b.buf (r + i) x,
  get_elem?-take b.size (rotate r b.buf) i,
  get_elem?-rotate r b.buf i,
)

-- A byte that a fixed buffer holds past the end of the memory area, where the contents go on at the
-- front, is peeked at outside the area.
peek_byte-wrapped :
    (b : ByteBuffer) (r i : ℕ)
    → IsFixed b r
    → i < b.size
    → b.capacity ≤ r + i
    → peek_byte b i ≡ fault
unfolding peek_byte load
peek_byte-wrapped b r i v h outside = ground (arith, is_fixed-IsFixed b r v)

next_power : (position : ℕ) → 128 * 2 ^ position ≡ 2 ^ (position + 7)
next_power position = simp towards_suc (omega arith)

-- A number's lowest group and the others, at their weights.
split_group :
    (w position : ℕ) → w % 128 * 2 ^ position + w / 128 * 2 ^ (position + 7) ≡ w * 2 ^ position
split_group w position =
    rw (← next_power position) (omega (arith, ap (λ (n : ℕ). n * 2 ^ position) (div-add-mod w 128)))

low_part : (w p : ℕ) → w * p < 2 ^ 32 → w % 128 * p < 2 ^ 32
low_part w p h = grind (arith, div-add-mod w 128)

-- The bytes `xs` are found from index `i` on.
abbrev pub Spells : ByteBuffer → ℕ → List ℕ → Type 0
Spells b i xs = (j x : ℕ) → get_elem? xs j ≡ some x → peek_byte b (i + j) ≡ ok (x ∷ [])

spell_head :
    (b : ByteBuffer) (i x : ℕ) (xs : List ℕ) → Spells b i (x ∷ xs) → peek_byte b i ≡ ok (x ∷ [])
spell_head b i x xs s = subst (λ k. peek_byte b k ≡ ok (x ∷ [])) (omega arith) (s 0 x refl)

spell_tail : (b : ByteBuffer) (i x : ℕ) (xs : List ℕ) → Spells b i (x ∷ xs) → Spells b (i + 1) xs
spell_tail b i x xs s j y e = subst (λ k. peek_byte b k ≡ ok (y ∷ [])) (omega arith) (s (suc j) y e)

encode_last : (left w i : ℕ) → w < 128 → encode_rounds (suc left) (pos w) i ≡ (w ∷ [], i + 1)
unfolding encode_rounds
encode_last left w i h = ground arith

encode_more :
    (left w i : ℕ)
    → 128 ≤ w
    → (encode_rounds (suc left) (pos w) i).0
      ≡ (w % 128 + 128) ∷ (encode_rounds left (pos (w / 128)) (i + 1)).0
unfolding encode_rounds
encode_more left w i h = ground arith

module _ (b : ByteBuffer) (r : ℕ) (v : IsFixed b r) where
  last_step :
      (k x acc position i : ℕ)
      → peek_byte b i ≡ ok (x ∷ [])
      → x < 128
      → x * 2 ^ position < 2 ^ 32
      → i < b.size
      → read_rounds (suc k) b acc position i
        ≡ ok (pos (i + 1), some (acc + x * 2 ^ position), advanced b r (i + 1))
  unfolding read_rounds
  last_step k x acc position i e small fits room =
      rw e (ground (arith, register_read-fixed b r (i + 1) v))

  inner_step :
      (k g acc position i : ℕ)
      → peek_byte b i ≡ ok ((g + 128) ∷ [])
      → g < 128
      → g * 2 ^ position < 2 ^ 32
      → position + 7 < 32
      → read_rounds (suc k) b acc position i
        ≡ read_rounds k b (acc + g * 2 ^ position) (position + 7) (i + 1)
  unfolding read_rounds
  inner_step k g acc position i e small fits next =
      let low : (g + 128) % 128 ≡ g = omega arith in
      let whole : g * 2 ^ position % 2 ^ 32 ≡ g * 2 ^ position = omega arith in
      rw (e, low, whole) (ground arith)

  read_small :
      (left k w acc position i : ℕ) (xs : List ℕ)
      → xs ≡ (encode_rounds (suc left) (pos w) i).0
      → Spells b i xs
      → w < 128
      → w * 2 ^ position < 2 ^ 32
      → i + length xs ≤ b.size
      → read_rounds (suc k) b acc position i
        ≡ ok (pos (i + length xs), some (acc + w * 2 ^ position), advanced b r (i + length xs))
  read_small left k w acc position i xs e spells h fits room =
      let e' : xs ≡ w ∷ [] = e ∙ ap (λ q. q.0) (encode_last left w i h) in
      let s : Spells b i (w ∷ []) = subst (Spells b i) e' spells in
      rw e'
        (last_step k w acc position i (spell_head b i w [] s) h fits (omega (arith, ap length e')))

  -- The groups of `w`, found from index `i` on, are read back on top of what was read before.
  read_encoded :
      (left k w acc position i : ℕ) (xs : List ℕ)
      → xs ≡ (encode_rounds (suc left) (pos w) i).0
      → Spells b i xs
      → left ≤ k
      → w < 128 ^ suc left
      → position + 7 * left ≤ 21
      → w * 2 ^ position < 2 ^ 32
      → i + length xs ≤ b.size
      → read_rounds (suc k) b acc position i
        ≡ ok (pos (i + length xs), some (acc + w * 2 ^ position), advanced b r (i + length xs))
  read_encoded zero k w acc position i xs e spells lk h bound fits room =
      read_small 0 k w acc position i xs e spells h fits room
  read_encoded (suc left) zero w acc position i xs e spells lk h bound fits room =
      absurd (omega arith)
  read_encoded (suc left) (suc k) w acc position i xs e spells lk h bound fits room =
      elim (Bool-cases (ltb w 128)) [
        | inl small ↦
            read_small (suc left) (suc k) w acc position i xs e spells (ground arith) fits room
        | inr large ↦
            let ys = (encode_rounds (suc left) (pos (w / 128)) (i + 1)).0 in
            let e' : xs ≡ (w % 128 + 128) ∷ ys = e ∙ encode_more (suc left) w i (ground arith) in
            let s : Spells b i ((w % 128 + 128) ∷ ys) = subst (Spells b i) e' spells in
            let split = split_group w position in
            let step =
              inner_step (suc k) (w % 128) acc position i (spell_head b i (w % 128 + 128) ys s)
                (omega arith) (low_part w (2 ^ position) fits) (omega arith) in
            let rest =
              read_encoded left k (w / 128) (acc + w % 128 * 2 ^ position) (position + 7) (i + 1) ys
                refl (spell_tail b i (w % 128 + 128) ys s) (omega arith) (omega arith) (omega arith)
                (omega (arith, split)) (omega (arith, ap length e')) in
            step ∙ ground (arith, rest, split, ap length e')
      ]

  Spells-front :
      (xs rest : List ℕ) → contents b r ≡ xs ++ rest → r + length xs ≤ b.capacity → Spells b 0 xs
  Spells-front xs rest e fits j x at =
      subst (λ k. peek_byte b k ≡ ok (x ∷ [])) (omega arith)
        (peek_byte-contents b r j x v (inside (j, x) at) (omega (arith, short j x at))
          (ground (arith, ap (λ zs. get_elem? zs j) e, get_elem?-append xs rest j, short j x at)))
    where
      short : (j x : ℕ) → get_elem? xs j ≡ some x → j < length xs
      short j x at = ground (arith, get_elem?-beyond xs j)

      inside : (p : ℕ × ℕ) → get_elem? xs p.0 ≡ some p.1 → p.0 < b.size
      inside (j, x) at =
          omega (arith, short j x at, length-contents b r v, ap length e, length-append xs rest)

  -- A number below 2^28 whose encoding stands at the front of a fixed buffer, before the end of
  -- the memory area, is read back; the bytes of the encoding are counted and taken away.
  pub bytebuf_read_varint-encoded :
      (n : ℕ) (rest : List ℕ)
      → n < 2 ^ 28
      → contents b r ≡ (encode_varint (pos n)).0 ++ rest
      → r + (encode_varint (pos n)).1 ≤ b.capacity
      → (b' : ByteBuffer) × (r' : ℕ) × (bytebuf_read_varint b
          ≡ ok (pos (encode_varint (pos n)).1, some n, b'))
        × IsFixed b' r'
        × (contents b' r' ≡ rest)
        × (r' ≤ r + (encode_varint (pos n)).1)
        × (b'.capacity ≡ b.capacity)
  unfolding bytebuf_read_varint
  bytebuf_read_varint-encoded n rest h e fits = (
    advanced b r k,
    (if ltb (r + k) b.capacity then r + k else r + k - b.capacity),
    read,
    advanced-IsFixed b r k v room,
    contents-advanced b r k v room ∙ ap (drop k) e ∙ (rw (← count) (drop-append xs rest)),
    ground arith,
    refl,
  )
    where
      xs : List ℕ
      xs = (encode_varint (pos n)).0

      k : ℕ
      k = (encode_varint (pos n)).1

      count : length xs ≡ k
      count = (encode_varint-length n h).0

      room : k ≤ b.size
      room = omega (arith, count, length-contents b r v, ap length e, length-append xs rest)

      read : read_rounds 5 b 0 0 0 ≡ ok (pos k, some n, advanced b r k)
      read =
          let whole =
            read_encoded 3 4 n 0 0 0 xs (unfold encode_varint in refl)
              (Spells-front xs rest e (omega (arith, count))) (omega arith) (omega arith)
              (omega arith) (omega arith) (omega (arith, count, room)) in
          ground (arith, whole, count)
