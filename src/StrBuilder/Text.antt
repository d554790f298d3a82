-- ===== src/StrBuilder/Text.antt =====
-- The text of a string builder.
use mcsrv.Common.{
  ℕ, zero, suc, ◌+◌, ◌*◌, ◌^◌, ◌≡◌, ◌≤◌, ◌<◌, refl, ap, sym, ◌∙◌, true, List, [], ◌∷◌, ◌++◌, some,
  length, length-take, length-append, take, drop, get_elem?, arith,
}
use mcsrv.Common.Outcome.{Outcome, ok, abort, fault, stuck, ◌>>=◌}
use mcsrv.StrBuilder.{
  StringBuilder, strbuild_append_buf, strbuild_append, strbuild_to_string, get_rounds,
}
use mcsrv.Vector.{Vector, vect_add}
use mcsrv.Vector.Blocks.{flat, flat-last}
use mcsrv.Vector.Append.{IsValid, contents, vect_get-contents}
use mcsrv.Vector.Growth.{add_all, add_all-IsValid}

-- The elements from an index on.
drop-inside :
    (xs : List ℕ) (i : ℕ)
    → i < length xs
    → (x : ℕ) × (get_elem? xs i ≡ some x) × (drop i xs ≡ x ∷ drop (i + 1) xs)
drop-inside [] i h = absurd (omega (arith, h))
drop-inside (x ∷ xs) zero h = (x, refl, refl)
drop-inside (x ∷ xs) (suc i) h =
    let (y, at, rest) = drop-inside xs i (omega arith) in (y, at, rw (plus_one i) rest)
  where
    plus_one : (i : ℕ) → suc i + 1 ≡ suc (i + 1)
    plus_one i = omega arith

get_rounds-contents :
    (keep : ℕ) (v : Vector ℕ) (front : List (List ℕ)) (last : List ℕ)
    → IsValid v front last
    → (left i : ℕ) → i + left ≤ length (contents v)
    → get_rounds keep v i left ≡ ok (take left (drop i (contents v)))
unfolding get_rounds
get_rounds-contents keep v front last w zero i h = refl
get_rounds-contents keep v front last w (suc left) i h =
    let (x, at, rest) = drop-inside (contents v) i (omega arith) in
    rw
      (
        vect_get-contents v i front last w,
        ◌>>=◌,
        at,
        get_rounds-contents keep v front last w left (i + 1) (omega arith),
        rest,
      )
      refl

length-contents :
    (v : Vector ℕ) (front : List (List ℕ)) (last : List ℕ)
    → IsValid v front last
    → length (contents v) ≡ v.size
length-contents v front last w = omega (
  arith,
  length-take v.size (flat v.blocks),
  w.filled,
  w.room,
  length-append (flat front) last,
  ap length (ap flat w.chain ∙ flat-last front last),
)

take-length : (xs : List ℕ) (n : ℕ) → n ≡ length xs → take n xs ≡ xs
take-length [] zero e = refl
take-length [] (suc n) e = refl
take-length (x ∷ xs) zero e = absurd (omega (arith, e))
take-length (x ∷ xs) (suc n) e = ap (λ ys. x ∷ ys) (take-length xs n (omega (arith, e)))

strbuild_to_string-contents :
    (b : StringBuilder) (front : List (List ℕ)) (last : List ℕ)
    → IsValid b.chars front last
    → strbuild_to_string b ≡ ok (contents b.chars)
unfolding strbuild_to_string
strbuild_to_string-contents b front last w =
    get_rounds-contents 0 b.chars front last w b.chars.size 0
      (omega (arith, length-contents b.chars front last w))
    ∙ ap ok
        (take-length (contents b.chars) b.chars.size (sym (length-contents b.chars front last w)))

strbuild_append_buf-add_all :
    (junk : ℕ) (buf : List ℕ) (b : StringBuilder)
    → strbuild_append_buf junk b buf
      ≡ (do chars ← add_all junk b.chars buf; ok (record b { chars = chars }))
unfolding strbuild_append_buf add_all
strbuild_append_buf-add_all junk [] b = refl
strbuild_append_buf-add_all junk (c ∷ buf) b =
    step (vect_add junk b.chars c)
      (λ v. strbuild_append_buf-add_all junk buf (record b { chars = v }))
  where
    step :
        (m : Outcome (Vector ℕ))
        → ((v : Vector ℕ)
            → strbuild_append_buf junk (record b { chars = v }) buf
              ≡ (do chars ← add_all junk v buf; ok (record b { chars = chars })))
        → (do chars ← m; strbuild_append_buf junk (record b { chars = chars }) buf)
          ≡ (do chars ← (do v ← m; add_all junk v buf); ok (record b { chars = chars }))
    step (ok v) rest = rest v
    step abort rest = refl
    step fault rest = refl
    step stuck rest = refl

-- A valid builder that may grow takes a string, and its text is then the text that it had, and the
-- string behind it; it stays valid. For this there is a limit, of which three times are below 2^32:
-- the capacity is not above it, and three times the length of the new text is not above two times the
-- limit. The arena is taken to have room for the blocks; when it has none, the program aborts.
pub strbuild_to_string-append :
    (junk limit : ℕ) (b : StringBuilder) (str : List ℕ) (front : List (List ℕ)) (last : List ℕ)
    → IsValid b.chars front last
    → b.chars.arena ≡ true
    → 3 * limit < 2 ^ 32
    → b.chars.capacity ≤ limit
    → 3 * (b.chars.size + length str) ≤ 2 * limit
    → (b' : StringBuilder) × (text : List ℕ) × (front' : List (List ℕ)) × (last' : List ℕ)
      × (strbuild_to_string b ≡ ok text)
      × (strbuild_append junk b str ≡ ok b')
      × (strbuild_to_string b' ≡ ok (text ++ str))
      × IsValid b'.chars front' last'
strbuild_to_string-append junk limit b str front last w dynamic small cap fits =
    let (v, front', last', done, w', held) =
      add_all-IsValid junk limit str b.chars front last w dynamic small cap fits in
    (
      record b { chars = v },
      contents b.chars,
      front',
      last',
      strbuild_to_string-contents b front last w,
      strbuild_append_buf-add_all junk str b ∙ rw (done, ◌>>=◌) refl,
      strbuild_to_string-contents (record b { chars = v }) front' last' w' ∙ ap ok held,
      w',
    )
