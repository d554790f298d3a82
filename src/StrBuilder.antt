-- ===== src/StrBuilder.antt =====
-- utils/str_builder.c: a string that is built in a vector of its characters. A char is its byte; the
-- arenas are left out and taken to have room (else arena_allocate aborts), and what format_str makes of a format and its arguments is an argument.
pub mod Text
mod Tests
use mcsrv.Common.{
  ℕ, zero, suc, ◌+◌, ◌-◌, ◌*◌, ◌/◌, ◌%◌, ◌^◌, Bool, true, false, ◌||◌, List, [], ◌∷◌, Option, none,
  some, ◌==◌, leb, ltb, if◌then◌else◌,
}
use mcsrv.Common.Outcome.{Outcome, ok, ◌>>=◌}
use mcsrv.Common.Int.{sub64}
use mcsrv.Vector.{Vector, vect_init_dynamic, vect_add, vect_insert, vect_get}

pub record StringBuilder : Type 0 where
  pub chars : Vector ℕ

-- `junk` is what a new block holds.
module _ (junk : ℕ) where
  abbrev pub strbuild_create : StringBuilder
  strbuild_create = record { chars = vect_init_dynamic junk 512 }

  unfoldable pub strbuild_appendc : StringBuilder → ℕ → Outcome StringBuilder
  strbuild_appendc builder c = do
    chars ← vect_add junk builder.chars (c % 2 ^ 8)
    ok (record builder { chars = chars })

  -- The characters of a buffer, one after the other.
  unfoldable pub strbuild_append_buf : StringBuilder → List ℕ → Outcome StringBuilder
  strbuild_append_buf builder [] = ok builder
  strbuild_append_buf builder (c ∷ buf) = do
    chars ← vect_add junk builder.chars c
    strbuild_append_buf (record builder { chars = chars }) buf

  abbrev pub strbuild_append : StringBuilder → List ℕ → Outcome StringBuilder
  strbuild_append builder str = strbuild_append_buf builder str

  -- Up to the first NUL; one follows the list.
  unfoldable pub strbuild_appends : StringBuilder → List ℕ → Outcome StringBuilder
  strbuild_appends builder [] = ok builder
  strbuild_appends builder (c ∷ cstr) = if c == 0 then ok builder else do
    chars ← vect_add junk builder.chars c
    strbuild_appends (record builder { chars = chars }) cstr

  abbrev pub strbuild_appendf : StringBuilder → List ℕ → Outcome StringBuilder
  strbuild_appendf builder formatted = strbuild_append_buf builder formatted

  unfoldable pub strbuild_insertc : StringBuilder → ℕ → ℕ → Outcome StringBuilder
  strbuild_insertc builder index c = do
    chars ← vect_insert junk builder.chars (c % 2 ^ 8) index
    ok (record builder { chars = chars })

  unfoldable pub strbuild_insert_buf : StringBuilder → ℕ → List ℕ → Outcome StringBuilder
  strbuild_insert_buf builder index [] = ok builder
  strbuild_insert_buf builder index (c ∷ buf) = do
    chars ← vect_insert junk builder.chars c index
    strbuild_insert_buf (record builder { chars = chars }) ((index + 1) % 2 ^ 64) buf

  abbrev pub strbuild_insert : StringBuilder → ℕ → List ℕ → Outcome StringBuilder
  strbuild_insert builder index str = strbuild_insert_buf builder index str

  unfoldable pub strbuild_inserts : StringBuilder → ℕ → List ℕ → Outcome StringBuilder
  strbuild_inserts builder index [] = ok builder
  strbuild_inserts builder index (c ∷ cstr) = if c == 0 then ok builder else do
    chars ← vect_insert junk builder.chars c index
    strbuild_inserts (record builder { chars = chars }) ((index + 1) % 2 ^ 64) cstr

  abbrev pub strbuild_insertf : StringBuilder → ℕ → List ℕ → Outcome StringBuilder
  strbuild_insertf builder index formatted = strbuild_insert_buf builder index formatted

-- `none` is the -1.
abbrev pub strbuild_get : StringBuilder → ℕ → Outcome (Option ℕ)
strbuild_get builder index = vect_get builder.chars index

-- The characters from `i` on, of which `left` are left; where there is none, `keep` is left.
unfoldable pub get_rounds : ℕ → Vector ℕ → ℕ → ℕ → Outcome (List ℕ)
get_rounds keep chars i zero = ok []
get_rounds keep chars i (suc left) = do
  c ← vect_get chars i
  rest ← get_rounds keep chars (i + 1) left
  ok (elim c [ none ↦ keep | some x ↦ x ] ∷ rest)

-- `none` is the -1; `keep` is what the buffer held.
unfoldable pub strbuild_get_range : ℕ → StringBuilder → ℕ → ℕ → Outcome (Option (List ℕ))
strbuild_get_range keep builder begin end =
    if leb builder.chars.size begin || leb builder.chars.size end || ltb end begin
    then ok none
    else do text ← get_rounds keep builder.chars begin (end - begin); ok (some text)

-- The string is allocated with zeros.
unfoldable pub strbuild_to_string : StringBuilder → Outcome (List ℕ)
strbuild_to_string builder = get_rounds 0 builder.chars 0 builder.chars.size
