-- ===== src/StrBuilder/Tests.antt =====
-- A builder that holds two characters, in an area of four.
use mcsrv.Common.{ℕ, ◌≡◌, refl, true, List, [], ◌∷◌, ◌++◌, arith}
use mcsrv.Common.Outcome.{ok}
use mcsrv.StrBuilder.{StringBuilder, strbuild_append, strbuild_to_string}
use mcsrv.StrBuilder.Text.{strbuild_to_string-append}
use mcsrv.Vector.Append.{IsValid}
use mcsrv.Vector.Blocks.{flat}

abbrev builder : StringBuilder
builder = record {
  chars = record {
    blocks = (104 ∷ 101 ∷ 0 ∷ 0 ∷ []) ∷ [];
    current = 0;
    next_insert_index = 2;
    capacity = 4;
    size = 2;
    arena = true;
  };
}

builder-IsValid : IsValid builder.chars [] (104 ∷ 101 ∷ 0 ∷ 0 ∷ [])
unfolding flat
builder-IsValid = record {
  chain = refl;
  at_last = refl;
  room = omega arith;
  filled = refl;
  area = refl;
  grows = omega arith;
}

strbuild_to_string-append_example :
    (b' : StringBuilder) × (text : List ℕ) × (front' : List (List ℕ)) × (last' : List ℕ)
    × (strbuild_to_string builder ≡ ok text)
    × (strbuild_append 0 builder (108 ∷ 108 ∷ 111 ∷ []) ≡ ok b')
    × (strbuild_to_string b' ≡ ok (text ++ (108 ∷ 108 ∷ 111 ∷ [])))
    × IsValid b'.chars front' last'
strbuild_to_string-append_example =
    strbuild_to_string-append 0 8 builder (108 ∷ 108 ∷ 111 ∷ []) [] (104 ∷ 101 ∷ 0 ∷ 0 ∷ [])
      builder-IsValid refl (omega arith) (omega arith) (omega arith)
