-- ===== src/Nbt/RoundTripTests.antt =====
-- A short in a compound, written, and read from a file that is the list of its bytes.
use mcsrv.Common.{ℕ, ◌≡◌, refl, true, List, [], ◌∷◌, some, arith, take, drop}
use mcsrv.Common.Outcome.{ok, ◌>>=◌}
use mcsrv.Nbt.{Nbt, NbtTag, no_value, is_not_array, change}
use mcsrv.Nbt.Tree.{NbtMemory, tag_at}
use mcsrv.Nbt.Writer.{
  NbtTagMetadata, last_meta, count_down, nbt_write_tag, write_value, write_simple, write_string,
  to_bytes, opened,
}
use mcsrv.Nbt.Reader.{Source, NbtReadContext, parse_type, nbt_parse_tag}
use mcsrv.Nbt.RoundTrip.{short, plain_tag, Writes, nbt_parse_tag-write_tag}
use mcsrv.Net.Encode.{swap_bytes}
use mcsrv.Vector.{Vector, vect_ref}
use mcsrv.Vector.Append.{IsValid, contents}
use mcsrv.Vector.Blocks.{load_at, flat, store_at, slot, get_block_from_index}

abbrev file : Source (List ℕ)
file = record {
  gzread = λ s n. (take n s, drop n s);
  bytes = λ s. s;
  copied = λ s n h. refl;
  left = λ s n h. refl;
}

abbrev root : NbtTag
root = record { type = 10; value = record no_value { word0 = 2; word1 = 1 }; name = [] }

-- "n" is 258.
abbrev number : NbtTag
number = plain_tag (short 258) (110 ∷ [])

abbrev vector : {A : Type 0} → List A → ℕ → Vector A
vector area size = record {
  blocks = area ∷ [];
  current = 0;
  next_insert_index = size;
  capacity = 4;
  size = size;
  arena = true;
}

abbrev level : ℕ → NbtTagMetadata
level size = record { type = 10; size = size; idx = 0 }

abbrev written : Nbt
written = record {
  tags = vector (root ∷ number ∷ root ∷ root ∷ []) 2;
  stack = vector (0 ∷ 0 ∷ 0 ∷ 0 ∷ []) 1;
}

abbrev levels : ℕ → Vector NbtTagMetadata
levels size = vector (level size ∷ level 0 ∷ level 0 ∷ level 0 ∷ []) 1

abbrev memory : NbtMemory
memory = record { tag = root; index = 0 }

abbrev context : NbtReadContext
context = record {
  stack = levels 0;
  nbt = record {
    tags = vector (root ∷ root ∷ root ∷ root ∷ []) 1;
    stack = vector (0 ∷ 0 ∷ 0 ∷ 0 ∷ []) 1;
  };
}

number-Writes : Writes written (levels 1) (levels 0) 1 number
unfolding last_meta vect_ref get_block_from_index load_at slot store_at count_down change
    is_not_array tag_at
number-Writes = record {
  parent = some ((0, 0), level 1);
  top = refl;
  has_name = refl;
  less = refl;
  at = (0, 1);
  found = refl;
  held = refl;
}

context-IsValid : IsValid context.nbt.tags [] (root ∷ root ∷ root ∷ root ∷ [])
unfolding flat
context-IsValid = record {
  chain = refl;
  at_last = refl;
  room = omega arith;
  filled = refl;
  area = refl;
  grows = omega arith;
}

-- The bytes of the tag: its type, its name and its value.
abbrev bytes : List ℕ
bytes = 2 ∷ 0 ∷ 1 ∷ 110 ∷ 1 ∷ 2 ∷ []

written_bytes : nbt_write_tag (level 0) written (levels 1) 1 ≡ ok (bytes, levels 0)
unfolding nbt_write_tag last_meta vect_ref get_block_from_index load_at slot store_at count_down
    change is_not_array tag_at write_value write_simple write_string to_bytes swap_bytes opened
written_bytes = refl

nbt_parse_tag-write_tag_example :
    (nbt' : Nbt) × (fd' : List ℕ) × ((do
      (type, fd1) ← parse_type file 0 context (2 ∷ 0 ∷ 1 ∷ 110 ∷ 1 ∷ 2 ∷ 0 ∷ [])
      nbt_parse_tag file 0 memory (level 0) context type fd1)
      ≡ ok (true, record context { nbt = nbt' }, fd'))
    × (contents nbt'.tags ≡ root ∷ number ∷ [])
    × (fd' ≡ 0 ∷ [])
unfolding last_meta vect_ref get_block_from_index load_at slot is_not_array flat
nbt_parse_tag-write_tag_example =
    nbt_parse_tag-write_tag file 0 memory (level 0) (short 258) (110 ∷ []) written (levels 1)
      (levels 0) 1 context (some ((0, 0), level 0)) [] (root ∷ root ∷ root ∷ root ∷ [])
      (2 ∷ 0 ∷ 1 ∷ 110 ∷ 1 ∷ 2 ∷ 0 ∷ []) bytes (0 ∷ []) (omega arith) (omega arith) number-Writes
      written_bytes refl refl context-IsValid (omega arith) refl refl
