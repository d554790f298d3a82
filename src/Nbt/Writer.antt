-- ===== src/Nbt/Writer.antt =====
-- The half of data/nbt/serial.c that writes: the bytes that `iomux_write` is given, in order.
use mcsrv.Common.{
  ℕ, zero, suc, ◌+◌, ◌*◌, ◌/◌, ◌%◌, ◌^◌, Bool, true, not, ◌||◌, List, [], ◌∷◌, ◌++◌, Option, none,
  some, ◌==◌, ltb, if◌then◌else◌, length, take,
}
use mcsrv.Common.Outcome.{Outcome, ok, stuck, ◌>>=◌}
use mcsrv.Nbt.{Nbt, NbtTag, NbtStatus, okay, io, is_not_array, change, drop_last}
use mcsrv.Nbt.TagType
use mcsrv.Nbt.Tree.{tag_at}
use mcsrv.Net.Encode.{swap_bytes}
use mcsrv.Vector.{Vector, vect_init, vect_add, vect_ref, pred32}
use mcsrv.Vector.Blocks.{load_at}

-- The size is an i32.
pub record NbtTagMetadata : Type 0 where
  pub type : ℕ
  pub size : ℕ
  pub idx : ℕ

-- The lowest `size` bytes of a number, as they lie in memory.
unfoldable pub to_bytes : ℕ → ℕ → List ℕ
to_bytes zero n = []
to_bytes (suc size) n = n % 2 ^ 8 ∷ to_bytes size (n / 2 ^ 8)

-- The bytes of `hton16`, `hton32` and `hton64`.
abbrev pub hton : ℕ → ℕ → List ℕ
hton size n = swap_bytes (to_bytes size n)

-- The length of a string as far as a u16 holds it.
abbrev pub clamped : List ℕ → ℕ
clamped str = if ltb 65535 (length str) then 65535 else length str

unfoldable pub write_string : List ℕ → List ℕ
write_string str = hton 2 (clamped str) ++ take (clamped str) str

-- The place of the last element, or NULL, and what is behind it.
unfoldable pub last_meta : Vector NbtTagMetadata → Outcome (Option ((ℕ × ℕ) × NbtTagMetadata))
last_meta stack = do
  at ← vect_ref stack (pred32 stack.size)
  elim at [
    | none ↦ ok none
    | some place ↦ do m ← load_at stack.blocks place.0 place.1; ok (some (place, m))
  ]

abbrev pub named : Option ((ℕ × ℕ) × NbtTagMetadata) → Bool
named none = true
named (some p) = is_not_array p.1.type

-- `parent->size--`
unfoldable pub count_down :
    Vector NbtTagMetadata → Option ((ℕ × ℕ) × NbtTagMetadata) → Outcome (Vector NbtTagMetadata)
count_down stack none = ok stack
count_down stack (some p) = change stack p.0 (λ m. record m { size = pred32 m.size })

-- The value of a tag that opens no level.
unfoldable pub write_simple : NbtTag → List ℕ
write_simple tag =
    if tag.type == TagType.byte
    then to_bytes 1 tag.value.word0
    else if tag.type == TagType.short
    then hton 2 tag.value.word0
    else if tag.type == TagType.float || tag.type == TagType.int
    then hton 4 tag.value.word0
    else if tag.type == TagType.double || tag.type == TagType.long
    then hton 8 (tag.value.word0 + tag.value.word1 * 2 ^ 32)
    else if tag.type == TagType.string
    then write_string tag.value.str
    else []

-- Lists and arrays keep the size at the same place, for the code that writes it.
abbrev pub is_sized : ℕ → Bool
is_sized type =
    type == TagType.list
    || type == TagType.byte_array
    || type == TagType.int_array
    || type == TagType.long_array

-- What a tag writes of itself, and the level that it opens.
unfoldable pub write_value : NbtTag → List ℕ × Option NbtTagMetadata
write_value tag =
    let sized = hton 4 tag.value.word2 in
    if tag.type == TagType.compound
    then ([], some (record { type = tag.type; size = tag.value.word1; idx = 0 }))
    else if is_sized tag.type
    then (
      if tag.type == TagType.list then tag.value.word0 % 2 ^ 8 ∷ sized else sized,
      some (record { type = tag.type; size = tag.value.word2; idx = 0 }),
    )
    else (write_simple tag, none)

module _ (uninit : NbtTagMetadata) where
  unfoldable pub opened :
      Vector NbtTagMetadata → Option NbtTagMetadata → Outcome (Vector NbtTagMetadata)
  opened stack none = ok stack
  opened stack (some m) = vect_add uninit stack m

  unfoldable pub nbt_write_tag :
      Nbt → Vector NbtTagMetadata → ℕ → Outcome (List ℕ × Vector NbtTagMetadata)
  nbt_write_tag nbt stack current_index = do
    parent ← last_meta stack
    at ← vect_ref nbt.tags current_index
    tag ← tag_at nbt at
    let head = (if named parent then tag.type % 2 ^ 8 ∷ write_string tag.name else [])
    let (bytes, level) = write_value tag
    counted ← count_down stack parent
    stack' ← opened counted level
    ok (head ++ bytes, stack')

  -- The levels whose tags are all written are closed.
  unfoldable pub close_rounds : ℕ → Vector NbtTagMetadata → Outcome (List ℕ × Vector NbtTagMetadata)
  close_rounds zero stack = stuck
  close_rounds (suc fuel) stack = do
    parent ← last_meta stack
    elim parent [
      | none ↦ ok ([], stack)
      | some p ↦ if not (p.1.size == 0) then ok ([], stack) else do
        (popped, stack1) ← drop_last stack
        (bytes, stack2) ← close_rounds fuel stack1
        ok ((if p.1.type == TagType.compound then 0 ∷ [] else []) ++ bytes, stack2)
    ]

  -- The tags from `i` on, of which `left` are left.
  unfoldable pub write_rounds : ℕ → ℕ → Nbt → Vector NbtTagMetadata → Outcome (List ℕ)
  write_rounds zero i nbt stack = ok []
  write_rounds (suc left) i nbt stack = do
    (bytes, stack1) ← nbt_write_tag nbt stack i
    (ends, stack2) ← close_rounds (suc stack1.size) stack1
    rest ← write_rounds left (i + 1) nbt stack2
    ok (bytes ++ ends ++ rest)

  -- `opens` says whether the file can be opened.
  unfoldable pub nbt_write : Bool → Nbt → Outcome (NbtStatus × List ℕ)
  nbt_write opens nbt =
      if not opens
      then ok (io, [])
      else do bytes ← write_rounds nbt.tags.size 0 nbt (vect_init uninit 512); ok (okay, bytes)
