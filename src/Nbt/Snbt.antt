-- ===== src/Nbt/Snbt.antt =====
-- data/nbt/snbt.c: the text of a tree, as the bytes that the file is given, in order.
use mcsrv.Common.{
  ℕ, zero, suc, ◌+◌, ◌*◌, ◌%◌, ◌^◌, Bool, not, List, [], ◌∷◌, ◌++◌, Option, none, some, ◌==◌,
  if◌then◌else◌, length, replicate,
}
use mcsrv.Common.Int.{ltb_ℤ, pos_part}
use mcsrv.Common.Outcome.{Outcome, ok, fault, stuck, ◌>>=◌}
use mcsrv.Nbt.{Nbt, NbtTag, NbtStatus, okay, io, to_signed, is_not_array, change, drop_last}
use mcsrv.Nbt.TagType
use mcsrv.Nbt.Tree.{tag_at}
use mcsrv.Nbt.Writer.{is_sized}
use mcsrv.Vector.{Vector, vect_init, vect_reserve, vect_ref, pred32}
use mcsrv.Vector.Blocks.{load_at}

-- The C library's printf, for each of the formats that are used: of a name, of the bits of a number,
-- and of a string.
pub record Formats : Type 0 where
  pub name : List ℕ → List ℕ
  pub byte : ℕ → List ℕ
  pub short : ℕ → List ℕ
  pub int : ℕ → List ℕ
  pub long : ℕ → List ℕ
  pub float : ℕ → List ℕ
  pub double : ℕ → List ℕ
  pub string : List ℕ → List ℕ

-- The tag behind the pointer does not change while the text is written.
pub record SnbtMetadata : Type 0 where
  pub type : ℕ
  pub size : ℕ
  pub tag : NbtTag

unfoldable pub get_tag_size : NbtTag → ℕ
get_tag_size tag =
    if tag.type == TagType.compound
    then tag.value.word1
    else if tag.type == TagType.list
    then tag.value.word2
    else if tag.type == TagType.string
    then length tag.value.str % 2 ^ 32
    else if is_sized tag.type
    then tag.value.word0
    else 0

-- Four spaces for each level.
abbrev pub write_indent : Vector SnbtMetadata → List ℕ
write_indent stack = replicate (pos_part (to_signed 32 (stack.size * 4))) 32

unfoldable pub last_level : Vector SnbtMetadata → Outcome (Option ((ℕ × ℕ) × SnbtMetadata))
last_level stack = do
  at ← vect_ref stack (pred32 stack.size)
  elim at [
    | none ↦ ok none
    | some place ↦ do m ← load_at stack.blocks place.0 place.1; ok (some (place, m))
  ]

-- What stands in front of a tag: the end of the line before, and in a compound its name.
unfoldable pub separator : Option ((ℕ × ℕ) × SnbtMetadata) → List ℕ
separator none = []
separator (some p) =
    if ltb_ℤ (to_signed 32 p.1.size) (to_signed 32 (get_tag_size p.1.tag))
    then 44 ∷ 10 ∷ []
    else 10 ∷ []

module _ (formats : Formats) where
  unfoldable pub label : Option ((ℕ × ℕ) × SnbtMetadata) → NbtTag → List ℕ
  label none tag = []
  label (some p) tag = if is_not_array p.1.type then formats.name tag.name else []

  -- The text of a tag, and the size of the level that it opens.
  unfoldable pub tag_text : NbtTag → List ℕ × Option ℕ
  tag_text tag =
      let v = tag.value in
      if tag.type == TagType.byte
      then (formats.byte v.word0, none)
      else if tag.type == TagType.short
      then (formats.short v.word0, none)
      else if tag.type == TagType.int
      then (formats.int v.word0, none)
      else if tag.type == TagType.long
      then (formats.long (v.word0 + v.word1 * 2 ^ 32), none)
      else if tag.type == TagType.float
      then (formats.float v.word0, none)
      else if tag.type == TagType.double
      then (formats.double (v.word0 + v.word1 * 2 ^ 32), none)
      else if tag.type == TagType.string
      then (formats.string v.str, none)
      else if tag.type == TagType.list
      then (91 ∷ [], some v.word2)
      else if tag.type == TagType.compound
      then (123 ∷ [], some v.word1)
      else if tag.type == TagType.byte_array
      then (91 ∷ 66 ∷ 59 ∷ [], some v.word0)
      else if tag.type == TagType.int_array
      then (91 ∷ 73 ∷ 59 ∷ [], some v.word0)
      else if tag.type == TagType.long_array
      then (91 ∷ 76 ∷ 59 ∷ [], some v.word0)
      else ([], none)

  -- `uninit` is what the stack's memory holds.
  module _ (uninit : SnbtMetadata) where
    unfoldable pub add_meta :
        Vector SnbtMetadata → NbtTag → Option ℕ → Outcome (Vector SnbtMetadata)
    add_meta stack tag none = ok stack
    add_meta stack tag (some size) =
        let (place, reserved) = vect_reserve uninit stack in
        elim place [
          | none ↦ fault
          | some at ↦ change reserved at (λ m. record { type = tag.type; size = size; tag = tag })
        ]

    unfoldable pub write_snbt_tag :
        NbtTag → Vector SnbtMetadata → Outcome (List ℕ × Vector SnbtMetadata)
    write_snbt_tag tag stack = do
      parent ← last_level stack
      let (body, level) = tag_text tag
      counted ← (elim parent [
        | none ↦ ok stack
        | some p ↦ change stack p.0 (λ m. record m { size = pred32 m.size })
      ])
      stack' ← add_meta counted tag level
      ok (separator parent ++ (write_indent stack ++ (label parent tag ++ body)), stack')

    -- The end of a level is written with the indent of the levels that are left.
    abbrev pub closing : ℕ → Vector SnbtMetadata → List ℕ
    closing type stack =
        if type == TagType.compound
        then write_indent stack ++ (125 ∷ [])
        else if is_sized type
        then write_indent stack ++ (93 ∷ [])
        else []

    unfoldable pub closing_rounds : ℕ → Vector SnbtMetadata → Outcome (List ℕ × Vector SnbtMetadata)
    closing_rounds zero stack = stuck
    closing_rounds (suc fuel) stack = do
      parent ← last_level stack
      elim parent [
        | none ↦ ok ([], stack)
        | some p ↦ if not (p.1.size == 0) then ok ([], stack) else do
          (popped, stack1) ← drop_last stack
          (bytes, stack2) ← closing_rounds fuel stack1
          ok (10 ∷ (closing p.1.type stack1 ++ bytes), stack2)
      ]

    -- The tags from `i` on, of which `left` are left.
    unfoldable pub text_rounds : ℕ → ℕ → Nbt → Vector SnbtMetadata → Outcome (List ℕ)
    text_rounds zero i nbt stack = ok []
    text_rounds (suc left) i nbt stack = do
      at ← vect_ref nbt.tags i
      tag ← tag_at nbt at
      (bytes, stack1) ← write_snbt_tag tag stack
      (ends, stack2) ← closing_rounds (suc stack1.size) stack1
      rest ← text_rounds left (i + 1) nbt stack2
      ok (bytes ++ (ends ++ rest))

    -- `opens` says whether the file can be opened.
    unfoldable pub nbt_write_snbt : Bool → Nbt → Outcome (NbtStatus × List ℕ)
    nbt_write_snbt opens nbt =
        if not opens
        then ok (io, [])
        else do bytes ← text_rounds nbt.tags.size 0 nbt (vect_init uninit 512); ok (okay, bytes)

-- It does nothing yet.
abbrev pub nbt_to_string : Nbt → NbtStatus
nbt_to_string nbt = okay
