-- ===== src/Nbt.antt =====
-- data/nbt.h and data/nbt/nbt_internal.h: the tags of a tree in one vector, depth first, and the stack
-- of the indices that lead to the selected one. The arena is taken to have room for what is added.
pub mod TagType
pub mod Tree
pub mod Access
pub mod Values
pub mod Writer
pub mod Reader
pub mod Parse
pub mod Snbt
pub mod Bytes
pub mod RoundTrip
mod Tests
mod RoundTripTests
use mcsrv.Common.{
  ℕ, zero, suc, ◌+◌, ◌-◌, ◌*◌, ◌/◌, ◌%◌, ◌^◌, Bool, true, false, not, ◌&&◌, ◌||◌, List, [], ◌∷◌,
  ◌==◌, leb, ltb, if◌then◌else◌,
}
use mcsrv.Common.Int.{ℤ, pos, negsuc}
use mcsrv.Common.Outcome.{Outcome, ok, fault, ◌>>=◌}
use TagType
use mcsrv.Vector.{Vector, register_removal}
use mcsrv.Vector.Blocks.{store_at, load_at}

pub data NbtStatus : Type 0 where
  okay : NbtStatus
  invalid_type : NbtStatus
  incompatible_type : NbtStatus
  invalid_parent : NbtStatus
  max_nesting : NbtStatus
  not_found : NbtStatus
  io : NbtStatus

-- `union NBTValue`: its first three u32, of which the members are parts, and the string.
--   simple: the low bytes of word0, or word0 and word1; array_size: word0;
--   list: the type of the elements, the total length and the size;
--   compound: the total length and the size.
-- A string overlays the words, by its pointer and its length; no number is read from it.
pub record NbtValue : Type 0 where
  pub word0 : ℕ
  pub word1 : ℕ
  pub word2 : ℕ
  pub str : List ℕ

-- What an initialiser leaves where it names nothing.
abbrev pub no_value : NbtValue
no_value = record { word0 = 0; word1 = 0; word2 = 0; str = [] }

pub record NbtTag : Type 0 where
  pub type : ℕ
  pub value : NbtValue
  pub name : List ℕ

-- The arena is left out.
pub record Nbt : Type 0 where
  pub tags : Vector NbtTag
  pub stack : Vector ℕ

-- `union NBTSimpleValue`, by its two halves.
pub record NbtSimpleValue : Type 0 where
  pub low : ℕ
  pub high : ℕ

abbrev pub of_simple : NbtSimpleValue → NbtValue
of_simple value = record no_value { word0 = value.low; word1 = value.high }

-- The cast of `bits` bits to a signed integer.
unfoldable pub to_signed : ℕ → ℕ → ℤ
to_signed bits n =
    if ltb (n % 2 ^ bits) (2 ^ (bits - 1))
    then pos (n % 2 ^ bits)
    else negsuc (2 ^ bits - 1 - n % 2 ^ bits)

unfoldable pub is_not_array : ℕ → Bool
is_not_array type = not (
    type == TagType.list
    || type == TagType.byte_array
    || type == TagType.int_array
    || type == TagType.long_array)

-- An element is changed through a pointer to it.
unfoldable pub change : {A : Type 0} → Vector A → ℕ × ℕ → (A → A) → Outcome (Vector A)
change v at f = do
  x ← load_at v.blocks at.0 at.1
  bs ← store_at v.blocks at.0 at.1 (f x)
  ok (record v { blocks = bs })

-- `vect_pop` without an `out`: nothing is read.
unfoldable pub drop_last : {A : Type 0} → Vector A → Outcome (Bool × Vector A)
drop_last v = if v.size == 0 then ok (false, v) else do w ← register_removal v; ok (true, w)
