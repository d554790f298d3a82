-- ===== src/Nbt/Access.antt =====
-- data/nbt/nbt.c: setting, moving and getting.
use mcsrv.Common.{
  ℕ, zero, suc, ◌+◌, ◌-◌, ◌*◌, ◌/◌, ◌%◌, ◌^◌, Bool, not, List, Option, none, some, ◌==◌,
  if◌then◌else◌,
}
use mcsrv.Common.Int.{ℤ, pos_part, ltb_ℤ, to_u64}
use mcsrv.Common.Outcome.{Outcome, ok, fault, abort, ◌>>=◌}
use mcsrv.Json.Node.{same_bytes}
use mcsrv.Nbt.{
  Nbt, NbtValue, NbtStatus, okay, incompatible_type, invalid_parent, not_found, to_signed,
  is_not_array, drop_last,
}
use mcsrv.Nbt.TagType
use mcsrv.Vector.{vect_add, vect_get, vect_ref, vect_peek, vect_pop, pred32}
use mcsrv.Nbt.Tree.{
  NbtMemory, get_current_tag, tag_at, current, set_value, change_tag, get_total_length, add_length,
}

-- A value is set when the selected tag has its type.
unfoldable pub set_tag : Nbt → ℕ → (NbtValue → NbtValue) → Outcome (NbtStatus × Nbt)
set_tag nbt type f = do
  (at, tag) ← current nbt
  if not (tag.type == type)
      then ok (incompatible_type, nbt)
      else do nbt' ← change_tag nbt at (set_value f); ok (okay, nbt')

-- The low bits of the first word are written, `size` at a time.
abbrev pub low_written : ℕ → ℕ → NbtValue → NbtValue
low_written size n v = record v { word0 = v.word0 - v.word0 % 2 ^ size + n % 2 ^ size }

abbrev pub nbt_set_byte : Nbt → ℤ → Outcome (NbtStatus × Nbt)
nbt_set_byte nbt value = set_tag nbt TagType.byte (low_written 8 (to_u64 value))

abbrev pub nbt_set_bool : Nbt → Bool → Outcome (NbtStatus × Nbt)
nbt_set_bool nbt value = set_tag nbt TagType.byte (low_written 8 (if value then 1 else 0))

abbrev pub nbt_set_short : Nbt → ℤ → Outcome (NbtStatus × Nbt)
nbt_set_short nbt value = set_tag nbt TagType.short (low_written 16 (to_u64 value))

abbrev pub nbt_set_int : Nbt → ℤ → Outcome (NbtStatus × Nbt)
nbt_set_int nbt value = set_tag nbt TagType.int (λ v. record v { word0 = to_u64 value % 2 ^ 32 })

abbrev pub nbt_set_long : Nbt → ℤ → Outcome (NbtStatus × Nbt)
nbt_set_long nbt value =
    set_tag nbt TagType.long
      (λ v. record v { word0 = to_u64 value % 2 ^ 32; word1 = to_u64 value / 2 ^ 32 })

-- A float and a double are given by their bits.
abbrev pub nbt_set_float : Nbt → ℕ → Outcome (NbtStatus × Nbt)
nbt_set_float nbt bits = set_tag nbt TagType.float (λ v. record v { word0 = bits })

abbrev pub nbt_set_double : Nbt → ℕ → Outcome (NbtStatus × Nbt)
nbt_set_double nbt bits =
    set_tag nbt TagType.double (λ v. record v { word0 = bits % 2 ^ 32; word1 = bits / 2 ^ 32 })

-- The index of the child with a name, from the one at `idx` on, of which `left` are left.
unfoldable pub name_rounds : ℕ → Nbt → ℕ → List ℕ → Outcome (Option ℕ)
name_rounds zero nbt idx name = ok none
name_rounds (suc left) nbt idx name = do
  at ← vect_ref nbt.tags idx
  child ← tag_at nbt at
  if same_bytes child.name name
      then ok (some idx)
      else name_rounds left nbt (add_length idx (get_total_length child)) name

-- The index of the child that is `left` tags further.
unfoldable pub index_rounds : ℕ → Nbt → ℕ → Outcome ℕ
index_rounds zero nbt idx = ok idx
index_rounds (suc left) nbt idx = do
  at ← vect_ref nbt.tags idx
  child ← tag_at nbt at
  index_rounds left nbt (add_length idx (get_total_length child))

-- What `vect_peek` stores in `idx`: the caller has a selected tag, so that the stack is not empty.
unfoldable pub selected : Nbt → Outcome ℕ
selected nbt = do top ← vect_peek nbt.stack; elim top [ none ↦ fault | some idx ↦ ok idx ]

module _ (mem : NbtMemory) where
  abbrev pub select : Nbt → ℕ → Outcome (NbtStatus × Nbt)
  select nbt idx = do
    stack ← vect_add mem.index nbt.stack idx
    ok (okay, record nbt { stack = stack })

  -- As many children are looked at as `array_size` says.
  unfoldable pub nbt_move_to_name : Nbt → List ℕ → Outcome (NbtStatus × Nbt)
  nbt_move_to_name nbt name = do
    (at, tag) ← current nbt
    if not (tag.type == TagType.compound) then ok (invalid_parent, nbt) else do
      idx ← selected nbt
      found ← name_rounds (pos_part (to_signed 32 tag.value.word0)) nbt ((idx + 1) % 2 ^ 64) name
      elim found [ none ↦ ok (not_found, nbt) | some child ↦ select nbt child ]

  unfoldable pub nbt_move_to_index : Nbt → ℤ → Outcome (NbtStatus × Nbt)
  nbt_move_to_index nbt index = do
    (at, tag) ← current nbt
    if not (tag.type == TagType.list)
        then ok (invalid_parent, nbt)
        else if not (ltb_ℤ index (to_signed 32 tag.value.word2))
        then ok (not_found, nbt)
        else do idx ← selected nbt; child ← index_rounds (pos_part index) nbt idx; select nbt child

  unfoldable pub nbt_move_to_next_sibling : Nbt → Outcome (NbtStatus × Nbt)
  nbt_move_to_next_sibling nbt = do
    at ← get_current_tag nbt
    (prev_index, stack) ← vect_pop nbt.stack
    elim prev_index [
      | none ↦ ok (not_found, nbt)
      | some idx ↦ do
        tag ← tag_at nbt at
        select (record nbt { stack = stack }) (add_length idx (get_total_length tag))
    ]

unfoldable pub nbt_move_to_parent : Nbt → Outcome (NbtStatus × Nbt)
nbt_move_to_parent nbt = do
  (popped, stack) ← drop_last nbt.stack
  ok (if popped then okay else not_found, record nbt { stack = stack })

abbrev pub nbt_move_to_prev_sibling : Nbt → Outcome (NbtStatus × Nbt)
nbt_move_to_prev_sibling nbt = abort

-- The value of the selected tag; another type is a call of abort().
unfoldable pub get_value : Nbt → ℕ → Outcome NbtValue
get_value nbt type = do (at, tag) ← current nbt; if tag.type == type then ok tag.value else abort

-- The member `byte` of the union.
abbrev pub simple_byte : NbtValue → ℤ
simple_byte v = to_signed 8 v.word0

unfoldable pub nbt_get_byte : Nbt → Outcome ℤ
nbt_get_byte nbt = do v ← get_value nbt TagType.byte; ok (simple_byte v)

unfoldable pub nbt_get_short : Nbt → Outcome ℤ
nbt_get_short nbt = do v ← get_value nbt TagType.short; ok (simple_byte v)

unfoldable pub nbt_get_int : Nbt → Outcome ℤ
nbt_get_int nbt = do v ← get_value nbt TagType.int; ok (simple_byte v)

unfoldable pub nbt_get_long : Nbt → Outcome ℤ
nbt_get_long nbt = do v ← get_value nbt TagType.long; ok (simple_byte v)

unfoldable pub nbt_get_float : Nbt → Outcome ℕ
nbt_get_float nbt = do v ← get_value nbt TagType.float; ok v.word0

unfoldable pub nbt_get_double : Nbt → Outcome ℕ
nbt_get_double nbt = do v ← get_value nbt TagType.double; ok (v.word0 + v.word1 * 2 ^ 32)

unfoldable pub nbt_get_string : Nbt → Outcome (List ℕ)
nbt_get_string nbt = do v ← get_value nbt TagType.string; ok v.str

-- The element of the stack is taken for a tag: its low half is the type.
unfoldable pub nbt_get_name : Nbt → Outcome (Option (List ℕ))
nbt_get_name nbt = do
  at ← get_current_tag nbt
  parent ← vect_get nbt.stack (pred32 nbt.stack.size)
  elim parent [
    | none ↦ ok none
    | some p ↦
        if is_not_array (p % 2 ^ 32) then ok none else do tag ← tag_at nbt at; ok (some tag.name)
  ]
