-- ===== src/Nbt/Parse.antt =====
-- nbt_parse of data/nbt/serial.c, with what it does between the tags.
use mcsrv.Common.{
  ℕ, zero, suc, ◌-◌, ◌^◌, Bool, true, false, not, ◌&&◌, ◌||◌, Option, none, some, ◌==◌, leb, ltb,
  if◌then◌else◌,
}
use mcsrv.Common.Outcome.{Outcome, ok, fault, stuck, ◌>>=◌}
use mcsrv.Nbt.{Nbt, NbtStatus, okay, io, invalid_type, is_not_array, change, drop_last}
use mcsrv.Nbt.TagType
use mcsrv.Nbt.Tree.{NbtMemory, set_value, next32, change_tag, nbt_init_empty}
use mcsrv.Nbt.Writer.{NbtTagMetadata, is_sized}
use mcsrv.Nbt.Reader.{Source, NbtReadContext, parse_type, nbt_parse_tag}
use mcsrv.Vector.{Vector, vect_init, vect_ref, pred32}
use mcsrv.Vector.Blocks.{load_at}

-- The level of an index, with its place; none for NULL.
unfoldable pub meta_at : Vector NbtTagMetadata → ℕ → Outcome (Option ((ℕ × ℕ) × NbtTagMetadata))
meta_at stack i = do
  at ← vect_ref stack i
  elim at [
    | none ↦ ok none
    | some place ↦ do m ← load_at stack.blocks place.0 place.1; ok (some (place, m))
  ]

-- The direct parent: the level on top, or the one below when that has the type of the tag. Below the
-- first there is the index -1.
unfoldable pub direct_parent :
    Vector NbtTagMetadata → ℕ → Outcome (Option ((ℕ × ℕ) × NbtTagMetadata))
direct_parent stack current_type = do
  top ← meta_at stack (if stack.size == 0 then 2 ^ 64 - 1 else stack.size - 1)
  elim top [
    | none ↦ ok none
    | some p ↦
        if not (current_type == p.1.type)
        then ok (some p)
        else meta_at stack (if leb stack.size 1 then 2 ^ 64 - 1 else stack.size - 2)
  ]

-- A child is counted: up in a compound, down in a list or an array.
abbrev pub counted : NbtTagMetadata → NbtTagMetadata
counted m =
    if m.type == TagType.compound
    then record m { size = next32 m.size }
    else if is_sized m.type
    then record m { size = pred32 m.size }
    else m

-- The total length of the tag of a level, which is for an array not kept.
unfoldable pub lengthen : Nbt → NbtTagMetadata → Outcome (Option Nbt)
lengthen nbt m =
    let grow : (ℕ × ℕ → Outcome Nbt) → Outcome (Option Nbt) = λ f. (do
      at ← vect_ref nbt.tags m.idx
      nbt' ← (elim at [ none ↦ fault | some place ↦ f place ])
      ok (some nbt')) in
    if m.type == TagType.compound
    then grow (λ place. change_tag nbt place (set_value (λ v. record v { word0 = next32 v.word0 })))
    else if m.type == TagType.list
    then grow (λ place. change_tag nbt place (set_value (λ v. record v { word1 = next32 v.word1 })))
    else if is_sized m.type
    then ok (some nbt)
    else ok none

-- The levels below `i`, from the top.
unfoldable pub parent_rounds : ℕ → Vector NbtTagMetadata → Nbt → Outcome (Bool × Nbt)
parent_rounds zero stack nbt = ok (true, nbt)
parent_rounds (suc i) stack nbt = do
  level ← meta_at stack i
  longer ← (elim level [ none ↦ fault | some p ↦ lengthen nbt p.1 ])
  elim longer [ none ↦ ok (false, nbt) | some nbt' ↦ parent_rounds i stack nbt' ]

unfoldable pub update_parents : NbtReadContext → ℕ → Outcome (Bool × NbtReadContext)
update_parents ctx current_type = do
  parent ← direct_parent ctx.stack current_type
  elim parent [
    | none ↦ ok (true, ctx)
    | some p ↦ do
      stack ← (if current_type == TagType.end then ok ctx.stack else change ctx.stack p.0 counted)
      (valid, nbt) ← parent_rounds stack.size stack ctx.nbt
      ok (valid, record { stack = stack; nbt = nbt })
  ]

-- The lists and arrays on top that have all their elements are left. The size is an i32.
unfoldable pub prune_rounds : ℕ → Vector NbtTagMetadata → Outcome (Vector NbtTagMetadata)
prune_rounds zero stack = stuck
prune_rounds (suc fuel) stack = if stack.size == 0 then ok stack else do
  top ← meta_at stack (stack.size - 1)
  elim top [
    | none ↦ fault
    | some p ↦
        if (ltb p.1.size (2 ^ 31) && not (p.1.size == 0)) || is_not_array p.1.type
        then ok stack
        else (do (popped, stack') ← drop_last stack; prune_rounds fuel stack')
  ]

-- What is on top of the stack is a list or an array when it is removed, so that no type is invalid.
abbrev pub prune_parsing_stack : NbtReadContext → Outcome NbtReadContext
prune_parsing_stack ctx = do
  stack ← prune_rounds (suc ctx.stack.size) ctx.stack
  ok (record ctx { stack = stack })

module _ {S : Type 0} (source : Source S) (junk : ℕ) (mem : NbtMemory)
    (uninit : NbtTagMetadata) where
  -- The tags one after the other, until the stack is empty.
  unfoldable pub parse_rounds : ℕ → NbtReadContext → S → Outcome (NbtStatus × NbtReadContext × S)
  parse_rounds zero ctx fd = stuck
  parse_rounds (suc fuel) ctx fd = do
    (type, fd1) ← parse_type source junk ctx fd
    if type == TagType.count then ok (invalid_type, ctx, fd1) else do
      (parsed, ctx1, fd2) ← nbt_parse_tag source junk mem uninit ctx type fd1
      if not parsed then ok (invalid_type, ctx1, fd2) else do
        (valid, ctx2) ← update_parents ctx1 type
        if not valid then ok (invalid_type, ctx2, fd2) else do
          ctx3 ← prune_parsing_stack ctx2
          if ctx3.stack.size == 0 then ok (okay, ctx3, fd2) else parse_rounds fuel ctx3 fd2

  -- The file, when it can be opened; otherwise the tree is not touched.
  unfoldable pub nbt_parse : ℕ → ℕ → Option S → Outcome (NbtStatus × Option Nbt)
  nbt_parse fuel max_token_count none = ok (io, none)
  nbt_parse fuel max_token_count (some fd) = do
    (status, ctx, fd') ←
        parse_rounds fuel
          (record { stack = vect_init uninit 512; nbt = nbt_init_empty mem max_token_count }) fd
    ok (status, some ctx.nbt)
