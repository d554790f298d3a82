-- ===== src/Nbt/Tree.antt =====
-- data/nbt/nbt.c: building a tree at the selected tag. What they log is left out.
use mcsrv.Common.{
  ℕ, zero, suc, ◌+◌, ◌%◌, ◌^◌, not, ◌||◌, List, [], Option, none, some, ◌==◌, if◌then◌else◌,
}
use mcsrv.Common.Int.{to_u64}
use mcsrv.Common.Outcome.{Outcome, ok, fault, abort, ◌>>=◌}
use mcsrv.Nbt.{
  Nbt, NbtTag, NbtValue, NbtSimpleValue, NbtStatus, okay, invalid_type, incompatible_type,
  invalid_parent, no_value, of_simple, to_signed, change,
}
use mcsrv.Nbt.TagType
use mcsrv.Vector.{
  vect_init, vect_init_dynamic, vect_add, vect_get, vect_ref, vect_peek, vect_reserve,
}
use mcsrv.Vector.Blocks.{load_at}

-- What the arena's memory holds: a tag, and an index.
pub record NbtMemory : Type 0 where
  pub tag : NbtTag
  pub index : ℕ

unfoldable pub get_current_tag : Nbt → Outcome (Option (ℕ × ℕ))
get_current_tag nbt = do
  top ← vect_peek nbt.stack
  elim top [ none ↦ ok none | some idx ↦ vect_ref nbt.tags idx ]

-- The tag behind a pointer, which may be NULL.
unfoldable pub tag_at : Nbt → Option (ℕ × ℕ) → Outcome NbtTag
tag_at nbt none = fault
tag_at nbt (some at) = load_at nbt.tags.blocks at.0 at.1

-- The selected tag, with its place.
unfoldable pub current : Nbt → Outcome ((ℕ × ℕ) × NbtTag)
current nbt = do
  at ← get_current_tag nbt
  tag ← tag_at nbt at
  elim at [ none ↦ fault | some place ↦ ok (place, tag) ]

abbrev pub set_value : (NbtValue → NbtValue) → NbtTag → NbtTag
set_value f tag = record tag { value = f tag.value }

-- `x++` on an i32.
abbrev pub next32 : ℕ → ℕ
next32 x = (x + 1) % 2 ^ 32

unfoldable pub change_tag : Nbt → ℕ × ℕ → (NbtTag → NbtTag) → Outcome Nbt
change_tag nbt at f = do tags ← change nbt.tags at f; ok (record nbt { tags = tags })

-- The tags of the stack from `i` on, of which `left` are left.
unfoldable pub length_rounds : ℕ → ℕ → Nbt → Outcome Nbt
length_rounds zero i nbt = ok nbt
length_rounds (suc left) i nbt = do
  idx ← vect_get nbt.stack i
  at ← (elim idx [ none ↦ fault | some n ↦ vect_ref nbt.tags n ])
  tag ← tag_at nbt at
  nbt' ← (elim at [
    | none ↦ fault
    | some place ↦
        if tag.type == TagType.compound
        then change_tag nbt place (set_value (λ v. record v { word0 = next32 v.word0 }))
        else if tag.type == TagType.list
        then change_tag nbt place (set_value (λ v. record v { word1 = next32 v.word1 }))
        else abort
  ])
  length_rounds left (i + 1) nbt'

unfoldable pub increment_parent_total_lengths : Nbt → Outcome Nbt
increment_parent_total_lengths nbt = length_rounds nbt.stack.size 0 nbt

unfoldable pub get_total_length : NbtTag → ℕ
get_total_length tag =
    if tag.type == TagType.compound
    then tag.value.word0
    else if tag.type == TagType.list
    then tag.value.word1
    else if tag.type == TagType.byte_array
        || tag.type == TagType.int_array
        || tag.type == TagType.long_array
    then next32 tag.value.word0
    else 1

-- An i64 and an i32.
abbrev pub add_length : ℕ → ℕ → ℕ
add_length idx len = (idx + to_u64 (to_signed 32 len)) % 2 ^ 64

-- `size++` of a list, and of a compound.
abbrev pub list_grows : NbtTag → NbtTag
list_grows = set_value (λ v. record v { word2 = next32 v.word2 })

abbrev pub compound_grows : NbtTag → NbtTag
compound_grows = set_value (λ v. record v { word1 = next32 v.word1 })

module _ (mem : NbtMemory) where
  unfoldable pub nbt_init_empty : ℕ → Nbt
  nbt_init_empty max_token_count = record {
    tags = vect_init_dynamic mem.tag max_token_count;
    stack = vect_init mem.index 512;
  }

  unfoldable pub nbt_create : ℕ → Outcome Nbt
  nbt_create max_token_count = do
    let (root, tags) = vect_reserve mem.tag (nbt_init_empty max_token_count).tags
    rooted ← (elim root [
      | none ↦ fault
      | some at ↦ change tags at (λ t. record {
        type = TagType.compound;
        value = record no_value { word0 = 1 };
        name = [];
      })
    ])
    stack ← vect_add mem.index (nbt_init_empty max_token_count).stack 0
    ok (record { tags = rooted; stack = stack })

  unfoldable pub nbt_add_tag : Nbt → NbtTag → Outcome Nbt
  nbt_add_tag nbt tag = do tags ← vect_add mem.tag nbt.tags tag; ok (record nbt { tags = tags })

  -- Why a tag does not take an element of a type, if so, and the tag with the type of its elements.
  unfoldable pub refusal : NbtTag → ℕ → Option NbtStatus × NbtTag
  refusal tag type =
      let only : ℕ → Option NbtStatus × NbtTag =
        λ t. (if type == t then none else some incompatible_type, tag) in
      if tag.type == TagType.list
      then (if tag.value.word0 == TagType.end
          then (none, set_value (λ v. record v { word0 = type }) tag)
          else only tag.value.word0)
      else if tag.type == TagType.byte_array
      then only TagType.byte
      else if tag.type == TagType.int_array
      then only TagType.int
      else if tag.type == TagType.long_array
      then only TagType.long
      else (some invalid_type, tag)

  -- TRUE is the status NBTE_INVALID_TYPE.
  unfoldable pub nbt_push_simple : Nbt → ℕ → NbtSimpleValue → Outcome (NbtStatus × Nbt)
  nbt_push_simple nbt type value = do
    (at, tag) ← current nbt
    let (refused, typed) = refusal tag type
    elim refused [
      | some status ↦ ok (status, nbt)
      | none ↦ do
        nbt1 ← change_tag nbt at (λ t. typed)
        nbt2 ←
            nbt_add_tag nbt1
              (record { type = typed.value.word0; value = of_simple value; name = [] })
        nbt3 ← change_tag nbt2 at list_grows
        nbt4 ← increment_parent_total_lengths nbt3
        ok (invalid_type, nbt4)
    ]

  unfoldable pub nbt_push_str : Nbt → List ℕ → Outcome (NbtStatus × Nbt)
  nbt_push_str nbt str = do
    (at, tag) ← current nbt
    let typed = (if tag.value.word0 == TagType.end then TagType.string else tag.value.word0)
    if not (tag.type == TagType.list)
        then ok (invalid_parent, nbt)
        else if not (typed == TagType.string)
        then ok (incompatible_type, nbt)
        else do
          nbt1 ← change_tag nbt at (set_value (λ v. record v { word0 = typed }))
          nbt2 ←
              nbt_add_tag nbt1
                (record { type = typed; value = record no_value { str = str }; name = [] })
          nbt3 ← change_tag nbt2 at list_grows
          ok (okay, nbt3)

  unfoldable pub nbt_push : Nbt → ℕ → Outcome (NbtStatus × Nbt)
  nbt_push nbt type = do
    (at, tag) ← current nbt
    if not (tag.type == TagType.list)
        then ok (invalid_parent, nbt)
        else if not (tag.value.word0 == TagType.end || tag.value.word0 == type)
        then ok (incompatible_type, nbt)
        else do
          nbt1 ← change_tag nbt at (set_value (λ v. record v { word0 = type }))
          nbt2 ← nbt_add_tag nbt1 (record { type = type; value = no_value; name = [] })
          nbt3 ← change_tag nbt2 at list_grows
          ok (okay, nbt3)

  -- A tag for a compound is made from the selected one.
  unfoldable pub put_tag : Nbt → (NbtTag → NbtTag) → Outcome (NbtStatus × Nbt)
  put_tag nbt new_tag = do
    (at, tag) ← current nbt
    if not (tag.type == TagType.compound) then ok (invalid_parent, nbt) else do
      nbt1 ← nbt_add_tag nbt (new_tag tag)
      nbt2 ← change_tag nbt1 at compound_grows
      ok (okay, nbt2)

  abbrev pub nbt_put_simple : Nbt → List ℕ → ℕ → NbtSimpleValue → Outcome (NbtStatus × Nbt)
  nbt_put_simple nbt name type value =
      put_tag nbt (λ tag. record { type = type; value = of_simple value; name = name })

  -- The type is what a list keeps for that of its elements.
  abbrev pub nbt_put_str : Nbt → List ℕ → List ℕ → Outcome (NbtStatus × Nbt)
  nbt_put_str nbt name str =
      put_tag nbt (λ tag. record {
        type = tag.value.word0;
        value = record no_value { str = str };
        name = name;
      })

  -- The lengths that a new compound and a new list start with.
  abbrev pub first_value : ℕ → NbtValue
  first_value type =
      if type == TagType.compound
      then record no_value { word0 = 1 }
      else if type == TagType.list
      then record no_value { word1 = 1 }
      else no_value

  abbrev pub nbt_put : Nbt → List ℕ → ℕ → Outcome (NbtStatus × Nbt)
  nbt_put nbt name type =
      put_tag nbt (λ tag. record { type = type; value = first_value type; name = name })
