-- ===== src/Nbt/Reader.antt =====
-- The half of data/nbt/serial.c that reads. What it logs is left out, and so is the arena.
use mcsrv.Common.{
  ℕ, zero, suc, ◌+◌, ◌-◌, ◌*◌, ◌/◌, ◌%◌, ◌^◌, ◌≤◌, ◌≡◌, Bool, true, false, not, ◌&&◌, ◌||◌, List,
  [], ◌∷◌, Option, none, some, ◌==◌, leb, ltb, if◌then◌else◌, length, take, drop, replicate, splice,
}
use mcsrv.Common.Int.{sub64}
use mcsrv.Common.Outcome.{Outcome, ok, fault, stuck, ◌>>=◌}
use mcsrv.Nbt.{Nbt, NbtValue, no_value, change, drop_last}
use mcsrv.Nbt.TagType
use mcsrv.Nbt.Tree.{NbtMemory, tag_at, set_value, change_tag, nbt_add_tag}
use mcsrv.Nbt.Writer.{NbtTagMetadata, last_meta, named}
use mcsrv.Net.Encode.{swap_bytes}
use mcsrv.Vector.{Vector, vect_ref, vect_reserve}

-- zlib's `gzread` on a file: the bytes that it copies, none at the end of the file or for an error,
-- and the file from there on. `bytes` are the uncompressed bytes to come; as long as there are as many
-- as it is asked for, it copies these.
pub record Source (S : Type 0) : Type 0 where
  pub gzread : S → ℕ → List ℕ × S
  pub bytes : S → List ℕ
  pub copied : (s : S) (n : ℕ) → n ≤ length (bytes s) → (gzread s n).0 ≡ take n (bytes s)
  pub left : (s : S) (n : ℕ) → n ≤ length (bytes s) → bytes (gzread s n).1 ≡ drop n (bytes s)

-- The number of some bytes in memory.
unfoldable pub of_bytes : List ℕ → ℕ
of_bytes [] = 0
of_bytes (b ∷ bs) = b + of_bytes bs * 2 ^ 8

-- `ntoh16`, `ntoh32` and `ntoh64`.
abbrev pub ntoh : List ℕ → ℕ
ntoh bytes = of_bytes (swap_bytes bytes)

-- The tree and the stack of the levels that are open.
pub record NbtReadContext : Type 0 where
  pub stack : Vector NbtTagMetadata
  pub nbt : Nbt

-- `junk` is what a variable holds before it is written.
module _ {S : Type 0} (source : Source S) (junk : ℕ) where
  -- Each round copies to the front of the area.
  unfoldable pub ensure_rounds : ℕ → S → List ℕ → ℕ → Outcome (Option (List ℕ) × S)
  ensure_rounds zero fd buf size = stuck
  ensure_rounds (suc fuel) fd buf size =
      if size == 0
      then ok (some buf, fd)
      else let (chunk, fd') = source.gzread fd size in
        let rest = ensure_rounds fuel fd' (splice buf 0 chunk) (sub64 size (length chunk)) in
        if length chunk == 0 then ok (none, fd') else rest

  -- The bytes read; `none` is FALSE.
  unfoldable pub ensure_read : S → ℕ → Outcome (Option (List ℕ) × S)
  ensure_read fd size = ensure_rounds (suc size) fd (replicate size junk) size

  unfoldable pub read_string : S → Outcome (Option (List ℕ) × S)
  read_string fd = do
    (size, fd1) ← ensure_read fd 2
    elim size [ none ↦ ok (none, fd1) | some name_length ↦ ensure_read fd1 (ntoh name_length) ]

  unfoldable pub parse_type : NbtReadContext → S → Outcome (ℕ × S)
  parse_type ctx fd = do
    parent ← last_meta ctx.stack
    if named parent
        then (do
          (type_byte, fd') ← ensure_read fd 1
          ok (
            elim type_byte [
              | none ↦ TagType.count
              | some b ↦ if leb TagType.count (of_bytes b) then TagType.count else of_bytes b
            ],
            fd',
          ))
        else elim parent [
          | none ↦ fault
          | some p ↦ do
            type ←
                (if p.1.type == TagType.list
                  then (do
                    at ← vect_ref ctx.nbt.tags p.1.idx
                    tag ← tag_at ctx.nbt at
                    ok tag.value.word0)
                  else ok (
                      if p.1.type == TagType.byte_array
                      then TagType.byte
                      else if p.1.type == TagType.int_array
                      then TagType.int
                      else TagType.long))
            ok (type, fd)
        ]

  -- The value of a tag that opens no level, and is no end.
  unfoldable pub read_simple : ℕ → S → Outcome (Option NbtValue × S)
  read_simple type fd =
      let number : (List ℕ → NbtValue) → ℕ → Outcome (Option NbtValue × S) = λ f size. (do
        (bytes, fd') ← ensure_read fd size
        ok (elim bytes [ none ↦ none | some bs ↦ some (f bs) ], fd')) in
      let word : (List ℕ → ℕ) → List ℕ → NbtValue = λ f bs. record no_value { word0 = f bs } in
      let double_word : (List ℕ → ℕ) → List ℕ → NbtValue =
        λ f bs. record no_value { word0 = f bs % 2 ^ 32; word1 = f bs / 2 ^ 32 } in
      if type == TagType.byte
      then number (word of_bytes) 1
      else if type == TagType.short
      then number (word ntoh) 2
      else if type == TagType.int
      then number (word ntoh) 4
      else if type == TagType.long
      then number (double_word ntoh) 8
      else if type == TagType.float
      then number (word of_bytes) 4
      else if type == TagType.double
      then number (double_word of_bytes) 8
      else (do
        (str, fd') ← read_string fd
        ok (elim str [ none ↦ none | some s ↦ some (record no_value { str = s }) ], fd'))

  -- The size of a new list or array, and the stack with its level if it has elements; `none` is -1.
  unfoldable pub parse_array :
      NbtTagMetadata → NbtReadContext → ℕ → S → Outcome (Option ℕ × NbtReadContext × S)
  parse_array uninit ctx type fd = do
    (bytes, fd') ← ensure_read fd 4
    elim bytes [
      | none ↦ ok (none, ctx, fd')
      | some bs ↦ do
        let num = ntoh bs
        let (place, reserved) = vect_reserve uninit ctx.stack
        stack ←
            (if ltb num (2 ^ 31) && not (num == 0)
              then elim place [
                | none ↦ fault
                | some at ↦
                    change reserved at
                      (λ m. record { type = type; size = num; idx = ctx.nbt.tags.size })
              ]
              else ok ctx.stack)
        ok (if num == 2 ^ 32 - 1 then none else some num, record ctx { stack = stack }, fd')
    ]

module _ {S : Type 0} (source : Source S) (junk : ℕ) (mem : NbtMemory)
    (uninit : NbtTagMetadata) where
  -- A tag is added with its name and its value.
  abbrev pub added : NbtReadContext → ℕ → List ℕ → NbtValue → Outcome NbtReadContext
  added ctx type name value = do
    nbt ← nbt_add_tag mem ctx.nbt (record { type = type; value = value; name = name })
    ok (record ctx { nbt = nbt })

  -- A list or an array; the size of a list is where the other sizes of its union are not.
  unfoldable pub parse_sized :
      NbtReadContext
      → ℕ
      → List ℕ
      → NbtValue
      → (NbtValue → ℕ → NbtValue)
      → S
      → Outcome (Bool × NbtReadContext × S)
  parse_sized ctx type name value sized fd = do
    (len, ctx', fd') ← parse_array source junk uninit ctx type fd
    elim len [
      | none ↦ ok (false, ctx', fd')
      | some n ↦ do ctx'' ← added ctx' type name (sized value n); ok (true, ctx'', fd')
    ]

  unfoldable pub parse_list : NbtReadContext → List ℕ → S → Outcome (Bool × NbtReadContext × S)
  parse_list ctx name fd = do
    (type_byte, fd') ← ensure_read source junk fd 1
    elim type_byte [
      | none ↦ ok (false, ctx, fd')
      | some b ↦
          parse_sized ctx TagType.list name (record no_value { word0 = of_bytes b })
            (λ v n. record v { word2 = n }) fd'
    ]

  unfoldable pub parse_compound : NbtReadContext → List ℕ → S → Outcome (Bool × NbtReadContext × S)
  parse_compound ctx name fd = do
    let (place, reserved) = vect_reserve uninit ctx.stack
    stack ← (elim place [
      | none ↦ fault
      | some at ↦
          change reserved at
            (λ m. record { type = TagType.compound; size = 0; idx = ctx.nbt.tags.size })
    ])
    ctx' ← added (record ctx { stack = stack }) TagType.compound name no_value
    ok (true, ctx', fd)

  -- The end of a compound, whose size is then known.
  unfoldable pub parse_end : NbtReadContext → S → Outcome (Bool × NbtReadContext × S)
  parse_end ctx fd = do
    parent ← last_meta ctx.stack
    elim parent [
      | none ↦ ok (false, ctx, fd)
      | some p ↦ if not (p.1.type == TagType.compound) then ok (false, ctx, fd) else do
        at ← vect_ref ctx.nbt.tags p.1.idx
        nbt ← (elim at [
          | none ↦ fault
          | some place ↦ change_tag ctx.nbt place (set_value (λ v. record v { word1 = p.1.size }))
        ])
        (popped, stack) ← drop_last ctx.stack
        ok (true, record { stack = stack; nbt = nbt }, fd)
    ]

  -- The value of a tag, by its type; one of a type that is unknown is passed over.
  unfoldable pub parse_value : NbtReadContext → ℕ → List ℕ → S → Outcome (Bool × NbtReadContext × S)
  parse_value ctx type name fd =
      if leb TagType.count type
      then ok (true, ctx, fd)
      else if type == TagType.end
      then parse_end ctx fd
      else if type == TagType.compound
      then parse_compound ctx name fd
      else if type == TagType.list
      then parse_list ctx name fd
      else if type == TagType.byte_array || type == TagType.int_array || type == TagType.long_array
      then parse_sized ctx type name no_value (λ v n. record v { word0 = n }) fd
      else (do
        (value, fd') ← read_simple source junk type fd
        elim value [
          | none ↦ ok (false, ctx, fd')
          | some v ↦ do ctx' ← added ctx type name v; ok (true, ctx', fd')
        ])

  unfoldable pub nbt_parse_tag : NbtReadContext → ℕ → S → Outcome (Bool × NbtReadContext × S)
  nbt_parse_tag ctx type fd = do
    parent ← last_meta ctx.stack
    if named parent && not (type == TagType.end)
        then (do
          (name, fd') ← read_string source junk fd
          elim name [ none ↦ ok (false, ctx, fd') | some str ↦ parse_value ctx type str fd' ])
        else parse_value ctx type [] fd
