-- ===== src/Nbt/RoundTrip.antt =====
-- A tag that opens no level, written by data/nbt/serial.c and read again.
use mcsrv.Common.{
  ℕ, ◌+◌, ◌*◌, ◌/◌, ◌%◌, ◌^◌, ◌<◌, ◌≡◌, refl, sym, ap, ◌∙◌, true, false, List, [], ◌∷◌, ◌++◌,
  Option, none, some, ◌==◌, leb, if◌then◌else◌, length, append_assoc, inr, arith,
}
use mcsrv.Common.Outcome.{Outcome, ok, abort, fault, stuck, ◌>>=◌}
use mcsrv.Nbt.{Nbt, NbtTag, NbtValue, no_value}
use mcsrv.Nbt.TagType
use mcsrv.Nbt.Tree.{NbtMemory, tag_at, nbt_add_tag}
use mcsrv.Nbt.Writer.{
  NbtTagMetadata, to_bytes, hton, write_string, last_meta, named, count_down, write_value,
  write_simple, opened, nbt_write_tag,
}
use mcsrv.Nbt.Reader.{
  Source, NbtReadContext, of_bytes, parse_type, read_simple, added, parse_value, nbt_parse_tag,
}
use mcsrv.Nbt.Bytes.{ensure_read-bytes, read_string-write_string, of_bytes-to_bytes, ntoh-hton}
use mcsrv.Net.Encode.{swap_bytes}
use mcsrv.Vector.{Vector, vect_ref}
use mcsrv.Vector.Append.{IsValid, contents, vect_add-IsValid}

-- The values whose tags has_name no level and are read as they were written: floats are not.
pub data Plain : Type 0 where
  byte : ℕ → Plain
  short : ℕ → Plain
  int : ℕ → Plain
  long : ℕ → Plain
  text : List ℕ → Plain

abbrev pub Fits : Plain → Type 0
Fits (byte n) = n < 2 ^ 8
Fits (short n) = n < 2 ^ 16
Fits (int n) = n < 2 ^ 32
Fits (long n) = n < 2 ^ 64
Fits (text str) = length str < 2 ^ 16

abbrev pub plain_type : Plain → ℕ
plain_type (byte n) = TagType.byte
plain_type (short n) = TagType.short
plain_type (int n) = TagType.int
plain_type (long n) = TagType.long
plain_type (text str) = TagType.string

abbrev pub plain_value : Plain → NbtValue
plain_value (byte n) = record no_value { word0 = n }
plain_value (short n) = record no_value { word0 = n }
plain_value (int n) = record no_value { word0 = n }
plain_value (long n) = record no_value { word0 = n % 2 ^ 32; word1 = n / 2 ^ 32 }
plain_value (text str) = record no_value { str = str }

abbrev pub plain_tag : Plain → List ℕ → NbtTag
plain_tag p name = record { type = plain_type p; value = plain_value p; name = name }

-- The bytes of a value, the highest first.
abbrev pub payload : Plain → List ℕ
payload (byte n) = to_bytes 1 n
payload (short n) = hton 2 n
payload (int n) = hton 4 n
payload (long n) = hton 8 n
payload (text str) = write_string str

abbrev pub tag_bytes : Plain → List ℕ → List ℕ
tag_bytes p name = (plain_type p ∷ write_string name) ++ payload p

write_value-plain : (p : Plain) (name : List ℕ) → write_value (plain_tag p name) ≡ (payload p, none)
unfolding write_value write_simple
write_value-plain (byte n) name = refl
write_value-plain (short n) name = refl
write_value-plain (int n) name = refl
write_value-plain (long n) name = ap (λ m. (hton 8 m, none)) (omega arith)
write_value-plain (text str) name = refl

-- Where a tag of the tree is to be written in a compound, or as the root.
pub record Writes (nbt : Nbt) (stack counted : Vector NbtTagMetadata) (i : ℕ) (tag : NbtTag)
    : Type 0 where
  pub parent : Option ((ℕ × ℕ) × NbtTagMetadata)
  pub top : last_meta stack ≡ ok parent
  pub has_name : named parent ≡ true
  pub less : count_down stack parent ≡ ok counted
  pub at : ℕ × ℕ
  pub found : vect_ref nbt.tags i ≡ ok (some at)
  pub held : tag_at nbt (some at) ≡ ok tag

nbt_write_tag-plain :
    (uninit : NbtTagMetadata) (p : Plain) (name : List ℕ) (nbt : Nbt)
    (stack counted : Vector NbtTagMetadata) (i : ℕ)
    → Writes nbt stack counted i (plain_tag p name)
    → nbt_write_tag uninit nbt stack i ≡ ok (tag_bytes p name, counted)
unfolding nbt_write_tag opened
nbt_write_tag-plain uninit p name nbt stack counted i w =
    rw (w.top, ◌>>=◌, w.found, ◌>>=◌, w.held, w.has_name, write_value-plain p name, w.less)
      (ap (λ t. ok ((t ∷ write_string name) ++ payload p, counted)) (low p))
  where
    low : (p : Plain) → plain_type p % 2 ^ 8 ≡ plain_type p
    low (byte n) = refl
    low (short n) = refl
    low (int n) = refl
    low (long n) = refl
    low (text str) = refl

module _ {S : Type 0} (source : Source S) (junk : ℕ) where
  record ReadValue (p : Plain) (fd : S) (rest : List ℕ) : Type 0 where
    after : S
    result : read_simple source junk (plain_type p) fd ≡ ok (some (plain_value p), after)
    remaining : source.bytes after ≡ rest

  read_simple-plain :
      (p : Plain) (fd : S) (rest : List ℕ)
      → Fits p
      → source.bytes fd ≡ payload p ++ rest
      → ReadValue p fd rest
  unfolding read_simple to_bytes swap_bytes
  read_simple-plain (byte n) fd rest fits e =
      let r = ensure_read-bytes source junk fd (to_bytes 1 n) rest e (omega arith) in
      record {
        after = r.after;
        result = rw (r.result, ◌>>=◌, of_bytes-to_bytes 1 n (omega (arith, fits))) refl;
        remaining = r.remaining;
      }
  read_simple-plain (short n) fd rest fits e =
      let r = ensure_read-bytes source junk fd (hton 2 n) rest e (omega arith) in
      record {
        after = r.after;
        result = rw (r.result, ◌>>=◌, ntoh-hton 2 n (omega (arith, fits))) refl;
        remaining = r.remaining;
      }
  read_simple-plain (int n) fd rest fits e =
      let r = ensure_read-bytes source junk fd (hton 4 n) rest e (omega arith) in
      record {
        after = r.after;
        result = rw (r.result, ◌>>=◌, ntoh-hton 4 n (omega (arith, fits))) refl;
        remaining = r.remaining;
      }
  read_simple-plain (long n) fd rest fits e =
      let r = ensure_read-bytes source junk fd (hton 8 n) rest e (omega arith) in
      record {
        after = r.after;
        result = rw (r.result, ◌>>=◌, ntoh-hton 8 n (omega (arith, fits))) refl;
        remaining = r.remaining;
      }
  read_simple-plain (text str) fd rest fits e =
      let r = read_string-write_string source junk fd str rest fits e in
      record { after = r.after; result = rw (r.result, ◌>>=◌) refl; remaining = r.remaining }

  type_byte-plain :
      (p : Plain) (ctx : NbtReadContext) (fd : S) (rest : List ℕ)
      (parent : Option ((ℕ × ℕ) × NbtTagMetadata))
      → last_meta ctx.stack ≡ ok parent
      → named parent ≡ true
      → source.bytes fd ≡ plain_type p ∷ rest
      → (fd' : S) × (parse_type source junk ctx fd ≡ ok (plain_type p, fd'))
        × (source.bytes fd' ≡ rest)
  unfolding parse_type of_bytes
  type_byte-plain p ctx fd rest parent top has_name e =
      let r = ensure_read-bytes source junk fd (plain_type p ∷ []) rest e (omega arith) in
      (r.after, rw (top, ◌>>=◌, has_name, r.result, ◌>>=◌) (known p r.after), r.remaining)
    where
      known :
          (p : Plain) (after : S)
          → ◌≡◌ {A = Outcome (ℕ × S)}
              (ok (
                (if leb TagType.count (plain_type p + 0) then TagType.count else plain_type p + 0),
                after,
              ))
              (ok (plain_type p, after))
      known (byte n) after = refl
      known (short n) after = refl
      known (int n) after = refl
      known (long n) after = refl
      known (text str) after = refl

  module _ (mem : NbtMemory) (uninit : NbtTagMetadata) where
    parse_value-plain :
        (p : Plain) (name : List ℕ) (ctx : NbtReadContext) (fd after : S)
        → read_simple source junk (plain_type p) fd ≡ ok (some (plain_value p), after)
        → parse_value source junk mem uninit ctx (plain_type p) name fd ≡ (do
          ctx' ← added source junk mem uninit ctx (plain_type p) name (plain_value p)
          ok (true, ctx', after))
    unfolding parse_value
    parse_value-plain (byte n) name ctx fd after e = rw (e, ◌>>=◌) refl
    parse_value-plain (short n) name ctx fd after e = rw (e, ◌>>=◌) refl
    parse_value-plain (int n) name ctx fd after e = rw (e, ◌>>=◌) refl
    parse_value-plain (long n) name ctx fd after e = rw (e, ◌>>=◌) refl
    parse_value-plain (text str) name ctx fd after e = rw (e, ◌>>=◌) refl

    -- A byte, short, int, long or string tag, whose name (and, of a string, whose value) is shorter
    -- than 2^16 bytes and whose number is within the bits of its type, that is written in a compound,
    -- or as the root, and read again in a compound, or as the root, of a tree whose tags are a valid
    -- vector that may grow and whose tripled capacity is below 2^32, is there as the last tag, with
    -- its type, name and value, and the file is left behind its bytes. The arena is taken to have
    -- room for the tag.
    pub nbt_parse_tag-write_tag :
        (p : Plain) (name : List ℕ) (nbt : Nbt) (stack counted : Vector NbtTagMetadata) (i : ℕ)
        (ctx : NbtReadContext) (parent : Option ((ℕ × ℕ) × NbtTagMetadata))
        (front : List (List NbtTag)) (last : List NbtTag) (fd : S) (out rest : List ℕ)
        → Fits p
        → length name < 2 ^ 16
        → Writes nbt stack counted i (plain_tag p name)
        → nbt_write_tag uninit nbt stack i ≡ ok (out, counted)
        → last_meta ctx.stack ≡ ok parent
        → named parent ≡ true
        → IsValid ctx.nbt.tags front last
        → 3 * ctx.nbt.tags.capacity < 2 ^ 32
        → ctx.nbt.tags.arena ≡ true
        → source.bytes fd ≡ out ++ rest
        → (nbt' : Nbt) × (fd' : S) × ((do
          (type, fd1) ← parse_type source junk ctx fd
          nbt_parse_tag source junk mem uninit ctx type fd1)
            ≡ ok (true, record ctx { nbt = nbt' }, fd'))
          × (contents nbt'.tags ≡ contents ctx.nbt.tags ++ (plain_tag p name ∷ []))
          × (source.bytes fd' ≡ rest)
    unfolding nbt_parse_tag nbt_add_tag
    nbt_parse_tag-write_tag p name nbt stack counted i ctx parent front last fd out rest fits brief
          w written top has_name valid small dynamic e =
        let same : out ≡ tag_bytes p name =
          ap (result_of [])
            (sym written ∙ nbt_write_tag-plain uninit p name nbt stack counted i w) in
        let (fd1, typed, e1) =
          type_byte-plain p ctx fd (write_string name ++ (payload p ++ rest)) parent top has_name (
            e
            ∙ (ap (λ xs. xs ++ rest) same
                ∙ ap (λ xs. plain_type p ∷ xs)
                    (append_assoc (write_string name) (payload p) rest))) in
        let r = read_string-write_string source junk fd1 name (payload p ++ rest) brief e1 in
        let v = read_simple-plain p r.after rest fits r.remaining in
        let (tags, front', last', done, valid', more) =
          vect_add-IsValid mem.tag ctx.nbt.tags (plain_tag p name) front last valid small
            (inr dynamic) in
        (
          record ctx.nbt { tags = tags },
          v.after,
          rw
              (
                typed,
                ◌>>=◌,
                top,
                ◌>>=◌,
                has_name,
                not_end p,
                r.result,
                ◌>>=◌,
                parse_value-plain p name ctx r.after v.after v.result,
                done,
              )
              refl,
          more,
          v.remaining,
        )
      where
        result_of : List ℕ → Outcome (List ℕ × Vector NbtTagMetadata) → List ℕ
        result_of default m = elim m [
          | ok r ↦ r.0
          | abort ↦ default
          | fault ↦ default
          | stuck ↦ default
        ]

        not_end : (p : Plain) → (plain_type p == TagType.end) ≡ false
        not_end (byte n) = refl
        not_end (short n) = refl
        not_end (int n) = refl
        not_end (long n) = refl
        not_end (text str) = refl
