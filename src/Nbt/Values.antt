-- ===== src/Nbt/Values.antt =====
-- What is read from the selected tag after a value was written to it.
use mcsrv.Common.{
  ℕ, zero, suc, ◌-◌, ◌%◌, ◌^◌, ◌<◌, ◌≡◌, refl, ap, ◌∙◌, true, List, [], ◌∷◌, Option, none, some,
  ◌==◌, length, length-set, set, get_elem?, get_elem?-inside, get_elem?-set_self, arith,
}
use mcsrv.Common.Int.{ℤ, to_u64}
use mcsrv.Common.Outcome.{Outcome, ok, fault, abort, stuck, ◌>>=◌}
use mcsrv.Nbt.{Nbt, NbtTag, NbtValue, okay, to_signed, change}
use mcsrv.Nbt.TagType
use mcsrv.Nbt.Tree.{get_current_tag, tag_at, current, set_value, change_tag}
use mcsrv.Nbt.Access.{set_tag, get_value, nbt_set_int, nbt_get_int}
use mcsrv.Vector.{Vector, vect_ref, vect_peek}
use mcsrv.Vector.Blocks.{slot, load_at, store_at, get_block_from_index}

-- A slot that can be read can be written; it then holds what was written, and no index moves.
record Stored {A : Type 0} (bs : List (List A)) (k i : ℕ) (y : A) (cs : List (List A))
    : Type 0 where
  pub done : store_at bs k i y ≡ ok cs
  pub there : load_at cs k i ≡ ok y
  pub places : (n : ℕ) → get_block_from_index cs n ≡ get_block_from_index bs n

slot-some : {A : Type 0} → (o : Option A) (x : A) → slot o ≡ ok x → o ≡ some x
unfolding slot
slot-some none x e = cc
slot-some (some y) x e = ap some cc

store_at-load_at :
    {A : Type 0}
    → (bs : List (List A)) (k i : ℕ) (x y : A) → load_at bs k i ≡ ok x
    → (cs : List (List A)) × Stored bs k i y cs
unfolding load_at store_at slot get_block_from_index
store_at-load_at [] k i x y e = cc
store_at-load_at (b ∷ bs) zero i x y e =
    let inside : i < length b = get_elem?-inside b i x (slot-some (get_elem? b i) x e) in
    (
      set b i y ∷ bs,
      record {
        done = ground arith;
        there = ap slot (get_elem?-set_self b i y inside);
        places = λ n. rw (length-set b i y) refl;
      },
    )
store_at-load_at (b ∷ bs) (suc k) i x y e =
    let (cs, s) = store_at-load_at bs k i x y e in
    (
      b ∷ cs,
      record {
        done = rw s.done refl;
        there = s.there;
        places = λ n. rw (s.places (n - length b)) refl;
      },
    )

vect_ref-places :
    {A : Type 0}
    → (v : Vector A) (cs : List (List A)) (n : ℕ)
    → ((j : ℕ) → get_block_from_index cs j ≡ get_block_from_index v.blocks j)
    → vect_ref (record v { blocks = cs }) n ≡ vect_ref v n
unfolding vect_ref
vect_ref-places v cs n places = rw (places n) refl

-- A selection depends on where the tags are, and not on what they hold.
same_top :
    (m : Outcome (Option ℕ)) (tags tags' : Vector NbtTag)
    → ((n : ℕ) → vect_ref tags' n ≡ vect_ref tags n)
    → (do top ← m; elim top [ none ↦ ok none | some idx ↦ vect_ref tags' idx ])
      ≡ (do top ← m; elim top [ none ↦ ok none | some idx ↦ vect_ref tags idx ])
same_top (ok none) tags tags' same = refl
same_top (ok (some n)) tags tags' same = same n
same_top abort tags tags' same = refl
same_top fault tags tags' same = refl
same_top stuck tags tags' same = refl

-- The selected tag is at `at`.
pub record Selected (nbt : Nbt) (at : ℕ × ℕ) (tag : NbtTag) : Type 0 where
  pub found : get_current_tag nbt ≡ ok (some at)
  pub held : tag_at nbt (some at) ≡ ok tag

current-Selected :
    (nbt : Nbt) (at : ℕ × ℕ) (tag : NbtTag) → Selected nbt at tag → current nbt ≡ ok (at, tag)
unfolding current
current-Selected nbt at tag s = rw (s.found, ◌>>=◌, s.held) refl

change_tag-Selected :
    (nbt : Nbt) (at : ℕ × ℕ) (tag : NbtTag) (f : NbtTag → NbtTag)
    → Selected nbt at tag
    → (nbt' : Nbt) × (change_tag nbt at f ≡ ok nbt') × Selected nbt' at (f tag)
unfolding change_tag change get_current_tag tag_at
change_tag-Selected nbt at tag f s =
    let (cs, stored) = store_at-load_at nbt.tags.blocks at.0 at.1 tag (f tag) s.held in
    (
      record nbt { tags = record nbt.tags { blocks = cs } },
      rw (s.held, ◌>>=◌, stored.done) refl,
      record {
        found =
            same_top (vect_peek nbt.stack) nbt.tags (record nbt.tags { blocks = cs })
              (λ n. vect_ref-places nbt.tags cs n stored.places)
            ∙ s.found;
        held = stored.there;
      },
    )

-- A tag of a type takes a value, and is read with it.
set_tag-Selected :
    (nbt : Nbt) (at : ℕ × ℕ) (tag : NbtTag) (type : ℕ) (f : NbtValue → NbtValue)
    → Selected nbt at tag
    → tag.type ≡ type
    → (nbt' : Nbt) × (set_tag nbt type f ≡ ok (okay, nbt'))
      × Selected nbt' at (set_value f tag)
      × (get_value nbt' type ≡ ok (f tag.value))
unfolding set_tag get_value
set_tag-Selected nbt at tag type f s typed =
    let (nbt', changed, s') = change_tag-Selected nbt at tag (set_value f) s in
    let same : (tag.type == type) ≡ true = ground (arith, typed) in
    (
      nbt',
      rw (current-Selected nbt at tag s, ◌>>=◌, same, changed) refl,
      s',
      rw (current-Selected nbt' at (set_value f tag) s', ◌>>=◌, same) refl,
    )

to_signed-mod : (n : ℕ) → to_signed 8 (n % 2 ^ 32) ≡ to_signed 8 n
unfolding to_signed
to_signed-mod n = let low : n % 2 ^ 32 % 2 ^ 8 ≡ n % 2 ^ 8 = omega arith in rw low refl

-- A selected int takes every value; what is read then is its lowest byte with its sign.
pub nbt_get_int-set_int :
    (nbt : Nbt) (at : ℕ × ℕ) (tag : NbtTag) (value : ℤ)
    → Selected nbt at tag
    → tag.type ≡ TagType.int
    → (nbt' : Nbt) × (nbt_set_int nbt value ≡ ok (okay, nbt'))
      × Selected nbt' at (set_value (λ v. record v { word0 = to_u64 value % 2 ^ 32 }) tag)
      × (nbt_get_int nbt' ≡ ok (to_signed 8 (to_u64 value)))
unfolding nbt_get_int
nbt_get_int-set_int nbt at tag value s typed =
    let (nbt', set, s', read) =
      set_tag-Selected nbt at tag TagType.int (λ v. record v { word0 = to_u64 value % 2 ^ 32 }) s
        typed in
    (nbt', set, s', rw (read, ◌>>=◌) (ap ok (to_signed-mod (to_u64 value))))
