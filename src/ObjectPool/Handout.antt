-- ===== src/ObjectPool/Handout.antt =====
-- Which slots the pool hands out.
use mcsrv.Common.{
  ℕ, suc, ◌+◌, ◌-◌, ◌%◌, ◌^◌, ◌<◌, ◌≡◌, refl, ap, sym, ◌∙◌, Bool, true, false, List, [], ◌∷◌,
  Option, none, some, length, set, drop, get_elem?, ltb, ◌==◌, arith, get_elem?-drop,
  get_elem?-set_self, get_elem?-inside, get_elem?-set_ne, length-set, ◌⊎◌, inl, inr, Bool-cases,
}
use mcsrv.Common.Outcome.{Outcome, ok}
use mcsrv.Vector.Blocks.{get_block_from_index, store_at, load_at, slot}
use mcsrv.ObjectPool.{
  ObjectPool, free_in_block, free_in_chain, update_next_available, ensure_capacity, objpool_add,
}
use mcsrv.ObjectPool.Slots.{held, held-set-true, held-drop, Search, free_in_block-Search}

-- A pool of one block. Every slot before `next_insert_index` is allocated, and that slot is free
-- unless all are allocated.
pub record IsValid (p : ObjectPool) (flags : List Bool) : Type 0 where
  pub chain : p.blocks ≡ flags ∷ []
  pub area : p.capacity ≡ length flags
  pub counted : p.size ≡ held flags
  pub before : (j : ℕ) → j < p.next_insert_index → get_elem? flags j ≡ some true
  pub within : p.next_insert_index < p.capacity
  pub small : p.capacity < 2 ^ 32
  pub candidate : (get_elem? flags p.next_insert_index ≡ some false) ⊎ (held flags ≡ length flags)

pub block-first :
    (flags : List Bool) (i : ℕ) → i < length flags → get_block_from_index (flags ∷ []) i ≡ ok (0, i)
unfolding get_block_from_index
block-first flags i h = ground arith

pub store-first :
    (flags : List Bool) (i : ℕ) (x : Bool)
    → i < length flags
    → store_at (flags ∷ []) 0 i x ≡ ok (set flags i x ∷ [])
unfolding store_at
store-first flags i x h = ground arith

pub load-first :
    (flags : List Bool) (i : ℕ) (x : Bool)
    → get_elem? flags i ≡ some x
    → load_at (flags ∷ []) 0 i ≡ ok x
unfolding load_at slot
load-first flags i x h = rw h refl

-- The place that `update_next_available` settles on.
abbrev pub settle : ℕ → Option ℕ → ℕ
settle next none = next
settle next (some found) = found % 2 ^ 32

settled :
    (p : ObjectPool) (flags : List Bool)
    → p.next_insert_index < length flags
    → update_next_available (record p { blocks = flags ∷ [] })
      ≡ ok (record p {
        blocks = flags ∷ [];
        next_insert_index =
            settle p.next_insert_index
              (free_in_block (drop p.next_insert_index flags) p.next_insert_index);
      })
unfolding update_next_available free_in_chain
settled p flags h =
    rw (block-first flags p.next_insert_index h)
      (found (free_in_block (drop p.next_insert_index flags) p.next_insert_index))
  where
    found :
        (o : Option ℕ)
        → (elim (elim o as (λ x. Option ℕ) [ some n ↦ some n | none ↦ none ])
            as (λ x. Outcome ObjectPool) [
              | some n ↦ ok (record p { blocks = flags ∷ []; next_insert_index = n % 2 ^ 32 })
              | none ↦ ok (record p { blocks = flags ∷ [] })
            ])
          ≡ ok (record p { blocks = flags ∷ []; next_insert_index = settle p.next_insert_index o })
    found none = refl
    found (some n) = refl

fits :
    (uninit : Bool) (p : ObjectPool)
    → p.next_insert_index < p.capacity
    → p.capacity < 2 ^ 32
    → ensure_capacity uninit p ((p.next_insert_index + 1) % 2 ^ 32) ≡ (true, p)
unfolding ensure_capacity
fits uninit p h small = ground arith

-- The pool after a slot was handed out.
abbrev pub handed : ObjectPool → List Bool → ObjectPool
handed p flags = record p {
  blocks = flags ∷ [];
  next_insert_index =
      settle p.next_insert_index
        (free_in_block (drop p.next_insert_index flags) p.next_insert_index);
  size = (p.size + 1) % 2 ^ 32;
}

pub objpool_add_lem :
    (uninit : Bool) (p : ObjectPool) (flags : List Bool)
    → IsValid p flags
    → objpool_add uninit p
      ≡ ok (some p.next_insert_index, handed p (set flags p.next_insert_index true))
unfolding objpool_add
objpool_add_lem uninit p flags w =
    rw
      (
        fits uninit p w.within w.small,
        w.chain,
        block-first flags p.next_insert_index inside,
        store-first flags p.next_insert_index true inside,
        settled p (set flags p.next_insert_index true)
            (omega (arith, length-set flags p.next_insert_index true, inside)),
      )
      refl
  where
    inside : p.next_insert_index < length flags
    inside = omega (arith, w.within, w.area)

-- The next candidate after the search from a slot that was just taken.
handed-IsValid :
    (p : ObjectPool) (flags : List Bool) (o : Option ℕ)
    → p.capacity ≡ length flags
    → p.capacity < 2 ^ 32
    → p.next_insert_index < p.capacity
    → ((j : ℕ) → j < suc p.next_insert_index → get_elem? flags j ≡ some true)
    → Search (drop p.next_insert_index flags) p.next_insert_index o
    → (p.size + 1) % 2 ^ 32 ≡ held flags
    → IsValid
        (record p {
          blocks = flags ∷ [];
          next_insert_index = settle p.next_insert_index o;
          size = (p.size + 1) % 2 ^ 32;
        })
        flags
handed-IsValid p flags none area small within before full counted = record {
  chain = refl;
  area = area;
  counted = counted;
  before = λ j h. before j (omega arith);
  within = within;
  small = small;
  candidate = inr (held-drop flags p.next_insert_index (λ j h. before j (omega arith)) full);
}
handed-IsValid p flags (some n) area small within before (d, e, free, taken) counted = record {
  chain = refl;
  area = area;
  counted = counted;
  before = λ j h. elim (Bool-cases (ltb j p.next_insert_index)) [
    | inl low ↦ before j (ground arith)
    | inr high ↦
        ap (get_elem? flags) (ground arith)
        ∙ (sym (get_elem?-drop p.next_insert_index flags (j - p.next_insert_index))
            ∙ taken (j - p.next_insert_index) (ground (arith, wrapped)))
  ];
  within = omega (arith, wrapped, inside);
  small = small;
  candidate = inl (ap (get_elem? flags) wrapped ∙ free_here);
}
  where
    free_here : get_elem? flags n ≡ some false
    free_here = ap (get_elem? flags) e ∙ (sym (get_elem?-drop p.next_insert_index flags d) ∙ free)

    inside : n < length flags
    inside = get_elem?-inside flags n false free_here

    wrapped : n % 2 ^ 32 ≡ n
    wrapped = omega (arith, inside)

-- A valid pool that is not full hands out a slot that was free; the slot is then allocated, the other
-- flags are as before, and the pool is valid again. A pool is valid when it has one block of less
-- than 2^32 slots, its size is the number of slots in use, all slots in front of next_insert_index
-- are in use, and the slot there is inside the block and free, unless all are in use. (The removal of
-- a slot behind next_insert_index from a full pool leaves a pool that is not valid.)
pub objpool_add-IsValid :
    (uninit : Bool) (p : ObjectPool) (flags : List Bool)
    → IsValid p flags
    → p.size < p.capacity
    → (q : ObjectPool) × (objpool_add uninit p ≡ ok (some p.next_insert_index, q))
      × (get_elem? flags p.next_insert_index ≡ some false)
      × IsValid q (set flags p.next_insert_index true)
      × (q.size ≡ p.size + 1)
objpool_add-IsValid uninit p flags w room = (
  handed p (set flags p.next_insert_index true),
  objpool_add_lem uninit p flags w,
  free,
  handed-IsValid p (set flags p.next_insert_index true) _
      (omega (arith, w.area, length-set flags p.next_insert_index true)) w.small w.within before
      (free_in_block-Search (drop p.next_insert_index (set flags p.next_insert_index true))
        p.next_insert_index)
      (counted ∙ sym (held-set-true flags p.next_insert_index free)),
  omega (arith, w.small),
)
  where
    free : get_elem? flags p.next_insert_index ≡ some false
    free = elim w.candidate [ inl h ↦ h | inr h ↦ absurd (omega (arith, w.counted, w.area)) ]

    counted : (p.size + 1) % 2 ^ 32 ≡ suc (held flags)
    counted = omega (arith, w.counted, w.small)

    before :
        (j : ℕ)
        → j < suc p.next_insert_index
        → get_elem? (set flags p.next_insert_index true) j ≡ some true
    before j h = elim (Bool-cases (j == p.next_insert_index)) [
      | inl same ↦
          ap (get_elem? (set flags p.next_insert_index true)) (ground arith)
          ∙ get_elem?-set_self flags p.next_insert_index true (omega (arith, w.within, w.area))
      | inr other ↦ get_elem?-set_ne flags true (ground arith) ∙ w.before j (ground arith)
    ]
