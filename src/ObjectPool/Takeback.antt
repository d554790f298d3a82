-- ===== src/ObjectPool/Takeback.antt =====
-- Slots that are taken back, and what a full pool hands out.
use mcsrv.Common.{
  ℕ, suc, ◌+◌, ◌-◌, ◌%◌, ◌^◌, ◌<◌, ◌≤◌, ◌≡◌, refl, ap, sym, ◌∙◌, Bool, true, false, List, [], ◌∷◌,
  some, length, set, get_elem?, ltb, leb, if◌then◌else◌, arith, get_elem?-set_self,
  get_elem?-inside, get_elem?-set_ne, length-set, ◌⊎◌, inl, inr, Bool-cases,
}
use mcsrv.Common.Int.{pos}
use mcsrv.Common.Outcome.{ok}
use mcsrv.ObjectPool.{ObjectPool, objpool_add, objpool_remove, objpool_get}
use mcsrv.ObjectPool.Slots.{held, held_bound, held-set-false, set_same, get_elem?-full}
use mcsrv.ObjectPool.Handout.{
  IsValid, block-first, store-first, load-first, handed, objpool_add_lem,
}

objpool_get_lem :
    (p : ObjectPool) (flags : List Bool) (i : ℕ)
    → IsValid p flags
    → get_elem? flags i ≡ some true
    → objpool_get p (pos i) ≡ ok (some i)
unfolding objpool_get
objpool_get_lem p flags i w taken =
    let inside = get_elem?-inside flags i true taken in
    rw (inside_pool, w.chain, block-first flags i inside, load-first flags i true taken) refl
  where
    inside_pool : leb p.capacity i ≡ false
    inside_pool = ground (arith, w.area, get_elem?-inside flags i true taken)

-- A pool whose slots are all allocated hands one of them out a second time: the call does not
-- return NULL, and the index was that of an object in use.
pub objpool_add-taken :
    (uninit : Bool) (p : ObjectPool) (flags : List Bool)
    → IsValid p flags
    → p.size ≡ p.capacity
    → (q : ObjectPool) × (objpool_add uninit p ≡ ok (some p.next_insert_index, q))
      × (objpool_get p (pos p.next_insert_index) ≡ ok (some p.next_insert_index))
      × (q.blocks ≡ p.blocks)
objpool_add-taken uninit p flags w full = (
  handed p (set flags p.next_insert_index true),
  objpool_add_lem uninit p flags w,
  objpool_get_lem p flags p.next_insert_index w taken,
  ap (λ fs. fs ∷ []) (set_same flags p.next_insert_index true taken) ∙ sym w.chain,
)
  where
    taken : get_elem? flags p.next_insert_index ≡ some true
    taken =
        get_elem?-full flags p.next_insert_index (omega (arith, w.counted, w.area))
          (omega (arith, w.within, w.area))

-- The pool after slot `i` was taken back.
abbrev returned : ObjectPool → List Bool → ℕ → ObjectPool
returned p flags i = record p {
  blocks = set flags i false ∷ [];
  next_insert_index = (if ltb i p.next_insert_index then i else p.next_insert_index);
  size = (p.size + 2 ^ 32 - 1) % 2 ^ 32;
}

objpool_remove_lem :
    (p : ObjectPool) (flags : List Bool) (i : ℕ)
    → IsValid p flags
    → get_elem? flags i ≡ some true
    → objpool_remove p (pos i) ≡ ok (true, returned p flags i)
unfolding objpool_remove
objpool_remove_lem p flags i w taken =
    let inside = get_elem?-inside flags i true taken in
    rw
      (
        inside_pool,
        w.chain,
        block-first flags i inside,
        load-first flags i true taken,
        store-first flags i false inside,
      )
      refl
  where
    inside_pool : leb p.capacity i ≡ false
    inside_pool = ground (arith, w.area, get_elem?-inside flags i true taken)

-- An allocated slot of a valid pool is taken back: it is free then, the other flags are as before,
-- and the pool is valid again, unless it was full and the slot lies behind `next_insert_index`.
pub objpool_remove-IsValid :
    (p : ObjectPool) (flags : List Bool) (i : ℕ)
    → IsValid p flags
    → get_elem? flags i ≡ some true
    → (p.size < p.capacity) ⊎ (i ≤ p.next_insert_index)
    → (q : ObjectPool) × (objpool_remove p (pos i) ≡ ok (true, q))
      × IsValid q (set flags i false)
      × (suc q.size ≡ p.size)
objpool_remove-IsValid p flags i w taken reach = (
  returned p flags i,
  objpool_remove_lem p flags i w taken,
  record {
    chain = refl;
    area = omega (arith, w.area, length-set flags i false);
    counted = omega (arith, fewer, count, w.counted);
    before = λ j h. get_elem?-set_ne flags false (ground arith) ∙ w.before j (ground arith);
    within = ground (arith, w.within, w.area, inside);
    small = w.small;
    candidate = elim (Bool-cases (ltb i p.next_insert_index)) [
      | inl low ↦ inl (rw (low) (get_elem?-set_self flags i false inside))
      | inr high ↦ inl (rw (high) (still_free (ground arith)))
    ];
  },
  omega (arith, fewer),
)
  where
    inside : i < length flags
    inside = get_elem?-inside flags i true taken

    count : suc (held (set flags i false)) ≡ held flags
    count = held-set-false flags i taken

    fewer : suc ((p.size + 2 ^ 32 - 1) % 2 ^ 32) ≡ p.size
    fewer = omega (arith, count, w.counted, w.area, w.small, held_bound flags)

    at_most : held flags ≡ length flags → i ≤ p.next_insert_index
    at_most full = elim reach [
      | inl room ↦ absurd (omega (arith, full, w.counted, w.area))
      | inr h ↦ h
    ]

    still_free :
        p.next_insert_index ≤ i → get_elem? (set flags i false) p.next_insert_index ≡ some false
    still_free h = elim w.candidate [
      | inl free ↦ get_elem?-set_ne flags false (λ e. cc) ∙ free
      | inr full ↦
          ap (get_elem? (set flags i false)) (omega (arith, h, at_most full))
          ∙ get_elem?-set_self flags i false inside
    ]
