-- ===== src/ObjectPool/Tests.antt =====
-- Concrete pools: one with a free slot, and a full one.
use mcsrv.Common.{
  ℕ, ◌≡◌, refl, true, false, some, List, [], ◌∷◌, arith, inl, inr, ◌<◌, zero, suc, Bool, get_elem?,
  ◌+◌,
}
use mcsrv.Common.Int.{pos}
use mcsrv.Common.Outcome.{ok}
use mcsrv.ObjectPool.{ObjectPool, objpool_add, objpool_remove, objpool_get}
use mcsrv.ObjectPool.Handout.{IsValid, objpool_add-IsValid}
use mcsrv.ObjectPool.Takeback.{objpool_add-taken, objpool_remove-IsValid}

-- Slot 1 is free.
abbrev pool : ObjectPool
pool = record {
  blocks = (true ∷ false ∷ true ∷ []) ∷ [];
  next_insert_index = 1;
  capacity = 3;
  size = 2;
  arena = false;
}

abbrev flags : List Bool
flags = true ∷ false ∷ true ∷ []

pool-IsValid : IsValid pool flags
pool-IsValid = record {
  chain = refl;
  area = refl;
  counted = refl;
  before = first;
  within = omega arith;
  small = omega arith;
  candidate = inl refl;
}
  where
    first : (j : ℕ) → j < 1 → get_elem? flags j ≡ some true
    first zero h = refl
    first (suc j) h = absurd (omega arith)

objpool_add-IsValid_example :
    (q : ObjectPool) × (objpool_add false pool ≡ ok (some 1, q))
    × (get_elem? flags 1 ≡ some false)
    × IsValid q (true ∷ true ∷ true ∷ [])
    × (q.size ≡ 2 + 1)
objpool_add-IsValid_example = objpool_add-IsValid false pool flags pool-IsValid (omega arith)

objpool_remove-IsValid_example :
    (q : ObjectPool) × (objpool_remove pool (pos 2) ≡ ok (true, q))
    × IsValid q (true ∷ false ∷ false ∷ [])
    × (suc q.size ≡ 2)
objpool_remove-IsValid_example =
    objpool_remove-IsValid pool flags 2 pool-IsValid refl (inl (omega arith))

-- Two slots, both in use.
abbrev exhausted : ObjectPool
exhausted = record {
  blocks = (true ∷ true ∷ []) ∷ [];
  next_insert_index = 1;
  capacity = 2;
  size = 2;
  arena = false;
}

exhausted-IsValid : IsValid exhausted (true ∷ true ∷ [])
exhausted-IsValid = record {
  chain = refl;
  area = refl;
  counted = refl;
  before = first;
  within = omega arith;
  small = omega arith;
  candidate = inr refl;
}
  where
    first : (j : ℕ) → j < 1 → get_elem? (true ∷ true ∷ []) j ≡ some true
    first zero h = refl
    first (suc j) h = absurd (omega arith)

objpool_add-taken_example :
    (q : ObjectPool) × (objpool_add false exhausted ≡ ok (some 1, q))
    × (objpool_get exhausted (pos 1) ≡ ok (some 1))
    × (q.blocks ≡ (true ∷ true ∷ []) ∷ [])
objpool_add-taken_example =
    objpool_add-taken false exhausted (true ∷ true ∷ []) exhausted-IsValid refl
