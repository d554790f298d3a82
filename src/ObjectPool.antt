-- ===== src/ObjectPool.antt =====
-- containers/object_pool.c: slots that are handed out and taken back.
-- A block is the list of its slots' flags, and the pointer to an object is its index; the objects
-- belong to the caller. The arena is taken to have room for each new block (else its allocation
-- aborts). Logging is left out.
pub mod Slots
pub mod Handout
pub mod Takeback
mod Tests
use mcsrv.Common.{
  ℕ, zero, suc, ◌+◌, ◌-◌, ◌/◌, ◌%◌, ◌^◌, Bool, true, false, not, List, [], ◌∷◌, ◌++◌, Option, none,
  some, ◌==◌, leb, ltb, if◌then◌else◌, length, drop, map, replicate,
}
use mcsrv.Common.Int.{ℤ, pos, negsuc}
use mcsrv.Common.Outcome.{Outcome, ok, ◌>>=◌}
use mcsrv.Vector.{pred32}
use mcsrv.Vector.Blocks.{get_block_from_index, store_at, load_at}

-- `ObjectPool`; `arena` is whether there is one, that is, whether the pool grows.
pub record ObjectPool : Type 0 where
  pub blocks : List (List Bool)
  pub next_insert_index : ℕ
  pub capacity : ℕ
  pub size : ℕ
  pub arena : Bool

-- The flags that the arena hands out are not written.
unfoldable pub objpool_init : List Bool → ObjectPool
objpool_init flags = record {
  blocks = flags ∷ [];
  next_insert_index = 0;
  capacity = length flags;
  size = 0;
  arena = false;
}

-- It sets no arena either.
unfoldable pub objpool_init_dynamic : List Bool → ObjectPool
objpool_init_dynamic flags = record {
  blocks = flags ∷ [];
  next_insert_index = 0;
  capacity = length flags;
  size = 0;
  arena = false;
}

-- The inner loop: the first slot that is not allocated, counted from `global_index`.
unfoldable pub free_in_block : List Bool → ℕ → Option ℕ
free_in_block [] global_index = none
free_in_block (false ∷ flags) global_index = some global_index
free_in_block (true ∷ flags) global_index = free_in_block flags (global_index + 1)

-- The outer loop: `i` is not reset between the blocks.
unfoldable pub free_in_chain : List (List Bool) → ℕ → ℕ → Option ℕ
free_in_chain [] i global_index = none
free_in_chain (b ∷ bs) i global_index = elim (free_in_block (drop i b) global_index) [
  | some found ↦ some found
  | none ↦ free_in_chain bs (i + (length b - i)) (global_index + (length b - i))
]

unfoldable pub update_next_available : ObjectPool → Outcome ObjectPool
update_next_available pool = do
  (k, i) ← get_block_from_index pool.blocks pool.next_insert_index
  elim (free_in_chain (drop k pool.blocks) i pool.next_insert_index) [
    | some found ↦ ok (record pool { next_insert_index = found % 2 ^ 32 })
    | none ↦ ok pool
  ]

-- A new block's flags are `uninit`; the arena is taken to have room for it.
unfoldable pub ensure_capacity : Bool → ObjectPool → ℕ → Bool × ObjectPool
ensure_capacity uninit pool size =
    if leb size pool.capacity then (true, pool) else if not pool.arena then (false, pool) else (
      true,
      record pool {
        blocks = pool.blocks ++ (replicate (pool.capacity / 2) uninit ∷ []);
        capacity = (pool.capacity + pool.capacity / 2) % 2 ^ 32;
      },
    )

unfoldable pub objpool_clear : ObjectPool → ObjectPool
objpool_clear pool = record pool {
  blocks = map (map (λ flag. false)) pool.blocks;
  size = 0;
  next_insert_index = 0;
}

-- The slot that is handed out; `none` is NULL.
unfoldable pub objpool_add : Bool → ObjectPool → Outcome (Option ℕ × ObjectPool)
objpool_add uninit pool =
    let (fits, p) = ensure_capacity uninit pool ((pool.next_insert_index + 1) % 2 ^ 32) in
    if not fits then ok (none, p) else do
      (k, i) ← get_block_from_index p.blocks pool.next_insert_index
      bs ← store_at p.blocks k i true
      q ← update_next_available (record p { blocks = bs })
      ok (some pool.next_insert_index, record q { size = (q.size + 1) % 2 ^ 32 })

unfoldable pub objpool_remove : ObjectPool → ℤ → Outcome (Bool × ObjectPool)
objpool_remove pool (negsuc n) = ok (false, pool)
objpool_remove pool (pos idx) = if leb pool.capacity idx then ok (false, pool) else do
  (k, i) ← get_block_from_index pool.blocks idx
  allocated ← load_at pool.blocks k i
  if not allocated then ok (false, pool) else do
    bs ← store_at pool.blocks k i false
    ok (
      true,
      record pool {
        blocks = bs;
        next_insert_index =
            (if ltb idx pool.next_insert_index then idx else pool.next_insert_index);
        size = pred32 pool.size;
      },
    )

unfoldable pub objpool_get : ObjectPool → ℤ → Outcome (Option ℕ)
objpool_get pool (negsuc n) = ok none
objpool_get pool (pos index) = if leb pool.capacity index then ok none else do
  (k, i) ← get_block_from_index pool.blocks index
  allocated ← load_at pool.blocks k i
  ok (if allocated then some index else none)

-- The rounds of the loop over `j`; the list holds the indices that `action` is called with.
unfoldable pub foreach_rounds : ℕ → ObjectPool → ℕ → ℕ → Outcome (List ℕ)
foreach_rounds zero pool i j = ok []
foreach_rounds (suc left) pool i j = if leb pool.size i then ok [] else do
  (k, at) ← get_block_from_index pool.blocks j
  allocated ← load_at pool.blocks k at
  rest ← (elim allocated [
    | true ↦ foreach_rounds left pool (i + 1) (j + 1)
    | false ↦ foreach_rounds left pool i (j + 1)
  ])
  ok (if allocated then j ∷ rest else rest)

unfoldable pub objpool_foreach : ObjectPool → Outcome (List ℕ)
objpool_foreach pool = foreach_rounds pool.capacity pool 0 0
