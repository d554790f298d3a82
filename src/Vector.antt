-- ===== src/Vector.antt =====
-- containers/vector.c: elements in a chain of blocks, each allocated when those before are full.
-- An element of `stride` bytes is one slot, so that the byte offset `stride * i` is the index `i`.
-- The arena is taken to have room for each new block: the abort of arena_allocate in alloc_block, when
-- it has none, is left out. Logging is left out.
pub mod Blocks
pub mod Append
pub mod Growth
pub mod Insert
mod Tests
use mcsrv.Common.{
  ℕ, zero, suc, ◌+◌, ◌-◌, ◌/◌, ◌%◌, ◌^◌, Bool, true, false, not, List, [], ◌∷◌, ◌++◌, Option, none,
  some, ◌==◌, leb, ltb, if◌then◌else◌, length, take, replicate,
}
use mcsrv.Common.Outcome.{Outcome, ok, fault, stuck, ◌>>=◌}
use mcsrv.Math.{clamp, sub_no_underflow}
use Blocks.{block_length, store_at, load_at, move, get_block_from_index}

-- `struct vector`: `current` is the place of that block in the chain, and `arena` whether there is
-- one. A u32 wraps at 2^32.
pub record Vector (A : Type 0) : Type 0 where
  pub blocks : List (List A)
  pub current : ℕ
  pub next_insert_index : ℕ
  pub capacity : ℕ
  pub size : ℕ
  pub arena : Bool

-- `a - 1` on u32.
abbrev pub pred32 : ℕ → ℕ
pred32 a = (a + 2 ^ 32 - 1) % 2 ^ 32

module _ {A : Type 0} where
  unfoldable pub register_addition : Vector A → Vector A
  register_addition v = record v {
    size = (v.size + 1) % 2 ^ 32;
    next_insert_index = (v.next_insert_index + 1) % 2 ^ 32;
  }

  -- In front of the first block there is none, and the chain faults.
  unfoldable pub register_removal : Vector A → Outcome (Vector A)
  register_removal v =
      let w = record v { size = pred32 v.size } in
      if v.next_insert_index == 0
      then (if v.current == 0
          then fault
          else ok (record w {
            current = v.current - 1;
            next_insert_index = pred32 (block_length v.blocks (v.current - 1));
          }))
      else ok (record w { next_insert_index = pred32 v.next_insert_index })

  unfoldable pub carry_back : List (List A) → ℕ → Outcome (List (List A))
  carry_back bs zero = ok bs
  carry_back bs (suc k) = do x ← load_at bs (suc k) 0; store_at bs k (block_length bs k - 1) x

  -- The blocks, the source, the slots that are left to shift and the end.
  unfoldable pub carry_on : List (List A) → ℕ → ℕ → ℕ → ℕ → Outcome (List (List A) × ℕ × ℕ × ℕ)
  carry_on bs k start end total =
      if end == block_length bs k
      then (do
        cs ←
            (if ltb (suc k) (length bs)
              then (do x ← load_at bs k start; store_at bs (suc k) 0 x)
              else ok bs)
        ok (cs, suc start, total - 1, end - 1))
      else ok (bs, start, total, end)

  -- The rounds of the loop that closes a gap: block `k` from `start` on, `total` slots to go. The
  -- first slot of a block goes to the end of the one before.
  unfoldable pub backward_rounds : ℕ → List (List A) → ℕ → ℕ → ℕ → Outcome (List (List A))
  backward_rounds zero bs k start total = if total == 0 then ok bs else stuck
  backward_rounds (suc fuel) bs k start total =
      if total == 0
      then ok bs
      else if leb (length bs) k
      then fault
      else let end = clamp (start + total) start (block_length bs k) in
        if start == 0
        then (do
          cs ← carry_back bs k
          ds ← move cs k 0 1 (end - 1)
          backward_rounds fuel ds (suc k) 0 (total - 1 - (end - 1)))
        else (do
          ds ← move bs k (start - 1) start (end - start)
          backward_rounds fuel ds (suc k) 0 (total - (end - start)))

  unfoldable pub shift_elements_backwards : Vector A → ℕ → ℕ → ℕ → Outcome (List (List A))
  shift_elements_backwards v k start global_index =
      let total = v.size - (global_index + 1) in
      if suc start == block_length v.blocks k
      then backward_rounds (suc (length v.blocks)) v.blocks (suc k) 0 total
      else backward_rounds (suc (length v.blocks)) v.blocks k (suc start) total

  -- The rounds of the loop that opens a gap, from block `k` on to the front. A full block gives the
  -- slot at `start` to the one behind. The block in front of the first is NULL, and its capacity is
  -- read.
  unfoldable pub forward_rounds : ℕ → List (List A) → ℕ → ℕ → ℕ → Outcome (List (List A))
  forward_rounds zero bs k end total = if total == 0 then ok bs else stuck
  forward_rounds (suc fuel) bs k end total =
      let start = sub_no_underflow end total in
      if total == 0 then ok bs else do
        (cs, src, left, last) ← carry_on bs k start end total
        ds ← move cs k (suc src) src (last - src)
        (if k == 0
            then fault
            else forward_rounds fuel ds (k - 1) (block_length ds (k - 1)) (left - (last - src)))

  unfoldable pub shift_elements_forwards : Vector A → ℕ → Outcome (List (List A))
  shift_elements_forwards v global_index =
      forward_rounds (suc (length v.blocks)) v.blocks v.current v.next_insert_index
        ((v.size + 2 ^ 64 - global_index) % 2 ^ 64)

  unfoldable pub vect_clear : Vector A → Vector A
  vect_clear v = record v { size = 0; current = 0; next_insert_index = 0 }

  -- The place of an element; `none` is NULL.
  unfoldable pub vect_ref : Vector A → ℕ → Outcome (Option (ℕ × ℕ))
  vect_ref v index =
      if leb v.size index
      then ok none
      else (do place ← get_block_from_index v.blocks index; ok (some place))

  -- Whether there is the element, and the element.
  unfoldable pub vect_get : Vector A → ℕ → Outcome (Option A)
  vect_get v index = do
    elem ← vect_ref v index
    elim elem [ none ↦ ok none | some place ↦ do x ← load_at v.blocks place.0 place.1; ok (some x) ]

  unfoldable pub vect_peek : Vector A → Outcome (Option A)
  vect_peek v =
      if v.size == 0
      then ok none
      else (do x ← load_at v.blocks v.current v.next_insert_index; ok (some x))

  unfoldable pub vect_pop : Vector A → Outcome (Option A × Vector A)
  vect_pop v = do
    res ← vect_peek v
    elim res [ none ↦ ok (none, v) | some x ↦ do w ← register_removal v; ok (some x, w) ]

  unfoldable pub vect_remove : Vector A → ℕ → Outcome (Option A × Vector A)
  vect_remove v idx = if leb v.size idx then ok (none, v) else do
    (k, i) ← get_block_from_index v.blocks idx
    x ← load_at v.blocks k i
    bs ← shift_elements_backwards v k i idx
    w ← register_removal (record v { blocks = bs })
    ok (some x, w)

-- What a new block holds is `uninit`.
module _ {A : Type 0} (uninit : A) where
  unfoldable pub vect_init_dynamic : ℕ → Vector A
  vect_init_dynamic initial_capacity = record {
    blocks = replicate initial_capacity uninit ∷ [];
    current = 0;
    next_insert_index = 0;
    capacity = initial_capacity % 2 ^ 32;
    size = 0;
    arena = true;
  }

  unfoldable pub vect_init : ℕ → Vector A
  vect_init capacity = record {
    blocks = replicate capacity uninit ∷ [];
    current = 0;
    next_insert_index = 0;
    capacity = capacity % 2 ^ 32;
    size = 0;
    arena = false;
  }

  -- The new block, for which the arena is taken to have room (else `alloc_block` aborts), follows the
  -- current one, whatever followed that before.
  unfoldable pub grown : Vector A → Vector A
  grown v = record v {
    blocks = take (suc v.current) v.blocks ++ (replicate (v.capacity / 2) uninit ∷ []);
    capacity = (v.capacity + v.capacity / 2) % 2 ^ 32;
  }

  -- Under the same assumption on the arena; without an arena a vector that is full stays as it is.
  unfoldable pub ensure_capacity : Vector A → ℕ → Bool × Vector A
  ensure_capacity v size =
      if leb size v.capacity
      then (true, v)
      else if not v.arena
      then (false, v)
      else if v.next_insert_index == block_length v.blocks v.current
      then (true, record (grown v) { current = suc v.current; next_insert_index = 0 })
      else (true, grown v)

  -- An element that does not fit is dropped.
  unfoldable pub vect_add : Vector A → A → Outcome (Vector A)
  vect_add vector element =
      let (fits, v) = ensure_capacity vector ((vector.size + 1) % 2 ^ 32) in
      if not fits then ok v else do
        bs ← store_at v.blocks v.current v.next_insert_index element
        ok (register_addition (record v { blocks = bs }))

  -- The place of the slot that the caller may fill; `none` is NULL.
  unfoldable pub vect_reserve : Vector A → Option (ℕ × ℕ) × Vector A
  vect_reserve vector =
      let (fits, v) = ensure_capacity vector ((vector.size + 1) % 2 ^ 32) in
      if not fits then (none, v) else (some (v.current, v.next_insert_index), register_addition v)

  unfoldable pub vect_insert : Vector A → A → ℕ → Outcome (Vector A)
  vect_insert vector element idx =
      let (fits, v) = ensure_capacity vector ((vector.size + 1) % 2 ^ 32) in
      if not fits then ok v else do
        (k, i) ← get_block_from_index v.blocks idx
        bs ← shift_elements_forwards v idx
        cs ← store_at bs k i element
        ok (register_addition (record v { blocks = cs }))
