-- ===== src/Arena/Alloc.antt =====
-- The arena as a stack: regions are disjoint, and a restore undoes what followed the save.
use mcsrv.Common.{ℕ, ◌+◌, ◌-◌, ◌%◌, ◌^◌, ◌≤◌, ◌<◌, ◌≡◌, ◌≢◌, List, [], ◌∷◌, arith}
use mcsrv.Common.Outcome.{Outcome, ok, abort, ◌>>=◌, ran}
use mcsrv.Math.{ceil_u64}
use mcsrv.Math.Ceil.{ceil_u64_bounds}
use mcsrv.Arena.{
  Arena, no_save, arena_allocate, arena_free, arena_free_ptr, arena_save, arena_restore,
}

pub record IsValid (a : Arena) : Type 0 where
  pub small : a.capacity < 2 ^ 62
  pub used : a.len ≤ a.capacity
  pub aligned : a.len % 8 ≡ 0
  pub placed : a.block + a.capacity < 2 ^ 64

-- The region that an allocation hands out: it starts where the used part ends, holds the bytes
-- asked for, ends where the used part ends afterwards, and lies inside the block.
pub record Region (a : Arena) (n at : ℕ) (a' : Arena) : Type 0 where
  pub start : at ≡ a.block + a.len
  pub holds : at + n ≤ a.block + a'.len
  pub tight : a'.len < a.len + n + 8
  pub rest : (a'.block ≡ a.block) × (a'.capacity ≡ a.capacity) × (a'.saved_length ≡ a.saved_length)
  pub valid : IsValid a'

-- In a valid arena, an allocation of fewer than 2^62 bytes whose rounded size fits into what is
-- left of the block succeeds, and hands out the region that starts where the used part ends, holds
-- the bytes asked for, and wastes fewer than 8; the arena stays valid.
pub arena_allocate-Region :
    (a : Arena) (n : ℕ)
    → IsValid a
    → n < 2 ^ 62
    → a.len + ceil_u64 n 8 ≤ a.capacity
    → (at : ℕ) × (a' : Arena) × (arena_allocate a n ≡ ok (at, a')) × Region a n at a'
unfolding arena_allocate
arena_allocate-Region a n v small fits = (
  a.block + a.len,
  record a { len = a.len + ceil_u64 n 8 },
  ground (arith, ceil_u64_bounds n 8),
  ground (arith, ceil_u64_bounds n 8),
)

-- In a valid arena, an allocation of fewer than 2^62 bytes whose rounded size is more than what is
-- left of the block aborts.
arena_allocate-abort :
    (a : Arena) (n : ℕ)
    → IsValid a
    → n < 2 ^ 62
    → a.capacity < a.len + ceil_u64 n 8
    → arena_allocate a n ≡ abort
unfolding arena_allocate
arena_allocate-abort a n v small over = ground (arith, ceil_u64_bounds n 8)

-- The allocations of a list of sizes, one after the other.
unfoldable pub allocate_all : Arena → List ℕ → Outcome Arena
allocate_all a [] = ok a
allocate_all a (n ∷ ns) = do (at, a') ← arena_allocate a n; allocate_all a' ns

-- What a successful allocation leaves of the arena, whatever the size.
record Grown (a a' : Arena) : Type 0 where
  same_block : a'.block ≡ a.block
  same_capacity : a'.capacity ≡ a.capacity
  same_save : a'.saved_length ≡ a.saved_length
  grows : a.len ≤ a'.len
  bounded : a'.len ≤ a'.capacity

allocate-Grown :
    (a : Arena) (n at : ℕ) (a' : Arena)
    → a.len ≤ a.capacity
    → a.capacity < 2 ^ 62
    → arena_allocate a n ≡ ok (at, a')
    → Grown a a'
unfolding arena_allocate
allocate-Grown a n at a' used small e = ground arith

allocate_all-Grown :
    (ns : List ℕ) (a a' : Arena)
    → a.len ≤ a.capacity
    → a.capacity < 2 ^ 62
    → allocate_all a ns ≡ ok a'
    → Grown a a'
unfolding allocate_all
allocate_all-Grown [] a a' used small e = ground arith
allocate_all-Grown (n ∷ ns) a a' used small e =
    let ((at, b), q, p) = ran (λ r. allocate_all r.1 ns) a' (arena_allocate a n) e in
    let g = allocate-Grown a n at b used small p in
    let h = allocate_all-Grown ns b a' g.bounded (omega (arith, g.same_capacity)) q in
    ground (arith, g, h)

abbrev marked : Arena → Arena
marked a = record a { saved_length = a.len }

save-marked : (a : Arena) → a.saved_length ≡ no_save → arena_save a ≡ marked a
unfolding arena_save
save-marked a h = ground arith

save_again : (a : Arena) → a.saved_length ≢ no_save → arena_save a ≡ a
unfolding arena_save
save_again a h = ground arith

restore-Grown :
    (a a' : Arena)
    → IsValid a
    → a.saved_length ≡ no_save
    → Grown (marked a) a'
    → arena_restore a' ≡ a
unfolding arena_restore
restore-Grown a a' v unsaved g = ground arith

-- In a valid arena without a save, `arena_save`, any allocations that succeed, and
-- `arena_restore` leave the arena as it was.
pub restore-allocate_all-save :
    (a : Arena) (ns : List ℕ) (a' : Arena)
    → IsValid a
    → a.saved_length ≡ no_save
    → allocate_all (arena_save a) ns ≡ ok a'
    → arena_restore a' ≡ a
restore-allocate_all-save a ns a' v unsaved e =
    restore-Grown a a' v unsaved
      (allocate_all-Grown ns (marked a) a' v.used v.small (rw (save-marked a unsaved) at e))

-- In a valid arena without a save, a save after a save and further allocations is ignored: the
-- restore goes back to the first one.
restore-save-save :
    (a : Arena) (ns ms : List ℕ) (b c : Arena)
    → IsValid a
    → a.saved_length ≡ no_save
    → allocate_all (arena_save a) ns ≡ ok b
    → allocate_all (arena_save b) ms ≡ ok c
    → arena_restore c ≡ a
restore-save-save a ns ms b c v unsaved e f =
    let g = allocate_all-Grown ns (marked a) b v.used v.small (rw (save-marked a unsaved) at e) in
    let kept : b.saved_length ≢ no_save = omega (arith, g) in
    let h = allocate_all-Grown ms b c g.bounded (omega (arith, g)) (rw (save_again b kept) at f) in
    restore-Grown a c v unsaved (ground (arith, g, h))

-- In a valid arena, freeing the address of an allocation undoes the allocation.
free_ptr-allocate :
    (a : Arena) (n at : ℕ) (a' : Arena)
    → IsValid a
    → arena_allocate a n ≡ ok (at, a')
    → arena_free_ptr a' at ≡ a
unfolding arena_allocate arena_free_ptr
free_ptr-allocate a n at a' v e = ground arith

-- `arena_free` gives back the last bytes, and everything when more are asked for.
pub arena_free_lem : (a : Arena) (n : ℕ) → IsValid a → (arena_free a n).len ≡ a.len - n
unfolding arena_free
arena_free_lem a n v = ground arith
