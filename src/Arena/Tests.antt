-- ===== src/Arena/Tests.antt =====
-- A concrete arena.
use mcsrv.Common.{ℕ, ◌≡◌, refl, [], ◌∷◌, arith}
use mcsrv.Common.Outcome.{ok}
use mcsrv.Math.{ceil_u64}
use mcsrv.Arena.{Arena, no_save, arena_allocate, arena_save, arena_restore}
use mcsrv.Arena.Alloc.{
  IsValid, Region, allocate_all, arena_allocate-Region, restore-allocate_all-save,
}

-- 16 of 64 bytes used.
abbrev small_arena : Arena
small_arena = record { block = 4096; capacity = 64; len = 16; saved_length = no_save }

-- The same, after a save and an allocation of 13 bytes.
abbrev after_one : Arena
after_one = record small_arena { len = 32; saved_length = 16 }

abbrev after_two : Arena
after_two = record small_arena { len = 40; saved_length = 16 }

small_arena-IsValid : IsValid small_arena
small_arena-IsValid = record {
  small = omega arith;
  used = omega arith;
  aligned = refl;
  placed = omega arith;
}

arena_allocate-Region_example :
    (at : ℕ) × (a' : Arena) × (arena_allocate small_arena 13 ≡ ok (at, a'))
    × Region small_arena 13 at a'
arena_allocate-Region_example =
    arena_allocate-Region small_arena 13 small_arena-IsValid (omega arith)
      (unfold ceil_u64 in omega arith)

restore-allocate_all-save_example : arena_restore after_two ≡ small_arena
unfolding allocate_all arena_save arena_allocate
restore-allocate_all-save_example =
    restore-allocate_all-save small_arena (13 ∷ 8 ∷ []) after_two small_arena-IsValid refl refl
