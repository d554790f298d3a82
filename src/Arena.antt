-- ===== src/Arena.antt =====
-- memory/arena.c: stack allocation inside one block of memory.
-- Addresses are numbers. The calls that keep the allocation statistics and the log are left out:
-- they do not read or change the arena.
pub mod Alloc
mod Tests
use mcsrv.Common.{
  ℕ, ◌+◌, ◌-◌, ◌%◌, ◌^◌, Bool, ◌||◌, Option, none, some, ltb, leb, ◌==◌, if◌then◌else◌,
}
use mcsrv.Common.Int.{add64, sub64}
use mcsrv.Common.Outcome.{Outcome, ok, abort}
use mcsrv.Math.{ceil_u64}

-- `struct arena`, without the index of its statistics and its logging flag.
pub record Arena : Type 0 where
  pub block : ℕ
  pub capacity : ℕ
  pub len : ℕ
  pub saved_length : ℕ

-- `~0` on u64
abbrev pub no_save : ℕ
no_save = 2 ^ 64 - 1

-- `malloc` gives the address of the block, or NULL, for which all fields are 0.
unfoldable pub arena_create : Option ℕ → ℕ → Arena
arena_create none size = record { block = 0; capacity = 0; len = 0; saved_length = 0 }
arena_create (some block) size = record {
  block = block;
  capacity = size;
  len = 0;
  saved_length = no_save;
}

-- The address of the region, and the arena after the call; the size is rounded up to the size of
-- a pointer, 8.
unfoldable pub arena_allocate : Arena → ℕ → Outcome (ℕ × Arena)
unfolding ceil_u64
arena_allocate arena asked =
    let bytes = ceil_u64 asked 8 in
    if ltb (sub64 arena.capacity arena.len) bytes
    then abort
    else ok (add64 arena.block arena.len, record arena { len = add64 arena.len bytes })

unfoldable pub arena_free : Arena → ℕ → Arena
arena_free arena asked =
    let bytes = if ltb arena.len asked then arena.len else asked in
    record arena { len = sub64 arena.len bytes }

unfoldable pub arena_free_ptr : Arena → ℕ → Arena
arena_free_ptr arena ptr =
    if ltb ptr arena.block || leb (add64 arena.block arena.len) ptr
    then arena
    else record arena { len = sub64 ptr arena.block }

unfoldable pub arena_save : Arena → Arena
arena_save arena =
    if arena.saved_length == no_save then record arena { saved_length = arena.len } else arena

unfoldable pub arena_restore : Arena → Arena
unfolding arena_free
arena_restore arena =
    let a =
      (if leb arena.saved_length arena.len
        then arena_free arena (sub64 arena.len arena.saved_length)
        else arena) in
    record a { saved_length = no_save }

unfoldable pub arena_recent_pos : Arena → ℕ
arena_recent_pos arena = add64 arena.block arena.saved_length

unfoldable pub arena_recent_length : Arena → ℕ
arena_recent_length arena = sub64 arena.len arena.saved_length
