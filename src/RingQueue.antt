-- ===== src/RingQueue.antt =====
-- containers/ring_queue.c: a queue of bounded capacity in a circular area.
-- An element of `stride` bytes is one slot of the area, so the byte offset `stride * i` is the
-- index `i`; the u32 product `stride * i` is taken not to wrap. Logging is left out.
pub mod Spec
pub mod Refine
pub mod Client
mod Tests
use mcsrv.Common.{
  ℕ, ◌+◌, ◌-◌, ◌%◌, ◌^◌, Bool, true, false, List, [], ◌∷◌, Option, none, some, ◌==◌, if◌then◌else◌,
  memcpy, load,
}
use mcsrv.Common.Outcome.{Outcome, ok, ◌>>=◌}

-- `struct ring_queue`
pub record RingQueue (A : Type 0) : Type 0 where
  pub block : List A
  pub start : ℕ
  pub end : ℕ
  pub capacity : ℕ
  pub len : ℕ

module _ {A : Type 0} where
  -- `rqueue_create` over the slots that the arena hands out.
  pub rqueue_create : List A → ℕ → RingQueue A
  rqueue_create area size = record { block = area; start = 0; end = 0; capacity = size; len = 0 }

  -- `(end + 1) % queue->capacity` on u32
  unfoldable pub next_slot : RingQueue A → ℕ → ℕ
  next_slot q i = (i + 1) % 2 ^ 32 % q.capacity

  pub advance_end : RingQueue A → RingQueue A
  unfolding next_slot
  advance_end q = record q { end = next_slot q q.end; len = (q.len + 1) % 2 ^ 32 }

  -- The slot that the caller may fill; `none` is the NULL of a full queue.
  pub rqueue_reserve : RingQueue A → Option ℕ × RingQueue A
  unfolding advance_end
  rqueue_reserve q = if q.len == q.capacity then (none, q) else (some q.end, advance_end q)

  pub rqueue_enqueue : RingQueue A → A → Outcome (Bool × RingQueue A)
  unfolding advance_end
  rqueue_enqueue q value = if q.len == q.capacity then ok (false, q) else do
    block ← memcpy q.block q.end (value ∷ [])
    ok (true, advance_end (record q { block = block }))

  pub drop_first : RingQueue A → RingQueue A
  unfolding next_slot
  drop_first q = record q { start = next_slot q q.start; len = (q.len + 2 ^ 32 - 1) % 2 ^ 32 }

  -- `wanted` says whether `out_value` is given; the list holds what is copied to it.
  pub rqueue_dequeue : RingQueue A → Bool → Outcome (Bool × List A × RingQueue A)
  unfolding drop_first
  rqueue_dequeue q wanted =
      if q.len == 0
      then ok (false, [], q)
      else if wanted
      then (do out ← load q.block q.start 1; ok (true, out, drop_first q))
      else ok (true, [], drop_first q)

  -- What the returned pointer leads to; no element is NULL.
  pub rqueue_peek : RingQueue A → Outcome (List A)
  rqueue_peek q = if q.len == 0 then ok [] else load q.block q.start 1
