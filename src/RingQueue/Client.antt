-- ===== src/RingQueue/Client.antt =====
-- The single calls, for clients of the queue.
use mcsrv.Common.{
  ◌<◌, ◌≡◌, Bool, true, false, [], ◌∷◌, ◌++◌, take, drop, ◌==◌, if◌then◌else◌, memcpy-ok, arith,
}
use mcsrv.Common.Outcome.{ok}
use native.Mathlib.Decide.{ℕ_discrete}
use mcsrv.RingQueue.{RingQueue, rqueue_enqueue, rqueue_dequeue, rqueue_peek, drop_first}
use mcsrv.RingQueue.Refine.{
  IsValid, contents, dropped-IsValid, contents-dropped, load-first, length-contents, pushed,
  pushed-IsValid, contents-pushed,
}

module _ {A : Type 0} where
  pub rqueue_peek-contents :
      (q : RingQueue A) → IsValid q → 0 < q.len → rqueue_peek q ≡ ok (take 1 (contents q))
  unfolding rqueue_peek
  rqueue_peek-contents q v h = ground (arith, load-first q v h)

  pub rqueue_dequeue-contents :
      (q : RingQueue A)
      → IsValid q
      → 0 < q.len
      → (q' : RingQueue A) × (rqueue_dequeue q false ≡ ok (true, [], q'))
        × IsValid q'
        × (contents q' ≡ drop 1 (contents q))
  unfolding rqueue_dequeue
  rqueue_dequeue-contents q v h =
      (drop_first q, ground arith, dropped-IsValid q v h, contents-dropped q v h)

  -- An element is added, or dropped when the queue is full.
  pub rqueue_enqueue-contents :
      (q : RingQueue A) (x : A)
      → IsValid q
      → (done : Bool) × (q' : RingQueue A) × (rqueue_enqueue q x ≡ ok (done, q'))
        × IsValid q'
        × (contents q' ≡ (if q.len == q.capacity then contents q else contents q ++ (x ∷ [])))
  unfolding rqueue_enqueue
  rqueue_enqueue-contents q x v = elim (ℕ_discrete q.len q.capacity) [
    | yes e ↦ (false, q, ground arith, v, ground arith)
    | no ne ↦ (
      true,
      pushed q x,
      ground (arith, length-contents q v, memcpy-ok q.block q.end (x ∷ [])),
      pushed-IsValid q x v ne,
      ground (arith, contents-pushed q x v ne),
    )
  ]
