-- ===== src/RingQueue/Refine.antt =====
-- A valid ring queue serves its clients as the bounded queue of its contents.
use mcsrv.Common.{
  ℕ, ◌+◌, ◌-◌, ◌^◌, ◌≤◌, ◌<◌, ◌≡◌, ◌≢◌, refl, Bool, true, false, List, [], ◌∷◌, ◌++◌, if◌then◌else◌,
  length, ltb, take, drop, splice, rotate, load, arith, window-splice, window-drop, window-front,
  add-mod-wrap, length-splice, length-take, length-rotate, memcpy-ok, load-ok,
}
use mcsrv.Common.Outcome.{Outcome, ok, ◌>>=◌}
use mcsrv.RingQueue.{
  RingQueue, rqueue_create, rqueue_enqueue, rqueue_dequeue, rqueue_peek, next_slot, advance_end,
  drop_first,
}
use native.Mathlib.Decide.{ℕ_discrete}
use mcsrv.RingQueue.Spec.{Op, Reply, enqueue, dequeue, peek, step, run}

module _ {A : Type 0} where
  -- The elements held, oldest first.
  abbrev pub contents : RingQueue A → List A
  contents q = take q.len (rotate q.start q.block)

  pub record IsValid (q : RingQueue A) : Type 0 where
    pub area : length q.block ≡ q.capacity
    pub small : q.capacity < 2 ^ 32
    pub start_in : q.start < q.capacity
    pub len_in : q.len ≤ q.capacity
    pub ends : q.end ≡ (
        if ltb (q.start + q.len) q.capacity then q.start + q.len else q.start + q.len - q.capacity)

  next_slot_lem :
      (q : RingQueue A) (i : ℕ)
      → i < q.capacity
      → q.capacity < 2 ^ 32
      → next_slot q i ≡ (if ltb (i + 1) q.capacity then i + 1 else 0)
  unfolding next_slot
  next_slot_lem q i h k = ground (arith, add-mod-wrap i 1 q.capacity)

  abbrev pub pushed : RingQueue A → A → RingQueue A
  pushed q x = advance_end (record q { block = splice q.block q.end (x ∷ []) })

  pub length-contents : (q : RingQueue A) → IsValid q → length (contents q) ≡ q.len
  length-contents q v =
      omega (arith, length-take q.len (rotate q.start q.block), length-rotate q.start q.block)

  pub pushed-IsValid :
      (q : RingQueue A) (x : A) → IsValid q → q.len ≢ q.capacity → IsValid (pushed q x)
  unfolding advance_end
  pushed-IsValid q x v h = ground (
    arith,
    length-splice q.block q.end (x ∷ []),
    next_slot_lem (record q { block = splice q.block q.end (x ∷ []) }) q.end,
  )

  pub contents-pushed :
      (q : RingQueue A) (x : A)
      → IsValid q
      → q.len ≢ q.capacity
      → contents (pushed q x) ≡ contents q ++ (x ∷ [])
  unfolding advance_end
  contents-pushed q x v h = ground (arith, window-splice q.block (x ∷ []) q.start q.len q.end)

  pub dropped-IsValid : (q : RingQueue A) → IsValid q → 0 < q.len → IsValid (drop_first q)
  unfolding drop_first
  dropped-IsValid q v h = ground (arith, next_slot_lem q q.start)

  pub contents-dropped :
      (q : RingQueue A) → IsValid q → 0 < q.len → contents (drop_first q) ≡ drop 1 (contents q)
  unfolding drop_first
  contents-dropped q v h =
      ground
        (arith, next_slot_lem q q.start, window-drop q.block q.start q.len 1 (next_slot q q.start))

  pub load-first :
      (q : RingQueue A) → IsValid q → 0 < q.len → load q.block q.start 1 ≡ ok (take 1 (contents q))
  load-first q v h = ground (arith, load-ok q.block q.start 1, window-front q.block q.start q.len 1)

  -- The state after a call, where the call does not fault.
  call : RingQueue A → Op A → Outcome (Reply A × RingQueue A)
  call q (enqueue x) = do (done, q') ← rqueue_enqueue q x; ok ((done, []), q')
  call q (dequeue wanted) = do (done, out, q') ← rqueue_dequeue q wanted; ok ((done, out), q')
  call q peek = do out ← rqueue_peek q; ok ((ltb 0 (length out), out), q)

  pub serve : RingQueue A → List (Op A) → Outcome (List (Reply A))
  serve q [] = ok []
  serve q (op ∷ ops) = do (r, q') ← call q op; rs ← serve q' ops; ok (r ∷ rs)

  -- A call that does not fault, answers as the bounded queue does, and leaves its queue.
  record Serves (q : RingQueue A) (op : Op A) (q' : RingQueue A) : Type 0 where
    reply : call q op ≡ ok ((step q.capacity (contents q) op).0, q')
    valid : IsValid q'
    held : contents q' ≡ (step q.capacity (contents q) op).1
    same : q'.capacity ≡ q.capacity

  enqueue-full : (q : RingQueue A) (x : A) → IsValid q → q.len ≡ q.capacity → Serves q (enqueue x) q
  unfolding call rqueue_enqueue step
  enqueue-full q x v e = ground (arith, length-contents q v)

  enqueue-Serves :
      (q : RingQueue A) (x : A) → IsValid q → q.len ≢ q.capacity → Serves q (enqueue x) (pushed q x)
  unfolding call rqueue_enqueue step
  enqueue-Serves q x v h = ground (
    arith,
    length-contents q v,
    memcpy-ok q.block q.end (x ∷ []),
    pushed-IsValid q x v h,
    contents-pushed q x v h,
  )

  dequeue-empty :
      (q : RingQueue A) (wanted : Bool) → IsValid q → q.len ≡ 0 → Serves q (dequeue wanted) q
  unfolding call rqueue_dequeue step
  dequeue-empty q wanted v e = ground (arith, length-contents q v)

  dequeue-Serves :
      (q : RingQueue A) (wanted : Bool)
      → IsValid q
      → 0 < q.len
      → Serves q (dequeue wanted) (drop_first q)
  unfolding call rqueue_dequeue step
  dequeue-Serves q true v h =
      ground (
        arith,
        length-contents q v,
        load-first q v h,
        dropped-IsValid q v h,
        contents-dropped q v h,
      )
  dequeue-Serves q false v h =
      ground (arith, length-contents q v, dropped-IsValid q v h, contents-dropped q v h)

  peek-Serves : (q : RingQueue A) → IsValid q → Serves q peek q
  unfolding call rqueue_peek step
  peek-Serves q v = ground (arith, length-contents q v, load-first q v, length-take 1 (contents q))

  call-Serves : (q : RingQueue A) (op : Op A) → IsValid q → (q' : RingQueue A) × Serves q op q'
  call-Serves q (enqueue x) v = elim (ℕ_discrete q.len q.capacity) [
    | yes e ↦ (q, enqueue-full q x v e)
    | no ne ↦ (pushed q x, enqueue-Serves q x v ne)
  ]
  call-Serves q (dequeue wanted) v = elim (ℕ_discrete q.len 0) [
    | yes e ↦ (q, dequeue-empty q wanted v e)
    | no ne ↦ (drop_first q, dequeue-Serves q wanted v (omega arith))
  ]
  call-Serves q peek v = (q, peek-Serves q v)

  -- A valid ring queue never faults, and answers every sequence of calls, refused ones included,
  -- as the bounded queue that starts with its contents.
  pub serve_refines :
      (ops : List (Op A)) (q : RingQueue A)
      → IsValid q
      → serve q ops ≡ ok (run q.capacity (contents q) ops)
  unfolding serve run
  serve_refines [] q v = refl
  serve_refines (op ∷ ops) q v =
      let (q', s) = call-Serves q op v in rw (s.reply, serve_refines ops q' s.valid, s.held, s.same)

  -- What `rqueue_create` returns over an area of its size is valid and empty.
  pub rqueue_create-IsValid :
      (area : List A) (size : ℕ)
      → length area ≡ size
      → 0 < size
      → size < 2 ^ 32
      → IsValid (rqueue_create area size) × (contents (rqueue_create area size) ≡ [])
  unfolding rqueue_create
  rqueue_create-IsValid area size h p k = ground arith
