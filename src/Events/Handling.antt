-- ===== src/Events/Handling.antt =====
-- What comes of registrations and of events after the start.
use mcsrv.Common.{
  ℕ, zero, suc, ◌^◌, ◌<◌, ◌≤◌, ◌≡◌, ◌≢◌, refl, ap, ◌∙◌, Bool, true, false, not, ◌&&◌, ◌||◌, List,
  [], ◌∷◌, ◌++◌, some, ◌==◌, if◌then◌else◌, replicate, length, take, drop, length-append,
  Bool-cases, inl, inr, ◌⊎◌, arith,
}
use native.Mathlib.Decide.{ℕ_discrete}
use mcsrv.Common.Outcome.{Outcome, ok, abort, fault, stuck, ◌>>=◌}
use mcsrv.Events.{
  TriggeredEvent, EventContext, Call, EventMemory, event_register_event, event_register_listener,
  event_system_init, notify, process_rounds, process_event_queue, trigger_all, event_trigger,
  event_handle,
}
use mcsrv.Events.Registry.{
  stop_registry, stop_entry, event_system_init_lem, dict_get-stop, dict_get-unregistered,
  entry_at-front, entry_at-stop,
}
use mcsrv.Vector.Blocks.{flat}
use mcsrv.Vector.{vect_init}
use mcsrv.RingQueue.{RingQueue, rqueue_create, rqueue_dequeue, rqueue_peek}
use mcsrv.RingQueue.Refine.{IsValid, contents, length-contents, rqueue_create-IsValid}
use mcsrv.RingQueue.Client.{rqueue_peek-contents, rqueue_dequeue-contents, rqueue_enqueue-contents}

module _ {H U I : Type 0} (mem : EventMemory H U I) where
  -- After the start every registration of an event is refused, and leaves the state as it is.
  pub event_register_event-refused :
      (code : ℕ) (name : List ℕ)
      → code < 2 ^ 32
      → (do ctx ← event_system_init mem; event_register_event mem ctx code name)
        ≡ event_system_init mem
  unfolding event_register_event
  event_register_event-refused code name small = elim (ℕ_discrete code 0) [
    | yes e ↦ rw (e, event_system_init_lem mem, ◌>>=◌, dict_get-stop mem) refl
    | no ne ↦ rw (event_system_init_lem mem, ◌>>=◌, dict_get-unregistered mem code small ne) refl
  ]

  -- After the start the registration of a listener for another event than STOP faults.
  event_register_listener-fault :
      (code : ℕ) (handler : H) (user_data : U)
      → code < 2 ^ 32
      → code ≢ 0
      → (do
        ctx ← event_system_init mem
        event_register_listener mem ctx code (some handler) user_data)
        ≡ fault
  unfolding event_register_listener
  event_register_listener-fault code handler user_data small ne =
      let other : (code == 0) ≡ false = ground (arith, ne) in
      rw
        (
          event_system_init_lem mem,
          ◌>>=◌,
          other,
          dict_get-unregistered mem code small ne,
          entry_at-front mem,
        )
        refl

  -- Whether all events are STOP.
  abbrev pub all_stop : List (TriggeredEvent I) → Bool
  all_stop [] = true
  all_stop (e ∷ es) = e.code == 0 && all_stop es

  abbrev pub pending : List (TriggeredEvent I) → Bool
  pending [] = false
  pending (e ∷ es) = true

  -- The state with a queue.
  abbrev waiting : RingQueue (TriggeredEvent I) → Bool → EventContext H U I
  waiting q running = record { event_registry = stop_registry mem; queue = q; running = running }

  -- The first event of the queue, and the queue without it.
  next_event :
      (q : RingQueue (TriggeredEvent I)) (e : TriggeredEvent I) (es : List (TriggeredEvent I))
      → IsValid q
      → contents q ≡ e ∷ es
      → ((q.len == 0) ≡ false)
        × (rqueue_peek q ≡ ok (e ∷ []))
        × (q' : RingQueue (TriggeredEvent I)) × (rqueue_dequeue q false ≡ ok (true, [], q'))
        × IsValid q'
        × (contents q' ≡ es)
  next_event q e es v held =
      let some_len : 0 < q.len = omega (arith, length-contents q v, ap length held) in
      let (q', taken, v', rest) = rqueue_dequeue-contents q v some_len in
      (
        ground arith,
        rqueue_peek-contents q v some_len ∙ ap (λ xs. ok (take 1 xs)) held,
        q',
        taken,
        v',
        rest ∙ ap (drop 1) held,
      )

  -- The STOP event has no listeners.
  notify-stop :
      (info : I) → notify mem (stop_entry mem).listeners.size 0 (stop_entry mem) 0 info ≡ ok []
  unfolding notify vect_init
  notify-stop info = refl

  -- A STOP event is taken and notes that the loop is to stop.
  process_rounds-notify :
      (fuel : ℕ) (q q' : RingQueue (TriggeredEvent I)) (e : TriggeredEvent I) (running stop : Bool)
      → (q.len == 0) ≡ false
      → rqueue_peek q ≡ ok (e ∷ [])
      → rqueue_dequeue q false ≡ ok (true, [], q')
      → e.code ≡ 0
      → process_rounds mem (suc fuel) (waiting q running) stop
        ≡ process_rounds mem fuel (waiting q' running) true
  unfolding process_rounds
  process_rounds-notify fuel q q' e running stop more front taken code =
      let stopping : rqueue_peek q ≡ ok (record { info = e.info; code = 0 } ∷ []) =
        front ∙ ap (λ c. ok (record { info = e.info; code = c } ∷ [])) code in
      rw (more, stopping, ◌>>=◌, dict_get-stop mem, entry_at-stop mem, notify-stop e.info, taken)
        (rebuilt (process_rounds mem fuel (waiting q' running) true))
    where
      rebuilt :
          {R : Type 0}
          → (m : Outcome (Bool × List (Call H U I) × R))
          → (do (s, calls, c) ← m; ok (s, [] ++ calls, c)) ≡ m
      rebuilt (ok r) = refl
      rebuilt abort = refl
      rebuilt fault = refl
      rebuilt stuck = refl

  stopping :
      {R : Type 0}
      → (stop b : Bool) (m : Outcome (Bool × List (Call H U I) × R)) (r : R)
      → m ≡ ok (true || b, [], r)
      → m ≡ ok (stop || true, [], r)
  stopping true b m r h = h
  stopping false b m r h = h

  process_rounds-stop :
      (es : List (TriggeredEvent I)) (fuel : ℕ) (q : RingQueue (TriggeredEvent I))
      (running stop : Bool)
      → IsValid q
      → contents q ≡ es
      → length es < fuel
      → all_stop es ≡ true
      → (q' : RingQueue (TriggeredEvent I)) × (process_rounds mem fuel (waiting q running) stop
          ≡ ok (stop || pending es, [], waiting q' running))
        × IsValid q'
        × (contents q' ≡ [])
  unfolding process_rounds
  process_rounds-stop es zero q running stop v held lt all = absurd (omega arith)
  process_rounds-stop [] (suc fuel) q running stop v held lt all =
      let empty : (q.len == 0) ≡ true = ground (arith, length-contents q v) in
      (q, rw empty (ground arith), v, held)
  process_rounds-stop (e ∷ es) (suc fuel) q running stop v held lt all =
      let (more, front, q1, taken, v1, rest) = next_event q e es v held in
      let code : e.code ≡ 0 = ground (arith, all) in
      let (q', done, v', end) =
        process_rounds-stop es fuel q1 running true v1 rest (omega arith) (ground (arith, all)) in
      (
        q',
        stopping stop (pending es) (process_rounds mem (suc fuel) (waiting q running) stop)
            (waiting q' running)
            (process_rounds-notify fuel q q1 e running stop more front taken code ∙ done),
        v',
        end,
      )

  -- An event that is not registered ends the server, once the events in front of it are handled: its
  -- entry is looked for at the index 0, where there is none.
  process_rounds-unregistered :
      (stops : List (TriggeredEvent I)) (e : TriggeredEvent I) (es : List (TriggeredEvent I))
      (fuel : ℕ) (q : RingQueue (TriggeredEvent I)) (running stop : Bool)
      → IsValid q
      → contents q ≡ stops ++ (e ∷ es)
      → length stops < fuel
      → all_stop stops ≡ true
      → e.code < 2 ^ 32
      → e.code ≢ 0
      → process_rounds mem fuel (waiting q running) stop ≡ fault
  unfolding process_rounds
  process_rounds-unregistered stops e es zero q running stop v held lt all small ne =
      absurd (omega arith)
  process_rounds-unregistered [] e es (suc fuel) q running stop v held lt all small ne =
      let (more, front, q1, taken, v1, rest) = next_event q e es v held in
      rw (more, front, ◌>>=◌, dict_get-unregistered mem e.code small ne, entry_at-front mem) refl
  process_rounds-unregistered (s ∷ stops) e es (suc fuel) q running stop v held lt all small ne =
      let (more, front, q1, taken, v1, rest) = next_event q s (stops ++ (e ∷ es)) v held in
      let code : s.code ≡ 0 = ground (arith, all) in
      let later =
        process_rounds-unregistered stops e es fuel q1 running true v1 rest (omega arith)
          (ground (arith, all)) small ne in
      process_rounds-notify fuel q q1 s running stop more front taken code ∙ later

  -- When the queue holds STOP events and behind them one that is not registered, its handling
  -- accesses the memory behind NULL.
  pub process_event_queue-unregistered :
      (stops : List (TriggeredEvent I)) (e : TriggeredEvent I) (es : List (TriggeredEvent I))
      (q : RingQueue (TriggeredEvent I)) (running : Bool)
      → IsValid q
      → contents q ≡ stops ++ (e ∷ es)
      → all_stop stops ≡ true
      → e.code < 2 ^ 32
      → e.code ≢ 0
      → process_event_queue mem
          (record { event_registry = stop_registry mem; queue = q; running = running })
        ≡ fault
  unfolding process_event_queue
  process_event_queue-unregistered stops e es q running v held all small ne =
      let fuel : length stops < suc q.len =
        omega (arith, length-contents q v, ap length held, length-append stops (e ∷ es)) in
      rw
        (process_rounds-unregistered stops e es (suc q.len) q running false v held fuel all small
          ne)
        refl

  all_stop-append :
      (xs ys : List (TriggeredEvent I))
      → all_stop xs ≡ true
      → all_stop ys ≡ true
      → all_stop (xs ++ ys) ≡ true
  all_stop-append [] ys h k = k
  all_stop-append (x ∷ xs) ys h k = ground (arith, all_stop-append xs ys)

  all_stop-front :
      (xs ys : List (TriggeredEvent I)) → all_stop (xs ++ ys) ≡ true → all_stop xs ≡ true
  all_stop-front [] ys h = refl
  all_stop-front (x ∷ xs) ys h = ground (arith, all_stop-front xs ys)

  held-enqueued :
      (q : RingQueue (TriggeredEvent I)) (e : TriggeredEvent I)
      → all_stop (contents q) ≡ true
      → all_stop (e ∷ []) ≡ true
      → all_stop (if q.len == q.capacity then contents q else contents q ++ (e ∷ [])) ≡ true
  held-enqueued q e held alone = elim (Bool-cases (q.len == q.capacity)) [
    | inl full ↦ rw full held
    | inr room ↦ rw room (all_stop-append (contents q) (e ∷ []) held alone)
  ]

  -- The queue grows, or is full.
  length-enqueued :
      (q : RingQueue (TriggeredEvent I)) (e : TriggeredEvent I)
      → IsValid q
      → (q.len ≤ length (if q.len == q.capacity then contents q else contents q ++ (e ∷ [])))
        × (0 < length (if q.len == q.capacity then contents q else contents q ++ (e ∷ [])))
  length-enqueued q e v = elim (Bool-cases (q.len == q.capacity)) [
    | inl full ↦ rw full (ground (arith, length-contents q v, v.start_in))
    | inr room ↦ rw room (ground (arith, length-contents q v, length-append (contents q) (e ∷ [])))
  ]

  -- What is in the queue after STOP events were triggered.
  trigger_all-stop :
      (es : List (TriggeredEvent I)) (q : RingQueue (TriggeredEvent I)) (running : Bool)
      → IsValid q
      → all_stop (contents q) ≡ true
      → all_stop es ≡ true
      → (q' : RingQueue (TriggeredEvent I)) × (trigger_all mem (waiting q running) es
          ≡ ok (waiting q' running))
        × IsValid q'
        × (all_stop (contents q') ≡ true)
        × (q.len ≤ q'.len)
        × ((length es ≡ 0) ⊎ (0 < q'.len))
  unfolding trigger_all event_trigger
  trigger_all-stop [] q running v held all = (q, refl, v, held, omega arith, inl refl)
  trigger_all-stop (e ∷ es) q running v held all =
      let (done, q1, put, v1, new) = rqueue_enqueue-contents q e v in
      let alone : all_stop (e ∷ []) ≡ true = ground (arith, all) in
      let held1 : all_stop (contents q1) ≡ true = rw new (held-enqueued q e held alone) in
      let kept : q.len ≤ q1.len =
        omega (arith, (length-enqueued q e v).0, ap length new, length-contents q1 v1) in
      let nonempty : 0 < q1.len =
        omega (arith, (length-enqueued q e v).1, ap length new, length-contents q1 v1) in
      let (q', triggered, v', held', more, later) =
        trigger_all-stop es q1 running v1 held1 (ground (arith, all)) in
      (q', rw (put, ◌>>=◌) triggered, v', held', omega arith, inr (omega arith))

  -- What is triggered is handled; the loop stops if there was something.
  process_event_queue-stop :
      (q : RingQueue (TriggeredEvent I)) (running : Bool)
      → IsValid q
      → all_stop (contents q) ≡ true
      → (q' : RingQueue (TriggeredEvent I)) × (process_event_queue mem (waiting q running)
          ≡ ok (not (pending (contents q)), [], waiting q' running))
        × IsValid q'
        × (contents q' ≡ [])
  unfolding process_event_queue
  process_event_queue-stop q running v all =
      let (q', done, v', end) =
        process_rounds-stop (contents q) (suc q.len) q running false v refl
          (omega (arith, length-contents q v)) all in
      (q', rw (done, ◌>>=◌) refl, v', end)

  pending-nonempty : (es : List (TriggeredEvent I)) → 0 < length es → pending es ≡ true
  pending-nonempty [] h = absurd (omega (arith, h))
  pending-nonempty (e ∷ es) h = refl

  -- The loop ends with the state in which it is after its last round.
  event_handle-stopped :
      (q : RingQueue (TriggeredEvent I)) (later : List (List (TriggeredEvent I)))
      → event_handle mem (waiting q false) later ≡ ok ([], waiting q false)
  unfolding event_handle
  event_handle-stopped q [] = refl
  event_handle-stopped q (es ∷ later) = refl

  event_handle-running :
      (groups : List (List (TriggeredEvent I))) (q : RingQueue (TriggeredEvent I))
      → IsValid q
      → contents q ≡ []
      → all_stop (flat groups) ≡ true
      → 0 < length (flat groups)
      → (q' : RingQueue (TriggeredEvent I)) × (event_handle mem (waiting q true) groups
          ≡ ok ([], waiting q' false))
        × (contents q' ≡ [])
  unfolding event_handle trigger_all flat
  event_handle-running [] q v held all some_event = absurd (omega (arith, some_event))
  event_handle-running ([] ∷ groups) q v held all some_event =
      let (q1, done, v1, end1) = process_event_queue-stop q true v (ap all_stop held) in
      let (q', handled, end) = event_handle-running groups q1 v1 end1 all some_event in
      let idle : not (pending (contents q)) ≡ true = ap (λ es. not (pending es)) held in
      (q', rw (done, ◌>>=◌, idle, handled) refl, end)
  event_handle-running ((e ∷ es) ∷ groups) q v held all some_event =
      let (q1, triggered, v1, held1, more, grown) =
        trigger_all-stop (e ∷ es) q true v (ap all_stop held)
          (all_stop-front (e ∷ es) (flat groups) all) in
      let (q', done, v', end) = process_event_queue-stop q1 true v1 held1 in
      let filled : 0 < q1.len = elim grown [
        | inl none_added ↦ absurd (omega arith)
        | inr one ↦ one
      ] in
      let stops : not (pending (contents q1)) ≡ false =
        ap not (pending-nonempty (contents q1) (omega (arith, length-contents q1 v1))) in
      (q', rw (triggered, ◌>>=◌, done, stops, event_handle-stopped q' groups) refl, end)

  -- After the start, when the events that are triggered are all STOP and there is one at least, then
  -- however they are grouped, the loop ends: it calls no handler and leaves the queue empty.
  pub event_handle-ends :
      (groups : List (List (TriggeredEvent I)))
      → all_stop (flat groups) ≡ true
      → 0 < length (flat groups)
      → (ctx' : EventContext H U I) × ((do ctx ← event_system_init mem; event_handle mem ctx groups)
          ≡ ok ([], ctx'))
        × (ctx'.running ≡ false)
        × (contents ctx'.queue ≡ [])
  event_handle-ends groups all some_event =
      let (v, empty) =
        rqueue_create-IsValid (replicate 32 mem.event) 32 refl (omega arith) (omega arith) in
      let (q', handled, end) =
        event_handle-running groups (rqueue_create (replicate 32 mem.event) 32) v empty all
          some_event in
      (waiting q' false, rw (event_system_init_lem mem, ◌>>=◌) handled, refl, end)
