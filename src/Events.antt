-- ===== src/Events.antt =====
-- event/event.c: the events that were triggered wait in a ring queue, and a dictionary keeps the
-- listeners of each registered event. The mutex, the condition variable and logging are left out.
pub mod Registry
pub mod Handling
mod Tests
use mcsrv.Common.{
  ℕ, zero, suc, ◌+◌, ◌-◌, ◌*◌, ◌/◌, ◌%◌, ◌^◌, Bool, true, false, not, ◌||◌, List, [], ◌∷◌, ◌++◌,
  Option, none, some, ◌==◌, if◌then◌else◌, set, replicate, get_elem?,
}
use mcsrv.Common.Int.{ℤ, pos, negsuc}
use mcsrv.Common.Outcome.{Outcome, ok, fault, stuck, ◌>>=◌}
use mcsrv.Dict.{Slot, Dict, default_comparator, dict_init_fixed, dict_get, dict_put, dict_ref}
use mcsrv.RingQueue.{RingQueue, rqueue_create, rqueue_enqueue, rqueue_dequeue, rqueue_peek}
use mcsrv.Vector.{Vector, vect_init, vect_add, vect_ref}
use mcsrv.Vector.Blocks.{load_at}

-- `H` are the handlers, `U` the pointers to user data, `I` the infos.
pub record EventListener (H U : Type 0) : Type 0 where
  pub user_data : U
  pub handler : H

pub record EventEntry (H U : Type 0) : Type 0 where
  pub listeners : Vector (EventListener H U)
  pub name : List ℕ

pub record TriggeredEvent (I : Type 0) : Type 0 where
  pub info : I
  pub code : ℕ

pub record EventContext (H U I : Type 0) : Type 0 where
  pub event_registry : Dict (List ℕ) (EventEntry H U)
  pub queue : RingQueue (TriggeredEvent I)
  pub running : Bool

-- A call of a handler.
pub record Call (H U I : Type 0) : Type 0 where
  pub handler : H
  pub code : ℕ
  pub user_data : U
  pub info : I

-- What the arena's memory holds before it is written, and the info without data.
pub record EventMemory (H U I : Type 0) : Type 0 where
  pub listener : EventListener H U
  pub entry : EventEntry H U
  pub event : TriggeredEvent I
  pub no_info : I

-- The four bytes of a u32, the lowest first.
abbrev pub code_bytes : ℕ → List ℕ
code_bytes code =
    code % 2 ^ 8 ∷ (code / 2 ^ 8) % 2 ^ 8 ∷ (code / 2 ^ 16) % 2 ^ 8 ∷ (code / 2 ^ 24) % 2 ^ 8 ∷ []

-- "STOP"
abbrev pub stop_name : List ℕ
stop_name = 83 ∷ 84 ∷ 79 ∷ 80 ∷ []

module _ {H U I : Type 0} (mem : EventMemory H U I) where
  abbrev pub blank : Slot (List ℕ) (EventEntry H U)
  blank = record { hash = 0; key = replicate 4 0; value = mem.entry }

  unfoldable pub event_register_event :
      EventContext H U I → ℕ → List ℕ → Outcome (EventContext H U I)
  event_register_event ctx code name = do
    (idx, value) ← dict_get default_comparator ctx.event_registry (code_bytes code) false
    elim idx [
      | pos i ↦ ok ctx
      | negsuc i ↦ do
        let e : EventEntry H U = record { listeners = vect_init mem.listener 256; name = name }
        (place, registry) ← dict_put default_comparator blank ctx.event_registry (code_bytes code) e
        ok (record ctx { event_registry = registry })
    ]

  abbrev pub register_builtin_events : EventContext H U I → Outcome (EventContext H U I)
  register_builtin_events ctx = event_register_event ctx 0 stop_name

  unfoldable pub event_system_init : Outcome (EventContext H U I)
  event_system_init = do
    ctx ← register_builtin_events (record {
      event_registry = dict_init_fixed blank 256;
      queue = rqueue_create (replicate 32 mem.event) 32;
      running = false;
    })
    ok (record ctx { running = true })

  -- The entry behind the pointer of an index, which may be NULL.
  unfoldable pub entry_at : Dict (List ℕ) (EventEntry H U) → ℤ → Outcome (EventEntry H U)
  entry_at registry idx = do
    entry ← dict_ref registry idx
    elim entry [ none ↦ fault | some e ↦ ok e ]

  -- The listeners from the `i`-th on, of which `left` are to be called.
  unfoldable pub notify : ℕ → ℕ → EventEntry H U → ℕ → I → Outcome (List (Call H U I))
  notify zero i entry code info = ok []
  notify (suc left) i entry code info = do
    place ← vect_ref entry.listeners i
    listener ← (elim place [ none ↦ fault | some at ↦ load_at entry.listeners.blocks at.0 at.1 ])
    rest ← notify left (i + 1) entry code info
    ok (
        record {
          handler = listener.handler;
          code = code;
          user_data = listener.user_data;
          info = info;
        }
        ∷ rest)

  unfoldable pub broadcast_stop_event : EventContext H U I → Outcome (List (Call H U I))
  broadcast_stop_event ctx = do
    (idx, value) ← dict_get default_comparator ctx.event_registry (code_bytes 0) false
    entry ← entry_at ctx.event_registry idx
    notify entry.listeners.size 0 entry 0 mem.no_info

  -- The write through the pointer to the value of a slot.
  abbrev pub filed :
      Dict (List ℕ) (EventEntry H U) → ℕ → EventEntry H U → Dict (List ℕ) (EventEntry H U)
  filed registry i e = elim (get_elem? registry.base i) [
    | none ↦ registry
    | some n ↦ record registry { base = set registry.base i (record n { value = e }) }
  ]

  -- `none` is a handler that is NULL. The listener is added to the vector in the dictionary's slot.
  unfoldable pub event_register_listener :
      EventContext H U I → ℕ → Option H → U → Outcome (EventContext H U I)
  event_register_listener ctx code none user_data = ok ctx
  event_register_listener ctx code (some handler) user_data = if code == 0 then ok ctx else do
    (idx, value) ← dict_get default_comparator ctx.event_registry (code_bytes code) false
    elim idx [
      | negsuc i ↦ ok ctx
      | pos i ↦ do
        e ← entry_at ctx.event_registry (pos i)
        listeners ←
            vect_add mem.listener e.listeners (record { user_data = user_data; handler = handler })
        ok (record ctx {
          event_registry = filed ctx.event_registry i (record e { listeners = listeners });
        })
    ]

  -- An event that finds the queue full is dropped.
  unfoldable pub event_trigger : EventContext H U I → ℕ → I → Outcome (EventContext H U I)
  event_trigger ctx event info = do
    (enqueued, queue) ← rqueue_enqueue ctx.queue (record { info = info; code = event })
    ok (record ctx { queue = queue })

  -- The loop of `process_event_queue`, with the calls that it makes. It goes on with the same event
  -- when that is not registered.
  unfoldable pub process_rounds :
      ℕ → EventContext H U I → Bool → Outcome (Bool × List (Call H U I) × EventContext H U I)
  process_rounds zero ctx stop_event = stuck
  process_rounds (suc fuel) ctx stop_event =
      if ctx.queue.len == 0 then ok (stop_event, [], ctx) else do
        front ← rqueue_peek ctx.queue
        elim front [
          | [] ↦ fault
          | (e ∷ others) ↦ do
            (idx, value) ← dict_get default_comparator ctx.event_registry (code_bytes e.code) false
            elim idx [
              | negsuc i ↦ process_rounds fuel ctx stop_event
              | pos i ↦ do
                entry ← entry_at ctx.event_registry (pos i)
                calls ← notify entry.listeners.size 0 entry e.code e.info
                (taken, out, queue) ← rqueue_dequeue ctx.queue false
                (stop, more, ctx') ←
                    process_rounds fuel (record ctx { queue = queue }) (e.code == 0 || stop_event)
                ok (stop, calls ++ more, ctx')
            ]
        ]

  -- Each round takes an event, or the loop does not end.
  unfoldable pub process_event_queue :
      EventContext H U I → Outcome (Bool × List (Call H U I) × EventContext H U I)
  process_event_queue ctx = do
    (stop_event, calls, ctx') ← process_rounds (suc ctx.queue.len) ctx false
    ok (not stop_event, calls, ctx')

  unfoldable pub trigger_all :
      EventContext H U I → List (TriggeredEvent I) → Outcome (EventContext H U I)
  trigger_all ctx [] = ok ctx
  trigger_all ctx (e ∷ es) = do ctx' ← event_trigger ctx e.code e.info; trigger_all ctx' es

  -- Each time that the loop gets the mutex, the events of one list were triggered since it last
  -- had it, from which on it holds the mutex until the queue is empty. Without another list it waits.
  unfoldable pub event_handle :
      EventContext H U I
      → List (List (TriggeredEvent I))
      → Outcome (List (Call H U I) × EventContext H U I)
  event_handle ctx [] = ok ([], ctx)
  event_handle ctx (es ∷ later) = if not ctx.running then ok ([], ctx) else do
    ctx' ← trigger_all ctx es
    (running, calls, ctx'') ← process_event_queue ctx'
    (more, end) ← event_handle (record ctx'' { running = running }) later
    ok (calls ++ more, end)
