-- ===== src/Events/Tests.antt =====
-- An event system whose handlers, user data and infos are numbers.
use mcsrv.Common.{ℕ, ◌≡◌, refl, true, false, [], ◌∷◌, arith, rotate}
use mcsrv.Common.Outcome.{ok, fault, ◌>>=◌}
use mcsrv.Events.{
  EventListener, TriggeredEvent, EventContext, EventMemory, event_system_init, event_register_event,
  event_handle, process_event_queue,
}
use mcsrv.Events.Registry.{stop_registry}
use mcsrv.Events.Handling.{
  event_register_event-refused, process_event_queue-unregistered, event_handle-ends,
}
use mcsrv.RingQueue.{RingQueue}
use mcsrv.RingQueue.Refine.{IsValid, contents}
use mcsrv.Vector.{Vector}
use mcsrv.Vector.Blocks.{flat}

abbrev nobody : EventListener ℕ ℕ
nobody = record { user_data = 0; handler = 0 }

abbrev zeroed : Vector (EventListener ℕ ℕ)
zeroed = record {
  blocks = [];
  current = 0;
  next_insert_index = 0;
  capacity = 0;
  size = 0;
  arena = false;
}

abbrev event : ℕ → TriggeredEvent ℕ
event code = record { info = 7; code = code }

abbrev mem : EventMemory ℕ ℕ ℕ
mem = record {
  listener = nobody;
  entry = record { listeners = zeroed; name = [] };
  event = event 99;
  no_info = 0;
}

event_register_event-refused_example :
    (do ctx ← event_system_init mem; event_register_event mem ctx 5 (74 ∷ 79 ∷ []))
    ≡ event_system_init mem
event_register_event-refused_example =
    event_register_event-refused mem 5 (74 ∷ 79 ∷ []) (omega arith)

-- STOP waits in front of the event 5.
abbrev queue : RingQueue (TriggeredEvent ℕ)
queue = record {
  block = event 0 ∷ event 5 ∷ event 99 ∷ [];
  start = 0;
  end = 2;
  capacity = 3;
  len = 2;
}

queue-IsValid : IsValid queue
queue-IsValid = record {
  area = refl;
  small = omega arith;
  start_in = omega arith;
  len_in = omega arith;
  ends = refl;
}

process_event_queue-unregistered_example :
    process_event_queue mem
      (record { event_registry = stop_registry mem; queue = queue; running = true })
    ≡ fault
unfolding rotate
process_event_queue-unregistered_example =
    process_event_queue-unregistered mem (event 0 ∷ []) (event 5) [] queue true queue-IsValid refl
      refl (omega arith) (λ e. omega (arith, e))

event_handle-ends_example :
    (ctx' : EventContext ℕ ℕ ℕ) × ((do
      ctx ← event_system_init mem
      event_handle mem ctx ([] ∷ (event 0 ∷ event 0 ∷ []) ∷ []))
      ≡ ok ([], ctx'))
    × (ctx'.running ≡ false)
    × (contents ctx'.queue ≡ [])
unfolding flat
event_handle-ends_example =
    event_handle-ends mem ([] ∷ (event 0 ∷ event 0 ∷ []) ∷ []) refl (omega arith)
