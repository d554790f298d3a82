-- ===== src/RingQueue/Tests.antt =====
-- Concrete ring queues.
use mcsrv.Common.{ℕ, ◌≡◌, refl, true, false, List, [], ◌∷◌, rotate, arith}
use mcsrv.Common.Outcome.{ok}
use mcsrv.RingQueue.{RingQueue}
use mcsrv.RingQueue.Spec.{Op, enqueue, dequeue, peek, run, step}
use mcsrv.RingQueue.Refine.{IsValid, serve, serve_refines}

-- Two elements, 9 and 7, around the end of an area of three.
abbrev wrapped : RingQueue ℕ
wrapped = record { block = 7 ∷ 8 ∷ 9 ∷ []; start = 2; end = 1; capacity = 3; len = 2 }

wrapped-IsValid : IsValid wrapped
wrapped-IsValid = record {
  area = refl;
  small = omega arith;
  start_in = omega arith;
  len_in = omega arith;
  ends = refl;
}

abbrev calls : List (Op ℕ)
calls =
    enqueue 4 ∷ enqueue 5 ∷ dequeue true ∷ peek ∷ dequeue false ∷ dequeue true ∷ dequeue true ∷ []

serve_refines_example :
    serve wrapped calls
    ≡ ok (
        (true, [])
        ∷ (false, [])
        ∷ (true, 9 ∷ [])
        ∷ (true, 7 ∷ [])
        ∷ (true, [])
        ∷ (true, 4 ∷ [])
        ∷ (false, [])
        ∷ [])
unfolding run step rotate
serve_refines_example = serve_refines calls wrapped wrapped-IsValid

abbrev two_slots : List ℕ
two_slots = 1 ∷ 2 ∷ []
