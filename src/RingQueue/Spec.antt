-- ===== src/RingQueue/Spec.antt =====
-- What a bounded queue promises, on the list of its elements, oldest first.
use mcsrv.Common.{
  ℕ, Bool, true, false, List, [], ◌∷◌, ◌++◌, ◌==◌, if◌then◌else◌, length, take, drop,
}

-- The calls of a client.
pub data Op (A : Type 0) : Type 0 where
  enqueue : A → Op A
  dequeue : Bool → Op A
  peek : Op A

-- A call's status and the elements that it hands out.
abbrev pub Reply : Type 0 → Type 0
Reply A = Bool × List A

module _ {A : Type 0} where
  unfoldable pub step : ℕ → List A → Op A → Reply A × List A
  step cap xs (enqueue x) =
      if length xs == cap then ((false, []), xs) else ((true, []), xs ++ (x ∷ []))
  step cap xs (dequeue wanted) =
      if length xs == 0
      then ((false, []), xs)
      else ((true, if wanted then take 1 xs else []), drop 1 xs)
  step cap xs peek = (if length xs == 0 then (false, []) else (true, take 1 xs), xs)

  unfoldable pub run : ℕ → List A → List (Op A) → List (Reply A)
  run cap xs [] = []
  run cap xs (op ∷ ops) = let (r, xs') = step cap xs op in r ∷ run cap xs' ops
