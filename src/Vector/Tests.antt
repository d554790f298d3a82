-- ===== src/Vector/Tests.antt =====
-- Concrete vectors: a full one, and one with a free slot.
use mcsrv.Common.{ℕ, ◌≡◌, refl, true, some, [], ◌∷◌, arith, inr}
use mcsrv.Common.Outcome.{ok, fault}
use mcsrv.Vector.Blocks.{flat}
use mcsrv.Vector.{Vector, vect_add, vect_get, vect_insert}
use mcsrv.Vector.Append.{IsValid, Appended, vect_add-IsValid, vect_get-contents}
use mcsrv.Vector.Insert.{vect_insert-fault}

abbrev full : Vector ℕ
full = record {
  blocks = (7 ∷ 8 ∷ 9 ∷ []) ∷ (10 ∷ []) ∷ [];
  current = 1;
  next_insert_index = 1;
  capacity = 4;
  size = 4;
  arena = true;
}

full-IsValid : IsValid full ((7 ∷ 8 ∷ 9 ∷ []) ∷ []) (10 ∷ [])
unfolding flat
full-IsValid = record {
  chain = refl;
  at_last = refl;
  room = omega arith;
  filled = refl;
  area = refl;
  grows = omega arith;
}

vect_add-IsValid_example : Appended (vect_add 0 full 11) (7 ∷ 8 ∷ 9 ∷ 10 ∷ 11 ∷ [])
unfolding flat
vect_add-IsValid_example =
    vect_add-IsValid 0 full 11 ((7 ∷ 8 ∷ 9 ∷ []) ∷ []) (10 ∷ []) full-IsValid (omega arith)
      (inr refl)

vect_get-contents_example : vect_get full 3 ≡ ok (some 10)
unfolding flat
vect_get-contents_example = vect_get-contents full 3 ((7 ∷ 8 ∷ 9 ∷ []) ∷ []) (10 ∷ []) full-IsValid

abbrev spacious : Vector ℕ
spacious = record {
  blocks = (7 ∷ 8 ∷ 0 ∷ 0 ∷ []) ∷ [];
  current = 0;
  next_insert_index = 2;
  capacity = 4;
  size = 2;
  arena = true;
}

spacious-IsValid : IsValid spacious [] (7 ∷ 8 ∷ 0 ∷ 0 ∷ [])
unfolding flat
spacious-IsValid = record {
  chain = refl;
  at_last = refl;
  room = omega arith;
  filled = refl;
  area = refl;
  grows = omega arith;
}

vect_insert-fault_example : vect_insert 0 spacious 5 0 ≡ fault
vect_insert-fault_example =
    vect_insert-fault 0 spacious 5 0 (7 ∷ 8 ∷ 0 ∷ 0 ∷ []) spacious-IsValid (omega arith)
      (omega arith) (omega arith)
