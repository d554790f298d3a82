-- ===== src/Vector/Insert.antt =====
-- An insertion that has elements to shift.
use mcsrv.Common.{
  ℕ, suc, ◌+◌, ◌-◌, ◌%◌, ◌^◌, ◌<◌, ◌≡◌, refl, true, false, List, [], ◌∷◌, ◌==◌, ltb, length, take,
  drop, arith, load-ok, memcpy-ok, length-take-drop, splice,
}
use mcsrv.Common.Outcome.{ok, fault}
use mcsrv.Math.{sub_no_underflow}
use mcsrv.Vector.Blocks.{flat, block_length, move, get_block_from_index}
use mcsrv.Vector.{Vector, vect_insert, carry_on, forward_rounds, shift_elements_forwards}
use mcsrv.Vector.Append.{IsValid, ensure_capacity-fits}

module _ {A : Type 0} where
  move-inside :
      (b : List A) (src n : ℕ)
      → src + n < length b
      → (c : List A) × (move (b ∷ []) 0 (suc src) src n ≡ ok (c ∷ []))
  unfolding move
  move-inside b src n h = (
    splice b (suc src) (take n (drop src b)),
    rw
        (
          load-ok b src n (omega arith),
          memcpy-ok b (suc src) (take n (drop src b))
              (omega (arith, length-take-drop b src n (omega arith))),
        )
        refl,
  )

  -- The round in the first block ends with the capacity of the block in front of it.
  forward_rounds-first :
      (b : List A) (end total : ℕ)
      → 0 < total
      → 0 < end
      → end < length b
      → forward_rounds 2 (b ∷ []) 0 end total ≡ fault
  unfolding forward_rounds carry_on block_length
  forward_rounds-first b end total some_left some_used free =
      let start = sub_no_underflow end total in
      let (c, e) = move-inside b start (end - start) (unfold sub_no_underflow in ground arith) in
      rw (beyond, partial, e) refl
    where
      beyond : (total == 0) ≡ false
      beyond = ground arith

      partial : (end == length b) ≡ false
      partial = ground arith

  -- An insertion in front of an element of a vector of one block with a free slot faults: the loop
  -- that shifts the elements leaves the block for the one in front of it, which is NULL.
  pub vect_insert-fault :
      (uninit : A) (v : Vector A) (x : A) (idx : ℕ) (last : List A)
      → IsValid v [] last
      → v.size < v.capacity
      → v.capacity < 2 ^ 32
      → idx < v.size
      → vect_insert uninit v x idx ≡ fault
  unfolding vect_insert shift_elements_forwards get_block_from_index
  vect_insert-fault uninit v x idx last w free small before =
      rw
        (
          ensure_capacity-fits uninit v ((v.size + 1) % 2 ^ 32) (ground arith),
          w.chain,
          w.at_last,
          inside,
          count,
          forward_rounds-first last v.next_insert_index (v.size - idx) (omega arith)
              (unfold flat in omega (arith, w.filled))
              (unfold flat in omega (arith, w.filled, w.area)),
        )
        refl
    where
      inside : ltb idx (length last) ≡ true
      inside = unfold flat in ground (arith, w.filled, w.area)

      count : (v.size + 2 ^ 64 - idx) % 2 ^ 64 ≡ v.size - idx
      count = omega arith
