-- ===== src/Vector/Growth.antt =====
-- The room of a vector while elements are appended.
use mcsrv.Common.{
  ℕ, suc, ◌+◌, ◌*◌, ◌/◌, ◌%◌, ◌^◌, ◌≡◌, ◌≤◌, ◌<◌, refl, ap, sym, ◌∙◌, true, List, [], ◌∷◌, ◌++◌,
  ◌==◌, leb, length, Bool-cases, inl, inr, ◌⊎◌, arith, append_assoc, append-nil,
}
use mcsrv.Common.Outcome.{Outcome, ok, abort, fault, stuck, ◌>>=◌}
use mcsrv.Vector.{Vector, register_addition, ensure_capacity, grown, vect_add}
use mcsrv.Vector.Blocks.{store_at, block_length}
use mcsrv.Vector.Append.{IsValid, contents, Appended, vect_add-IsValid}

module _ {A : Type 0} (uninit : A) where
  -- A vector that may grow keeps its arena and grows by half.
  record Grows (v w : Vector A) : Type 0 where
    pub dynamic : w.arena ≡ v.arena
    pub counted : w.size ≡ (v.size + 1) % 2 ^ 32
    pub room :
        (w.capacity ≡ v.capacity)
        ⊎ ((v.capacity < v.size + 1) × (w.capacity ≤ v.capacity + v.capacity / 2))

  abbrev result : Vector A → Outcome (Vector A) → Vector A
  result default (ok v) = v
  result default abort = default
  result default fault = default
  result default stuck = default

  stored-Grows :
      (m : Outcome (List (List A))) (v u w : Vector A)
      → u.arena ≡ v.arena
      → u.size ≡ v.size
      → (u.capacity ≡ v.capacity)
        ⊎ ((v.capacity < v.size + 1) × (u.capacity ≤ v.capacity + v.capacity / 2))
      → (do bs ← m; ok (register_addition (record u { blocks = bs }))) ≡ ok w
      → Grows v w
  unfolding register_addition
  stored-Grows (ok bs) v u w a s c e =
      let same : w ≡ register_addition (record u { blocks = bs }) = sym (ap (result u) e) in
      record {
        dynamic = ap (λ z. z.arena) same ∙ a;
        counted = ap (λ z. z.size) same ∙ ap (λ n. (n + 1) % 2 ^ 32) s;
        room = rw (ap (λ z. z.capacity) same) c;
      }
  stored-Grows abort v u w a s c e = cc
  stored-Grows fault v u w a s c e = cc
  stored-Grows stuck v u w a s c e = cc

  vect_add-Grows :
      (v w : Vector A) (x : A) → v.arena ≡ true → vect_add uninit v x ≡ ok w → Grows v w
  unfolding vect_add ensure_capacity grown
  vect_add-Grows v w x dynamic e = elim (Bool-cases (leb ((v.size + 1) % 2 ^ 32) v.capacity)) [
    | inl fits ↦
        stored-Grows (store_at v.blocks v.current v.next_insert_index x) v v w refl refl (inl refl)
          (rw fits at e)
    | inr over ↦
        let more : v.capacity < v.size + 1 = ground (arith, over) in
        let half : (v.capacity + v.capacity / 2) % 2 ^ 32 ≤ v.capacity + v.capacity / 2 =
          omega arith in
        elim (Bool-cases (v.next_insert_index == block_length v.blocks v.current)) [
          | inl at_end ↦
              stored-Grows _ v
                (record (grown uninit v) {
                  current = suc v.current;
                  next_insert_index = 0;
                  arena = true;
                })
                w (sym dynamic) refl (inr (more, half)) (rw (over, dynamic, at_end) at e)
          | inr before ↦
              stored-Grows _ v (record (grown uninit v) { arena = true }) w (sym dynamic) refl
                (inr (more, half)) (rw (over, dynamic, before) at e)
        ]
  ]

  -- Elements that are appended one after the other.
  unfoldable pub add_all : Vector A → List A → Outcome (Vector A)
  add_all v [] = ok v
  add_all v (x ∷ xs) = do w ← vect_add uninit v x; add_all w xs

  -- A valid vector that may grow takes every list of elements, as long as `limit` bounds its capacity
  -- and one and a half of the elements that it comes to hold.
  pub add_all-IsValid :
      (limit : ℕ) (xs : List A) (v : Vector A) (front : List (List A)) (last : List A)
      → IsValid v front last
      → v.arena ≡ true
      → 3 * limit < 2 ^ 32
      → v.capacity ≤ limit
      → 3 * (v.size + length xs) ≤ 2 * limit
      → Appended (add_all v xs) (contents v ++ xs)
  unfolding add_all
  add_all-IsValid limit [] v front last w dynamic small cap fits =
      (v, front, last, refl, w, sym (append-nil (contents v)))
  add_all-IsValid limit (x ∷ xs) v front last w dynamic small cap fits =
      let (v1, front1, last1, done, w1, held) =
        vect_add-IsValid uninit v x front last w (omega arith) (inr dynamic) in
      let g = vect_add-Grows v v1 x dynamic done in
      let bounded : v1.capacity ≤ limit = elim g.room [
        | inl same ↦ omega (arith, same)
        | inr more ↦ omega (arith, more.0, more.1, w.filled, w.room, w.area)
      ] in
      let (v2, front2, last2, rest, w2, more) =
        add_all-IsValid limit xs v1 front1 last1 w1 (g.dynamic ∙ dynamic) small bounded
          (omega (arith, g.counted)) in
      (
        v2,
        front2,
        last2,
        rw (done, ◌>>=◌) rest,
        w2,
        more ∙ (ap (λ ys. ys ++ xs) held ∙ append_assoc (contents v) (x ∷ []) xs),
      )
