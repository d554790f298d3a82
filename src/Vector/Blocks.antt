-- ===== src/Vector/Blocks.antt =====
-- The chain of blocks of containers/vector.c: access to a slot, and the search for an index.
use mcsrv.Common.{
  ℕ, zero, suc, ◌-◌, ◌<◌, ◌≡◌, refl, ap, sym, ◌∙◌, List, [], ◌∷◌, ◌++◌, Option, none, some, ltb,
  if◌then◌else◌, length, set, get_elem?, memcpy, load, arith, append_assoc, append-nil, take,
  Bool-cases, inl, inr, get_elem?-append,
}
use mcsrv.Common.Outcome.{Outcome, ok, abort, fault, stuck, ◌>>=◌}

module _ {A : Type 0} where
  -- The elements of the blocks, one block after the other.
  unfoldable pub flat : List (List A) → List A
  flat [] = []
  flat (b ∷ bs) = b ++ flat bs

  -- The capacity of a block; there is none behind the chain.
  unfoldable pub block_length : List (List A) → ℕ → ℕ
  block_length [] k = 0
  block_length (b ∷ bs) zero = length b
  block_length (b ∷ bs) (suc k) = block_length bs k

  -- One slot written, and one read: outside a block it is a fault.
  unfoldable pub store_at : List (List A) → ℕ → ℕ → A → Outcome (List (List A))
  store_at [] k i x = fault
  store_at (b ∷ bs) zero i x = if ltb i (length b) then ok (set b i x ∷ bs) else fault
  store_at (b ∷ bs) (suc k) i x = do cs ← store_at bs k i x; ok (b ∷ cs)

  unfoldable pub slot : Option A → Outcome A
  slot none = fault
  slot (some x) = ok x

  unfoldable pub load_at : List (List A) → ℕ → ℕ → Outcome A
  load_at [] k i = fault
  load_at (b ∷ bs) zero i = slot (get_elem? b i)
  load_at (b ∷ bs) (suc k) i = load_at bs k i

  -- `memmove` of `n` slots within a block.
  unfoldable pub move : List (List A) → ℕ → ℕ → ℕ → ℕ → Outcome (List (List A))
  move [] k dst src n = fault
  move (b ∷ bs) zero dst src n = do xs ← load b src n; c ← memcpy b dst xs; ok (c ∷ bs)
  move (b ∷ bs) (suc k) dst src n = do cs ← move bs k dst src n; ok (b ∷ cs)

  -- The block's place in the chain and the index within it.
  unfoldable pub get_block_from_index : List (List A) → ℕ → Outcome (ℕ × ℕ)
  get_block_from_index [] index = fault
  get_block_from_index (b ∷ bs) index =
      if ltb index (length b)
      then ok (0, index)
      else (do (k, i) ← get_block_from_index bs (index - length b); ok (suc k, i))

  flat-append : (bs cs : List (List A)) → flat (bs ++ cs) ≡ flat bs ++ flat cs
  unfolding flat
  flat-append [] cs = refl
  flat-append (b ∷ bs) cs =
      ap (λ xs. b ++ xs) (flat-append bs cs) ∙ sym (append_assoc b (flat bs) (flat cs))

  pub flat-last :
      (front : List (List A)) (last : List A) → flat (front ++ (last ∷ [])) ≡ flat front ++ last
  unfolding flat
  flat-last front last =
      flat-append front (last ∷ []) ∙ ap (λ xs. flat front ++ xs) (append-nil last)

  pub block_length-last :
      (front : List (List A)) (last : List A)
      → block_length (front ++ (last ∷ [])) (length front) ≡ length last
  unfolding block_length
  block_length-last [] last = refl
  block_length-last (b ∷ bs) last = block_length-last bs last

  pub store_at-last :
      (front : List (List A)) (last : List A) (i : ℕ) (x : A)
      → i < length last
      → store_at (front ++ (last ∷ [])) (length front) i x ≡ ok (front ++ (set last i x ∷ []))
  unfolding store_at
  store_at-last [] last i x h = ground arith
  store_at-last (b ∷ bs) last i x h = rw (store_at-last bs last i x h) refl

  -- The slots up to and with a written one.
  pub take-set :
      (xs : List A) (i : ℕ) (x : A)
      → i < length xs
      → take (suc i) (set xs i x) ≡ take i xs ++ (x ∷ [])
  take-set [] i x h = absurd (omega arith)
  take-set (y ∷ ys) zero x h = refl
  take-set (y ∷ ys) (suc i) x h = ap (λ zs. y ∷ zs) (take-set ys i x (omega arith))

  next_block :
      (b : List A) (bs : List (List A)) (m : Outcome (ℕ × ℕ))
      → (do (k, i) ← (do (k, i) ← m; ok (suc k, i)); load_at (b ∷ bs) k i)
        ≡ (do (k, i) ← m; load_at bs k i)
  unfolding load_at
  next_block b bs (ok r) = refl
  next_block b bs abort = refl
  next_block b bs fault = refl
  next_block b bs stuck = refl

  -- What the search finds is the element at that index of all of them.
  pub load_at-index :
      (bs : List (List A)) (i : ℕ)
      → (do (k, j) ← get_block_from_index bs i; load_at bs k j) ≡ slot (get_elem? (flat bs) i)
  unfolding get_block_from_index load_at flat slot
  load_at-index [] i = refl
  load_at-index (b ∷ bs) i = elim (Bool-cases (ltb i (length b))) [
    | inl e ↦ rw (get_block_from_index, get_elem?-append b (flat bs) i, e) refl
    | inr e ↦
        rw (get_block_from_index, get_elem?-append b (flat bs) i, e)
          (next_block b bs (get_block_from_index bs (i - length b))
            ∙ load_at-index bs (i - length b))
  ]
