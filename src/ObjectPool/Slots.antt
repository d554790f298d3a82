-- ===== src/ObjectPool/Slots.antt =====
-- The flags of a block, and the search for a free slot.
use mcsrv.Common.{
  ℕ, zero, suc, ◌+◌, ◌<◌, ◌≤◌, ◌≡◌, refl, ap, Bool, true, false, List, [], ◌∷◌, Option, none, some,
  length, set, drop, get_elem?, arith,
}
use mcsrv.ObjectPool.{free_in_block}

-- The number of allocated slots.
abbrev pub held : List Bool → ℕ
held [] = 0
held (true ∷ fs) = suc (held fs)
held (false ∷ fs) = held fs

pub held_bound : (fs : List Bool) → held fs ≤ length fs
held_bound [] = omega arith
held_bound (true ∷ fs) = omega (arith, held_bound fs)
held_bound (false ∷ fs) = omega (arith, held_bound fs)

pub held-set-true :
    (fs : List Bool) (i : ℕ) → get_elem? fs i ≡ some false → held (set fs i true) ≡ suc (held fs)
held-set-true [] i h = cc
held-set-true (false ∷ fs) zero h = refl
held-set-true (true ∷ fs) zero h = cc
held-set-true (false ∷ fs) (suc i) h = held-set-true fs i h
held-set-true (true ∷ fs) (suc i) h = ap suc (held-set-true fs i h)

pub held-set-false :
    (fs : List Bool) (i : ℕ) → get_elem? fs i ≡ some true → suc (held (set fs i false)) ≡ held fs
held-set-false [] i h = cc
held-set-false (false ∷ fs) zero h = cc
held-set-false (true ∷ fs) zero h = refl
held-set-false (false ∷ fs) (suc i) h = held-set-false fs i h
held-set-false (true ∷ fs) (suc i) h = ap suc (held-set-false fs i h)

pub set_same : (fs : List Bool) (i : ℕ) (x : Bool) → get_elem? fs i ≡ some x → set fs i x ≡ fs
set_same [] i x h = refl
set_same (f ∷ fs) zero x h = cc
set_same (f ∷ fs) (suc i) x h = ap (λ gs. f ∷ gs) (set_same fs i x h)

pub get_elem?-full :
    (fs : List Bool) (i : ℕ) → held fs ≡ length fs → i < length fs → get_elem? fs i ≡ some true
get_elem?-full [] i full h = absurd (omega arith)
get_elem?-full (false ∷ fs) i full h = absurd (omega (arith, held_bound fs))
get_elem?-full (true ∷ fs) zero full h = refl
get_elem?-full (true ∷ fs) (suc i) full h = get_elem?-full fs i (omega arith) (omega arith)

-- A block whose front is allocated, and whose rest is, is full.
pub held-drop :
    (fs : List Bool) (i : ℕ)
    → ((j : ℕ) → j < i → get_elem? fs j ≡ some true)
    → held (drop i fs) ≡ length (drop i fs)
    → held fs ≡ length fs
held-drop fs zero before rest = rest
held-drop [] (suc i) before rest = refl
held-drop (true ∷ fs) (suc i) before rest =
    ap suc (held-drop fs i (λ j h. before (suc j) (omega arith)) rest)
held-drop (false ∷ fs) (suc i) before rest = absurd (false_front (before 0 (omega arith)))
  where
    false_front : (some false ≡ some true) → ⊥
    false_front h = cc

-- What the search finds: nothing in a full block, and otherwise the first free slot.
abbrev pub Search : List Bool → ℕ → Option ℕ → Type 0
Search fs g none = held fs ≡ length fs
Search fs g (some n) =
    (d : ℕ) × (n ≡ g + d)
    × (get_elem? fs d ≡ some false)
    × ((j : ℕ) → j < d → get_elem? fs j ≡ some true)

after_taken : (fs : List Bool) (g : ℕ) (o : Option ℕ) → Search fs (g + 1) o → Search (true ∷ fs) g o
after_taken fs g none s = ap suc s
after_taken fs g (some n) (d, e, free, taken) = (suc d, omega (arith, e), free, earlier)
  where
    earlier : (j : ℕ) → j < suc d → get_elem? (true ∷ fs) j ≡ some true
    earlier zero h = refl
    earlier (suc j) h = taken j (omega arith)

pub free_in_block-Search : (fs : List Bool) (g : ℕ) → Search fs g (free_in_block fs g)
unfolding free_in_block
free_in_block-Search [] g = refl
free_in_block-Search (false ∷ fs) g = (0, omega arith, refl, λ j h. absurd (omega arith))
free_in_block-Search (true ∷ fs) g =
    after_taken fs g (free_in_block fs (g + 1)) (free_in_block-Search fs (g + 1))
