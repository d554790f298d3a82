-- ===== src/Dict/Probe.antt =====
-- The path of a search through the slots, and why it passes no slot twice.
use mcsrv.Common.{
  ℕ, zero, suc, ◌<◌, ◌≤◌, ◌≡◌, ◌≢◌, refl, sym, ap, ◌∙◌, Bool, true, false, ◌||◌, List, [], ◌∷◌,
  Option, none, some, if◌then◌else◌, set, get_elem?, get_elem?-set_ne, arith,
}
use mcsrv.Common.Outcome.{Outcome, ok, fault, ◌>>=◌}
use mcsrv.Dict.{Slot, Comparator, is_empty, holds, idx_iter, get_node, put_rounds}

module _ {K V : Type 0} where
  -- The slots in use.
  abbrev pub occupied : List (Slot K V) → ℕ
  occupied [] = 0
  occupied (n ∷ ns) = if is_empty n then occupied ns else suc (occupied ns)

  pub occupied-set-is_empty :
      (base : List (Slot K V)) (i : ℕ) (n blank : Slot K V)
      → get_elem? base i ≡ some n
      → is_empty n ≡ false
      → is_empty blank ≡ true
      → suc (occupied (set base i blank)) ≡ occupied base
  occupied-set-is_empty [] i n blank h e f = cc
  occupied-set-is_empty (m ∷ ms) zero n blank h e f =
      let same : m.hash ≡ n.hash = ap (λ o. elim o as (λ x. ℕ) [ none ↦ 0 | some x ↦ x.hash ]) h in
      rw (f, same, e) refl
  occupied-set-is_empty (m ∷ ms) (suc i) n blank h e f =
      ground (arith, occupied-set-is_empty ms i n blank h e f)

  -- One slot written: at most one more is in use.
  pub occupied-set :
      (base : List (Slot K V)) (i : ℕ) (n : Slot K V)
      → occupied (set base i n) ≤ suc (occupied base)
  occupied-set [] i n = omega arith
  occupied-set (m ∷ ms) zero n = ground arith
  occupied-set (m ∷ ms) (suc i) n = ground (arith, occupied-set ms i n)

  pub get_node-some :
      (base : List (Slot K V)) (i : ℕ) (n : Slot K V)
      → get_elem? base i ≡ some n
      → get_node base i ≡ ok n
  unfolding get_node
  get_node-some base i n e =
      ap (λ o. elim o as (λ x. Outcome (Slot K V)) [ none ↦ fault | some m ↦ ok m ]) e

  module _ (cmp : Comparator K) (cap h : ℕ) (key : K) where
    -- Whether the search for a place stops at a slot, and at an index.
    abbrev pub stop_of : Option (Slot K V) → Option Bool
    stop_of none = none
    stop_of (some n) = some (is_empty n || holds cmp h key n)

    abbrev pub stop_at : List (Slot K V) → ℕ → Option Bool
    stop_at base i = stop_of (get_elem? base i)

    -- From the index `i` the search passes `m` slots that are taken, and stops at `p`.
    abbrev pub Route : List (Slot K V) → ℕ → ℕ → ℕ → Type 0
    Route base zero i p = (stop_at base i ≡ some true) × (i ≡ p)
    Route base (suc m) i p = (stop_at base i ≡ some false) × Route base m (idx_iter cap i) p

    pub Route-end :
        (base : List (Slot K V)) (m i p : ℕ) → Route base m i p → stop_at base p ≡ some true
    Route-end base zero i p (s, e) = ap (stop_at base) (sym e) ∙ s
    Route-end base (suc m) i p (s, w) = Route-end base m (idx_iter cap i) p w

    Route-length :
        (base : List (Slot K V)) (m m' i p p' : ℕ) → Route base m i p → Route base m' i p' → m ≡ m'
    Route-length base zero zero i p p' w w' = refl
    Route-length base zero (suc m') i p p' (s, e) (s', w') = cc
    Route-length base (suc m) zero i p p' (s, w) (s', e) = cc
    Route-length base (suc m) (suc m') i p p' (s, w) (s', w') =
        ap suc (Route-length base m m' (idx_iter cap i) p p' w w')

    stop_at-set :
        (base : List (Slot K V)) (i j : ℕ) (n : Slot K V)
        → i ≢ j
        → stop_at (set base i n) j ≡ stop_at base j
    stop_at-set base i j n ne = ap stop_of (get_elem?-set_ne base n ne)

    -- The rest of a path is a path without its first slot.
    Route-set :
        (base : List (Slot K V)) (blank : Slot K V) (n i0 p0 : ℕ)
        → Route base n i0 p0
        → (m j p : ℕ) → m < n
        → Route base m j p
        → Route (set base i0 blank) m j p
    Route-set base blank n i0 p0 whole zero j p lt (s, e) =
        (stop_at-set base i0 j blank apart ∙ s, e)
      where
        apart : i0 ≢ j
        apart same = absurd (omega (arith, Route-length base n 0 i0 p0 p whole (rw same (s, e))))
    Route-set base blank n i0 p0 whole (suc m) j p lt (s, w) = (
      stop_at-set base i0 j blank apart ∙ s,
      Route-set base blank n i0 p0 whole m (idx_iter cap j) p (omega arith) w,
    )
      where
        apart : i0 ≢ j
        apart same =
            absurd (omega (arith, Route-length base n (suc m) i0 p0 p whole (rw same (s, w))))

    stopped_of :
        (o : Option (Slot K V)) (b : Bool)
        → stop_of o ≡ some b
        → (n : Slot K V) × (o ≡ some n) × ((is_empty n || holds cmp h key n) ≡ b)
    stopped_of none b s = cc
    stopped_of (some n) b s = (n, refl, cc)

    pub stopped_on :
        (base : List (Slot K V)) (i : ℕ) (b : Bool)
        → stop_at base i ≡ some b
        → (n : Slot K V) × (get_node base i ≡ ok n)
          × (get_elem? base i ≡ some n)
          × ((is_empty n || holds cmp h key n) ≡ b)
    stopped_on base i b s =
        let (n, e, c) = stopped_of (get_elem? base i) b s in (n, get_node-some base i n e, e, c)

    -- A path is no longer than the slots that are in use.
    pub Route-occupied :
        (blank : Slot K V)
        → is_empty blank ≡ true
        → (n : ℕ) (base : List (Slot K V)) (i p : ℕ) → Route base n i p
        → n ≤ occupied base
    Route-occupied blank free zero base i p w = omega arith
    Route-occupied blank free (suc n) base i p (s, w) =
        let (slot, at, e, passed) = stopped_on base i false s in
        let taken : is_empty slot ≡ false = ground (arith, passed) in
        let shorter =
          Route-occupied blank free n (set base i blank) (idx_iter cap i) p
            (Route-set base blank (suc n) i p (s, w) n (idx_iter cap i) p (omega arith) w) in
        omega (arith, shorter, occupied-set-is_empty base i slot blank e taken free)

    -- The search for a place ends at the end of its path.
    pub put_rounds-Route :
        (base : List (Slot K V)) (m fuel i p : ℕ)
        → m < fuel
        → Route base m i p
        → put_rounds cmp fuel base cap h key i ≡ ok p
    unfolding put_rounds
    put_rounds-Route base m zero i p lt w = absurd (omega arith)
    put_rounds-Route base zero (suc fuel) i p lt (s, e) =
        let (n, f, at, found) = stopped_on base i true s in rw (f, ◌>>=◌, found) (ap ok e)
    put_rounds-Route base (suc m) (suc fuel) i p lt (s, w) =
        let (n, f, at, passed) = stopped_on base i false s in
        rw (f, ◌>>=◌, passed) (put_rounds-Route base m fuel (idx_iter cap i) p (omega arith) w)
