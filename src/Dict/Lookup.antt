-- ===== src/Dict/Lookup.antt =====
-- What is put into a dictionary is found there.
use mcsrv.Common.{
  ℕ, zero, suc, ◌+◌, ◌*◌, ◌%◌, ◌<◌, ◌≤◌, ◌≡◌, ◌≢◌, refl, ap, ◌∙◌, true, false, ◌||◌, List, some,
  ◌==◌, length, set, get_elem?, get_elem?-set_ne, get_elem?-set_self, get_elem?-inside, length-set,
  arith, Bool-cases, inl, inr,
}
use mcsrv.Common.Int.{pos}
use mcsrv.Common.Outcome.{ok, ◌>>=◌}
use mcsrv.Dict.{
  Slot, Dict, Comparator, is_empty, holds, idx_iter, home, get_node, elem_rounds, get_elem, written,
  dict_put, dict_get,
}
use mcsrv.Dict.Probe.{
  occupied, occupied-set, stop_at, Route, Route-end, Route-occupied, put_rounds-Route, stopped_on,
  get_node-some,
}

module _ {K V : Type 0} (cmp : Comparator K) where
  -- The size counts every slot in use, and a key that was put twice twice.
  pub record IsValid (d : Dict K V) : Type 0 where
    pub area : length d.base ≡ d.capacity
    pub roomy : 0 < d.capacity
    pub counted : occupied d.base ≤ d.size

  -- The search for a key goes along the path of the search for its place.
  elem_rounds-Route :
      (h : ℕ) (key : K) (base : List (Slot K V)) (d : Dict K V) (w : Slot K V)
      (m fuel i p count : ℕ)
      → d.base ≡ set base p w
      → get_elem? (set base p w) p ≡ some w
      → is_empty w ≡ false
      → holds cmp h key w ≡ true
      → Route cmp d.capacity h key base m i p
      → m < fuel
      → count + m < d.size
      → elem_rounds cmp fuel d h key i count ≡ ok (p, some w)
  unfolding elem_rounds
  elem_rounds-Route h key base d w m zero i p count eq there used mine path lt few =
      absurd (omega arith)
  elem_rounds-Route h key base d w zero (suc fuel) i p count eq there used mine (s, e) lt few =
      let node : get_node d.base i ≡ ok w = rw (eq, e) (get_node-some (set base p w) p w there) in
      rw (node, ◌>>=◌, used, mine) (ap (λ j. ok (j, some w)) e)
  elem_rounds-Route h key base d w (suc m) (suc fuel) i p count eq there used mine (s, path) lt
        few =
      let (n, f, at, passed) = stopped_on cmp d.capacity h key base i false s in
      let busy : is_empty n ≡ false = ground (arith, passed) in
      let other : holds cmp h key n ≡ false = ground (arith, passed) in
      let more : (count + 1 == d.size) ≡ false = ground arith in
      let node : get_node d.base i ≡ ok n =
        rw eq (get_node-some (set base p w) i n (get_elem?-set_ne base w apart ∙ at)) in
      rw (node, ◌>>=◌, busy, other, busy, more, busy)
        (elem_rounds-Route h key base d w m fuel (idx_iter d.capacity i) p (count + 1) eq there used
          mine path (omega arith) (omega arith))
    where
      apart : p ≢ i
      apart same =
          let bad : stop_at cmp d.capacity h key base i ≡ some true =
            rw same at (Route-end cmp d.capacity h key base m (idx_iter d.capacity i) p path) in
          cc

  written-busy :
      (h : ℕ) (key : K) (v : V) (n : Slot K V)
      → 0 < h
      → cmp.same key key ≡ true
      → (is_empty n || holds cmp h key n) ≡ true
      → (is_empty (written cmp h key v n) ≡ false)
        × (holds cmp h key (written cmp h key v n) ≡ true)
        × ((written cmp h key v n).value ≡ v)
  written-busy h key v n positive self stop = elim (Bool-cases (is_empty n)) [
    | inl e ↦ rw e (ground arith, rw self (ground arith), refl)
    | inr e ↦ rw e (e, (rw e at stop), refl)
  ]

  -- In a valid fixed dictionary, a key whose hash is not 0, which the comparator takes for equal to
  -- itself, and whose search meets an empty slot or its own within `capacity` slots is put there, and
  -- a search for it then finds the value that was put; the dictionary stays valid.
  pub dict_get-put :
      (blank : Slot K V) (d : Dict K V) (key : K) (v : V) (m p : ℕ)
      → IsValid d
      → d.fixed ≡ true
      → is_empty blank ≡ true
      → 0 < cmp.hfunc key
      → cmp.same key key ≡ true
      → Route cmp d.capacity (cmp.hfunc key) key d.base m (cmp.hfunc key % d.capacity) p
      → m < d.capacity
      → (d' : Dict K V) × (dict_put cmp blank d key v ≡ ok (p, d'))
        × IsValid d'
        × (dict_get cmp d' key true ≡ ok (pos p, some v))
  unfolding dict_put dict_get get_elem home
  dict_get-put blank d key v m p w fixed free positive self path near =
      let h = cmp.hfunc key in
      let (n, node, at, stop) =
        stopped_on cmp d.capacity h key d.base p true
          (Route-end cmp d.capacity h key d.base m (h % d.capacity) p path) in
      let (busy, mine, value) = written-busy h key v n positive self stop in
      let few = Route-occupied cmp d.capacity h key blank free m d.base (h % d.capacity) p path in
      (
        record d { base = set d.base p (written cmp h key v n); size = d.size + 1 },
        rw
            (
              some_capacity,
              put_rounds-Route cmp d.capacity h key d.base m d.capacity (h % d.capacity) p near
                  path,
              node,
              fixed,
            )
            refl,
        record {
          area = length-set d.base p _ ∙ w.area;
          roomy = w.roomy;
          counted = omega (arith, w.counted, occupied-set d.base p (written cmp h key v n));
        },
        rw
            (
              some_size,
              some_capacity,
              elem_rounds-Route h key d.base
                  (record d { base = set d.base p (written cmp h key v n); size = d.size + 1 })
                  (written cmp h key v n) m (d.capacity + d.capacity * (d.size + 1))
                  (h % d.capacity) p 0 refl
                  (get_elem?-set_self d.base p (written cmp h key v n)
                    (get_elem?-inside d.base p n at))
                  busy mine path (omega arith) (omega (arith, few, w.counted)),
            )
            (ap (λ u. ok (pos p, some u)) value),
      )
    where
      some_capacity : (d.capacity == 0) ≡ false
      some_capacity = ground (arith, w.roomy)

      some_size : (d.size + 1 == 0) ≡ false
      some_size = ground arith
