-- ===== src/Vector/Append.antt =====
-- A vector to which elements are added is the list of them.
use mcsrv.Common.{
  ℕ, zero, suc, ◌+◌, ◌*◌, ◌/◌, ◌%◌, ◌^◌, ◌<◌, ◌≤◌, ◌≡◌, refl, ap, sym, ◌∙◌, true, false, List, [],
  ◌∷◌, ◌++◌, Option, none, some, ◌==◌, leb, length, set, take, replicate, get_elem?, arith,
  append_assoc, append-nil, Bool-cases, inl, inr, ◌⊎◌, length-append, length-set, length-replicate,
  get_elem?-take,
}
use mcsrv.Common.Outcome.{Outcome, ok, abort, fault, stuck, ◌>>=◌}
use mcsrv.Vector.Blocks.{
  flat, flat-last, block_length, block_length-last, store_at, store_at-last, load_at, load_at-index,
  take-set, slot, get_block_from_index,
}
use mcsrv.Vector.{Vector, ensure_capacity, grown, register_addition, vect_add, vect_get, vect_ref}

module _ {A : Type 0} where
  -- Elements go to the last block of the chain, behind `front`, whose slots are all used.
  pub record IsValid (v : Vector A) (front : List (List A)) (last : List A) : Type 0 where
    pub chain : v.blocks ≡ front ++ (last ∷ [])
    pub at_last : v.current ≡ length front
    pub room : v.next_insert_index ≤ length last
    pub filled : v.size ≡ length (flat front) + v.next_insert_index
    pub area : v.capacity ≡ length (flat front) + length last
    pub grows : 2 ≤ v.capacity

  -- The elements, in order.
  abbrev pub contents : Vector A → List A
  contents v = take v.size (flat v.blocks)

  take-append_add :
      (xs ys : List A) (n m : ℕ) → m ≡ length xs + n → take m (xs ++ ys) ≡ xs ++ take n ys
  take-append_add [] ys n m h = ap (λ k. take k ys) (omega (arith, h))
  take-append_add (x ∷ xs) ys n zero h = absurd (omega (arith, h))
  take-append_add (x ∷ xs) ys n (suc m) h =
      ap (λ zs. x ∷ zs) (take-append_add xs ys n m (omega (arith, h)))

  contents_lem :
      (v : Vector A) (front : List (List A)) (last : List A)
      → IsValid v front last
      → contents v ≡ flat front ++ take v.next_insert_index last
  contents_lem v front last w =
      rw (w.chain, flat-last front last)
        (take-append_add (flat front) last v.next_insert_index v.size w.filled)

  -- The call returns a vector with one element more.
  abbrev pub Appended : Outcome (Vector A) → List A → Type 0
  Appended out xs =
      (v : Vector A) × (front : List (List A)) × (last : List A) × (out ≡ ok v)
      × IsValid v front last
      × (contents v ≡ xs)

  stored :
      (v : Vector A) (x : A) (front : List (List A)) (last : List A)
      → IsValid v front last
      → v.next_insert_index < length last
      → 2 * v.capacity < 2 ^ 32
      → Appended
          (do
            bs ← store_at v.blocks v.current v.next_insert_index x
            ok (register_addition (record v { blocks = bs })))
          (contents v ++ (x ∷ []))
  unfolding register_addition
  stored v x front last w free small = (
    register_addition (record v { blocks = front ++ (set last v.next_insert_index x ∷ []) }),
    front,
    set last v.next_insert_index x,
    rw (w.chain, w.at_last, store_at-last front last v.next_insert_index x free) refl,
    valid,
    contents_lem _ front _ valid
        ∙ (ap (λ k. flat front ++ take k (set last v.next_insert_index x)) counted
            ∙ (ap (λ xs. flat front ++ xs) (take-set last v.next_insert_index x free)
                ∙ (sym (append_assoc (flat front) (take v.next_insert_index last) (x ∷ []))
                    ∙ ap (λ xs. xs ++ (x ∷ [])) (sym (contents_lem v front last w))))),
  )
    where
      counted : (v.next_insert_index + 1) % 2 ^ 32 ≡ suc v.next_insert_index
      counted = omega (arith, w.area)

      valid :
          IsValid
            (register_addition
              (record v { blocks = front ++ (set last v.next_insert_index x ∷ []) }))
            front
            (set last v.next_insert_index x)
      valid = record {
        chain = refl;
        at_last = w.at_last;
        room = omega (arith, counted, length-set last v.next_insert_index x);
        filled = omega (arith, counted, w.filled, w.area);
        area = omega (arith, w.area, length-set last v.next_insert_index x);
        grows = w.grows;
      }

  length-snoc : (bs : List (List A)) (b : List A) → length (bs ++ (b ∷ [])) ≡ suc (length bs)
  length-snoc bs b = omega (arith, length-append bs (b ∷ []))

  take_whole : (xs : List A) (n : ℕ) → n ≡ length xs → take n xs ≡ xs
  take_whole [] zero h = refl
  take_whole [] (suc n) h = refl
  take_whole (x ∷ xs) zero h = absurd (omega (arith, h))
  take_whole (x ∷ xs) (suc n) h = ap (λ ys. x ∷ ys) (take_whole xs n (omega (arith, h)))

  -- The chain up to its last block is the whole chain.
  up_to_last :
      (front : List (List A)) (last : List A)
      → take (suc (length front)) (front ++ (last ∷ [])) ≡ front ++ (last ∷ [])
  up_to_last [] last = refl
  up_to_last (b ∷ bs) last = ap (λ cs. b ∷ cs) (up_to_last bs last)

  pub ensure_capacity-fits :
      (uninit : A) (v : Vector A) (size : ℕ)
      → leb size v.capacity ≡ true
      → ensure_capacity uninit v size ≡ (true, v)
  unfolding ensure_capacity
  ensure_capacity-fits uninit v size fits = rw fits refl

  module _ (uninit : A) (v : Vector A) (front : List (List A)) (last : List A)
      (w : IsValid v front last) (small : 3 * v.capacity < 2 ^ 32) where
    abbrev block : List A
    block = replicate (v.capacity / 2) uninit

    abbrev extended : Vector A
    extended = record v {
      blocks = take (suc v.current) v.blocks ++ (block ∷ []);
      capacity = (v.capacity + v.capacity / 2) % 2 ^ 32;
      current = suc v.current;
      next_insert_index = 0;
    }

    ensure_capacity-full :
        v.size ≡ v.capacity
        → v.arena ≡ true
        → ensure_capacity uninit v ((v.size + 1) % 2 ^ 32) ≡ (true, extended)
    unfolding ensure_capacity grown
    ensure_capacity-full full dynamic = rw (beyond, dynamic, at_end) refl
      where
        beyond : leb ((v.size + 1) % 2 ^ 32) v.capacity ≡ false
        beyond = ground arith

        at_end : (v.next_insert_index == block_length v.blocks v.current) ≡ true
        at_end =
            rw (w.chain, w.at_last, block_length-last front last) (ground (arith, w.filled, w.area))

    extended-IsValid : v.size ≡ v.capacity → IsValid extended (front ++ (last ∷ [])) block
    extended-IsValid full = record {
      chain = rw (w.chain, w.at_last, up_to_last front last) refl;
      at_last = omega (arith, w.at_last, length-snoc front last);
      room = omega arith;
      filled =
          rw (flat-last front last)
            (omega (arith, w.filled, w.area, length-append (flat front) last));
      area = rw (flat-last front last) (
          omega (
            arith,
            w.area,
            length-append (flat front) last,
            length-replicate (v.capacity / 2) uninit,
          ));
      grows = omega (arith, w.grows);
    }

    contents-extended : v.size ≡ v.capacity → contents extended ≡ contents v
    contents-extended full =
        contents_lem extended (front ++ (last ∷ [])) block (extended-IsValid full)
        ∙ (append-nil (flat (front ++ (last ∷ [])))
            ∙ (flat-last front last
                ∙ (ap (λ xs. flat front ++ xs)
                      (sym (take_whole last v.next_insert_index (omega (arith, w.filled, w.area))))
                    ∙ sym (contents_lem v front last w))))

    appended :
        (x : A)
        → (v.size < v.capacity) ⊎ (v.arena ≡ true)
        → Appended (vect_add uninit v x) (contents v ++ (x ∷ []))
    unfolding vect_add
    appended x more = elim (Bool-cases (leb ((v.size + 1) % 2 ^ 32) v.capacity)) [
      | inl fits ↦
          let (v', front', last', e, w', c) =
            stored v x front last w (ground (arith, w.filled, w.area)) (omega arith) in
          (
            v',
            front',
            last',
            rw (ensure_capacity-fits uninit v ((v.size + 1) % 2 ^ 32) fits) e,
            w',
            c,
          )
      | inr over ↦
          let full : v.size ≡ v.capacity = ground (arith, w.filled, w.area, w.room) in
          let dynamic : v.arena ≡ true = elim more [ inl h ↦ absurd (omega arith) | inr h ↦ h ] in
          let (v', front', last', e, w', c) =
            stored extended x (front ++ (last ∷ [])) block (extended-IsValid full)
              (omega (arith, w.grows, length-replicate (v.capacity / 2) uninit)) (omega arith) in
          (
            v',
            front',
            last',
            rw (ensure_capacity-full full dynamic) e,
            w',
            c ∙ ap (λ xs. xs ++ (x ∷ [])) (contents-extended full),
          )
    ]

  -- A valid vector whose tripled capacity is below 2^32 and which has room, or may grow, takes an
  -- element as the last of its contents, and stays valid, whether or not a new block is needed. The
  -- arena is taken to have room for the block; when it has none, the program aborts.
  pub vect_add-IsValid :
      (uninit : A) (v : Vector A) (x : A) (front : List (List A)) (last : List A)
      → IsValid v front last
      → 3 * v.capacity < 2 ^ 32
      → (v.size < v.capacity) ⊎ (v.arena ≡ true)
      → Appended (vect_add uninit v x) (contents v ++ (x ∷ []))
  vect_add-IsValid uninit v x front last w small more = appended uninit v front last w small x more

  -- The value that is found is what `vect_get` hands over.
  reached :
      (bs : List (List A)) (m : Outcome (ℕ × ℕ)) (o : Option A)
      → (do (k, j) ← m; load_at bs k j) ≡ slot o
      → (do
        elem ← (do place ← m; ok (some place))
        elim elem [ none ↦ ok none | some place ↦ do x ← load_at bs place.0 place.1; ok (some x) ])
        ≡ (do x ← slot o; ok (some x))
  reached bs (ok place) o e = ap (λ r. do x ← r; ok (some x)) e
  reached bs abort o e = ap (λ r. do x ← r; ok (some x)) e
  reached bs fault o e = ap (λ r. do x ← r; ok (some x)) e
  reached bs stuck o e = ap (λ r. do x ← r; ok (some x)) e

  held :
      (xs : List A) (i : ℕ)
      → i < length xs
      → (do x ← slot (get_elem? xs i); ok (some x)) ≡ ok (get_elem? xs i)
  unfolding slot
  held [] i h = absurd (omega arith)
  held (x ∷ xs) zero h = refl
  held (x ∷ xs) (suc i) h = held xs i (omega arith)

  -- On a valid vector `vect_get` is the lookup in the list of the contents, and NULL behind it.
  pub vect_get-contents :
      (v : Vector A) (i : ℕ) (front : List (List A)) (last : List A)
      → IsValid v front last
      → vect_get v i ≡ ok (get_elem? (contents v) i)
  unfolding vect_get vect_ref
  vect_get-contents v i front last w = elim (Bool-cases (leb v.size i)) [
    | inl beyond ↦ rw (beyond, get_elem?-take v.size (flat v.blocks) i) (ground arith)
    | inr within ↦
        let inside : i < length (flat v.blocks) =
          rw (w.chain, flat-last front last)
            (ground (arith, w.filled, w.room, length-append (flat front) last)) in
        rw (within, get_elem?-take v.size (flat v.blocks) i)
          (reached v.blocks (get_block_from_index v.blocks i) (get_elem? (flat v.blocks) i)
              (load_at-index v.blocks i)
            ∙ (held (flat v.blocks) i inside ∙ ap ok (ground arith)))
  ]
