-- ===== src/Events/Registry.antt =====
-- The registry that holds the STOP event and no other.
use mcsrv.Common.{
  ℕ, zero, suc, ◌+◌, ◌*◌, ◌%◌, ◌^◌, ◌<◌, ◌≤◌, ◌≡◌, ◌≢◌, refl, ◌∙◌, Bool, true, false, ◌&&◌, List,
  none, some, ◌==◌, if◌then◌else◌, set, replicate, get_elem?, get_elem?-set_ne, get_elem?-set_self,
  length-replicate, Bool-cases, inl, inr, arith,
}
use native.Mathlib.Decide.{ℕ_discrete}
use mcsrv.Common.Int.{pos}
use mcsrv.Common.Outcome.{ok, fault, ◌>>=◌}
use mcsrv.Dict.Probe.{get_node-some}
use mcsrv.Dict.{
  Slot, Dict, Comparator, idx_iter, home, get_node, is_empty, holds, elem_rounds, get_elem,
  put_rounds, default_comparator, default_cmp, default_hash, hash_rounds, hash_byte, dict_get,
  dict_put, dict_ref, dict_init_fixed,
}
use mcsrv.Events.{
  EventEntry, EventMemory, code_bytes, stop_name, blank, event_register_event, event_system_init,
  entry_at,
}
use mcsrv.RingQueue.{rqueue_create}
use mcsrv.Vector.{vect_init}

-- Whether the search from `i` comes to `p` within `fuel` slots, of 256.
abbrev reaches : ℕ → ℕ → ℕ → Bool
reaches zero i p = false
reaches (suc fuel) i p = if i == p then true else reaches fuel ((5 * i + 1) % 2 ^ 64 % 256) p

abbrev all_below : ℕ → (ℕ → Bool) → Bool
all_below zero f = true
all_below (suc n) f = f n && all_below n f

all_below-true : (n i : ℕ) (f : ℕ → Bool) → i < n → all_below n f ≡ true → f i ≡ true
all_below-true zero i f lt h = absurd (omega arith)
all_below-true (suc n) i f lt h = elim (ℕ_discrete i n) [
  | yes e ↦ rw e (ground (arith, h))
  | no ne ↦ all_below-true n i f (omega arith) (ground (arith, h))
]

-- From each of the 256 slots the search comes to the home of the STOP event.
reaches-stop : (i : ℕ) → i < 256 → reaches 256 i 37 ≡ true
reaches-stop i lt = all_below-true 256 i (λ j. reaches 256 j 37) lt refl

get_elem?-replicate :
    {A : Type 0} → (n i : ℕ) (a : A) → i < n → get_elem? (replicate n a) i ≡ some a
get_elem?-replicate zero i a lt = absurd (omega arith)
get_elem?-replicate (suc n) zero a lt = refl
get_elem?-replicate (suc n) (suc i) a lt = get_elem?-replicate n i a (omega arith)

-- A fixed dictionary of 256 slots, of which one is taken.
abbrev pub single : {K V : Type 0} → Slot K V → ℕ → Slot K V → Dict K V
single blank p n = record {
  base = set (replicate 256 blank) p n;
  capacity = 256;
  size = 1;
  fixed = true;
}

module _ {K V : Type 0} (cmp : Comparator K) (blank n : Slot K V) (free : is_empty blank ≡ true)
    (busy : is_empty n ≡ false) where
  -- A search for a key that the only taken slot does not hold.
  elem_rounds-reaches :
      (p h : ℕ) (key : K)
      → p < 256
      → holds cmp h key n ≡ false
      → (m fuel i : ℕ) → i < 256
      → m ≤ fuel
      → reaches m i p ≡ true
      → elem_rounds cmp fuel (single blank p n) h key i 0 ≡ ok (0, none)
  unfolding elem_rounds idx_iter
  elem_rounds-reaches p h key inside other zero fuel i lt le r = cc
  elem_rounds-reaches p h key inside other (suc m) zero i lt le r = absurd (omega arith)
  elem_rounds-reaches p h key inside other (suc m) (suc fuel) i lt le r =
      elim (Bool-cases (i == p)) [
        | inl same ↦
            let here : i ≡ p = ground (arith, same) in
            let node : get_node (set (replicate 256 blank) p n) i ≡ ok n = rw here (
              get_node-some (set (replicate 256 blank) p n) p n (
                get_elem?-set_self (replicate 256 blank) p n
                  (omega (arith, length-replicate 256 blank)))) in
            rw (node, ◌>>=◌, busy, other, busy) refl
        | inr apart ↦
            let elsewhere : p ≢ i = λ e. ground (arith, apart, e) in
            let node : get_node (set (replicate 256 blank) p n) i ≡ ok blank =
              get_node-some (set (replicate 256 blank) p n) i blank (
                get_elem?-set_ne (replicate 256 blank) n elsewhere
                ∙ get_elem?-replicate 256 i blank lt) in
            rw (node, ◌>>=◌, free, free, free)
              (elem_rounds-reaches p h key inside other m fuel ((5 * i + 1) % 2 ^ 64 % 256)
                (omega arith) (omega arith) (rw apart at r))
      ]

  -- Another key is reported at the index 0.
  dict_get-other :
      (key : K)
      → holds cmp (cmp.hfunc key) key n ≡ false
      → dict_get cmp (single blank 37 n) key false ≡ ok (pos 0, none)
  unfolding dict_get get_elem home
  dict_get-other key other =
      let bound : cmp.hfunc key % 256 < 256 = omega arith in
      rw
        (elem_rounds-reaches 37 (cmp.hfunc key) key (omega arith) other 256 512
          (cmp.hfunc key % 256) bound (omega arith) (reaches-stop (cmp.hfunc key % 256) bound))
        refl

module _ {H U I : Type 0} (mem : EventMemory H U I) where
  abbrev pub stop_entry : EventEntry H U
  stop_entry = record { listeners = vect_init mem.listener 256; name = stop_name }

  abbrev pub stop_slot : Slot (List ℕ) (EventEntry H U)
  stop_slot = record { hash = 2628259481714801445; key = code_bytes 0; value = stop_entry }

  -- The registry with the STOP event alone.
  abbrev pub stop_registry : Dict (List ℕ) (EventEntry H U)
  stop_registry = single (blank mem) 37 stop_slot

  -- The state in which `event_system_init` leaves the system.
  pub event_system_init_lem :
      event_system_init mem
      ≡ ok (record {
        event_registry = stop_registry;
        queue = rqueue_create (replicate 32 mem.event) 32;
        running = true;
      })
  unfolding event_system_init event_register_event dict_init_fixed dict_get dict_put get_elem home
      default_hash hash_rounds hash_byte put_rounds get_node idx_iter default_cmp vect_init
  event_system_init_lem = refl

  code_bytes-other :
      (code : ℕ) → code < 2 ^ 32 → code ≢ 0 → default_cmp (code_bytes 0) (code_bytes code) ≡ false
  unfolding default_cmp
  code_bytes-other code small other = ground arith

  pub dict_get-stop :
      dict_get default_comparator stop_registry (code_bytes 0) false ≡ ok (pos 37, none)
  unfolding dict_get get_elem home default_hash hash_rounds hash_byte get_node elem_rounds idx_iter
      default_cmp
  dict_get-stop = refl

  pub dict_get-unregistered :
      (code : ℕ)
      → code < 2 ^ 32
      → code ≢ 0
      → dict_get default_comparator stop_registry (code_bytes code) false ≡ ok (pos 0, none)
  dict_get-unregistered code small other =
      dict_get-other default_comparator (blank mem) stop_slot refl refl (code_bytes code)
        (rw (code_bytes-other code small other) (ground arith))

  -- Behind the index 0 there is no entry.
  pub entry_at-front : entry_at mem stop_registry (pos 0) ≡ fault
  unfolding entry_at dict_ref get_node
  entry_at-front = refl

  pub entry_at-stop : entry_at mem stop_registry (pos 37) ≡ ok stop_entry
  unfolding entry_at dict_ref get_node
  entry_at-stop = refl
