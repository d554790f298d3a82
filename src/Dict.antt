-- ===== src/Dict.antt =====
-- containers/dict-op.c, containers/dict-init.c and utils/hash.c: a hash table with open addressing.
-- The mapping of an index is one slot; an empty one has the hash 0, and what it holds otherwise is
-- not looked at. A NULL key is left out.
pub mod Probe
pub mod Lookup
mod Tests
use mcsrv.Common.{
  ℕ, zero, suc, ◌+◌, ◌-◌, ◌*◌, ◌/◌, ◌%◌, ◌^◌, Bool, true, false, not, ◌&&◌, ◌||◌, List, [], ◌∷◌,
  Option, none, some, ◌==◌, leb, ltb, if◌then◌else◌, length, set, get_elem?, replicate,
}
use mcsrv.Common.Int.{ℤ, pos, negsuc}
use mcsrv.Common.Outcome.{Outcome, ok, fault, stuck, ◌>>=◌}

-- `default_hash`, one byte more.
unfoldable pub hash_byte : ℕ → ℕ → ℕ
hash_byte hash b = (b + hash * 2 ^ 6 + hash * 2 ^ 16 + 2 ^ 64 - hash) % 2 ^ 64

unfoldable pub hash_rounds : List ℕ → ℕ → ℕ
hash_rounds [] hash = hash
hash_rounds (b ∷ bytes) hash = hash_rounds bytes (hash_byte hash b)

unfoldable pub default_hash : List ℕ → ℕ
default_hash bytes = hash_rounds bytes 37

-- `Comparator`: the functions for a type of keys.
pub record Comparator (K : Type 0) : Type 0 where
  pub hfunc : K → ℕ
  pub same : K → K → Bool

-- `default_cmp`: whether it is 0.
unfoldable pub default_cmp : List ℕ → List ℕ → Bool
default_cmp [] [] = true
default_cmp [] (b ∷ rhs) = false
default_cmp (a ∷ lhs) [] = false
default_cmp (a ∷ lhs) (b ∷ rhs) = a == b && default_cmp lhs rhs

-- What `cmp_hash` and `cmp_compare` do without a comparator: a key is its bytes.
abbrev pub default_comparator : Comparator (List ℕ)
default_comparator = record { hfunc = default_hash; same = default_cmp }

-- `struct node`
pub record Slot (K V : Type 0) : Type 0 where
  pub hash : ℕ
  pub key : K
  pub value : V

pub record Dict (K V : Type 0) : Type 0 where
  pub base : List (Slot K V)
  pub capacity : ℕ
  pub size : ℕ
  pub fixed : Bool

-- `idx_iter`
unfoldable pub idx_iter : ℕ → ℕ → ℕ
idx_iter cap idx = (5 * idx + 1) % 2 ^ 64 % cap

-- `h % capacity`, on a dictionary without slots a division by 0.
unfoldable pub home : ℕ → ℕ → Outcome ℕ
home h capacity = if capacity == 0 then fault else ok (h % capacity)

module _ {K V : Type 0} where
  abbrev pub is_empty : Slot K V → Bool
  is_empty n = n.hash == 0

  -- The slot of an index, of which there are `capacity`.
  unfoldable pub get_node : List (Slot K V) → ℕ → Outcome (Slot K V)
  get_node base idx = elim (get_elem? base idx) [ none ↦ fault | some n ↦ ok n ]

  -- What a zeroed slot holds is `blank`.
  unfoldable pub dict_init : Slot K V → Dict K V
  dict_init blank = record { base = replicate 4 blank; capacity = 4; size = 0; fixed = false }

  unfoldable pub dict_init_fixed : Slot K V → ℕ → Dict K V
  dict_init_fixed blank capacity = record {
    base = replicate capacity blank;
    capacity = capacity;
    size = 0;
    fixed = true;
  }

  -- The loop body of `rehash_nodes` looks at the slot `i` of the new area in every round: when it is
  -- taken, the loop does not end, and behind the area its pointer is NULL.
  unfoldable pub rehash_nodes : List (Slot K V) → ℕ → List (Slot K V) → Outcome (List (Slot K V))
  rehash_nodes [] i fresh = ok fresh
  rehash_nodes (n ∷ ns) i fresh =
      let rest = rehash_nodes ns (i + 1) fresh in
      let moved = rehash_nodes ns (i + 1) (set fresh i n) in
      if is_empty n then rest else do new ← get_node fresh i; if is_empty new then moved else stuck

  unfoldable pub resize : Slot K V → Dict K V → ℕ → Outcome (Dict K V)
  resize blank map new_capacity = do
    fresh ← rehash_nodes map.base 0 (replicate new_capacity blank)
    ok (record map { base = fresh; capacity = new_capacity })

  unfoldable pub grow : Slot K V → Dict K V → Outcome (Dict K V)
  grow blank map = resize blank map (map.capacity * 2 % 2 ^ 64)

  unfoldable pub shrink : Slot K V → Dict K V → Outcome (Dict K V)
  shrink blank map = if ltb 4 map.capacity then resize blank map (map.capacity / 2) else ok map

  unfoldable pub dict_ref : Dict K V → ℤ → Outcome (Option V)
  dict_ref dict (negsuc i) = ok none
  dict_ref dict (pos idx) =
      if dict.size == 0 || ltb dict.capacity idx
      then ok none
      else if idx == dict.capacity
      then ok none
      else do n ← get_node dict.base idx; ok (if is_empty n then none else some n.value)

  -- The mappings that `action` is called with, from the slot `i` on, when `j` were seen.
  unfoldable pub foreach_rounds : List (Slot K V) → ℕ → ℕ → List (ℕ × K × V)
  foreach_rounds [] j size = []
  foreach_rounds (n ∷ ns) j size =
      let rest = foreach_rounds ns j size in
      let more = foreach_rounds ns (j + 1) size in
      if leb size j then [] else if is_empty n then rest else (j, n.key, n.value) ∷ more

  unfoldable pub dict_foreach : Dict K V → List (ℕ × K × V)
  dict_foreach map = foreach_rounds map.base 0 map.size

  module _ (cmp : Comparator K) where
    abbrev pub holds : ℕ → K → Slot K V → Bool
    holds h key n = n.hash == h && cmp.same n.key key

    -- The search: the index, and the node that it fills in. FALSE is the index 0, without a node.
    unfoldable pub elem_rounds : ℕ → Dict K V → ℕ → K → ℕ → ℕ → Outcome (ℕ × Option (Slot K V))
    elem_rounds zero map h key idx count = stuck
    elem_rounds (suc fuel) map h key idx count = do
      n ← get_node map.base idx
      elim (not (is_empty n) && holds h key n) [
        | true ↦ ok (idx, some n)
        | false ↦
            let seen = (if is_empty n then count else count + 1) in
            elim (seen == map.size) [
              | true ↦ ok (0, none)
              | false ↦ elem_rounds fuel map h key (idx_iter map.capacity idx) seen
            ]
      ]

    -- After `capacity` rounds the indices repeat themselves.
    unfoldable pub get_elem : Dict K V → K → Outcome (ℕ × Option (Slot K V))
    get_elem map key = do
      idx ← home (cmp.hfunc key) map.capacity
      elem_rounds (map.capacity + map.capacity * map.size) map (cmp.hfunc key) key idx 0

    -- The search for the slot of a key, or an empty one.
    unfoldable pub put_rounds : ℕ → List (Slot K V) → ℕ → ℕ → K → ℕ → Outcome ℕ
    put_rounds zero base capacity h key idx = stuck
    put_rounds (suc fuel) base capacity h key idx = do
      n ← get_node base idx
      elim (is_empty n || holds h key n) [
        | true ↦ ok idx
        | false ↦ put_rounds fuel base capacity h key (idx_iter capacity idx)
      ]

    -- A new key is written; one that is there stays.
    abbrev pub written : ℕ → K → V → Slot K V → Slot K V
    written h key value n =
        if is_empty n
        then record { hash = h; key = key; value = value }
        else record n { value = value }

    unfoldable pub dict_put : Slot K V → Dict K V → K → V → Outcome (ℕ × Dict K V)
    dict_put blank map key value = do
      start ← home (cmp.hfunc key) map.capacity
      idx ← put_rounds map.capacity map.base map.capacity (cmp.hfunc key) key start
      n ← get_node map.base idx
      let map' = record map {
        base = set map.base idx (written (cmp.hfunc key) key value n);
        size = map.size + 1;
      }
      if not map'.fixed && leb (map'.capacity * 3) (map'.size * 4)
          then (do grown ← grow blank map'; ok (idx, grown))
          else ok (idx, map')

    -- `wanted` says whether `out_value` is given. Without a node there is nothing to copy from.
    unfoldable pub dict_get : Dict K V → K → Bool → Outcome (ℤ × Option V)
    dict_get map key wanted = if map.size == 0 then ok (negsuc 0, none) else do
      (idx, node) ← get_elem map key
      if not wanted
          then ok (pos idx, none)
          else elim node [ none ↦ fault | some n ↦ ok (pos idx, some n.value) ]

    unfoldable pub dict_remove : Slot K V → Dict K V → K → Outcome (ℤ × Option V × Dict K V)
    dict_remove blank map key = if map.size == 0 then ok (negsuc 0, none, map) else do
      (idx, node) ← get_elem map key
      elim node [
        | none ↦ fault
        | some n ↦ do
          let map' = record map {
            base = set map.base idx (record n { hash = 0 });
            size = map.size - 1;
          }
          shrunk ←
              (if not map'.fixed && leb (map'.size * 4) map'.capacity
                then shrink blank map'
                else ok map')
          ok (pos idx, some n.value, shrunk)
      ]
