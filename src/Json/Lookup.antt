-- ===== src/Json/Lookup.antt =====
-- The lookup of a name in an object of data/json/json.c, over its dictionary.
use mcsrv.Common.{
  ℕ, zero, suc, ◌%◌, ◌<◌, ◌-◌, Bool-cases, inl, inr, ◌≡◌, ◌≢◌, refl, ◌+◌, get_elem?-set_self,
  get_elem?-set_ne, ◌∙◌, true, false, ◌&&◌, List, [], ◌∷◌, some, none, ◌==◌, set, replicate, arith,
}
use mcsrv.Common.Outcome.{ok, fault, ◌>>=◌}
use mcsrv.ByteBuffer.{is_negative}
use mcsrv.Dict.{
  Slot, Dict, default_hash, dict_init, dict_put, dict_get, get_elem, elem_rounds, put_rounds,
  get_node, home, idx_iter,
}
use mcsrv.Json.Node.{
  JsonType, Node, no_fields, field, same_bytes, cmp_string, blank_field, put_fields, fields_dict,
  json_node_create, json_node_putn, json_get_obj, put_field,
}

-- The dictionary of an object with one name, whose slot is `s`, at the index `p`.
abbrev single : Slot (List ℕ) Node → ℕ → Dict (List ℕ) Node
single s p = record {
  base = set (replicate 4 blank_field) p s;
  capacity = 4;
  size = 1;
  fixed = false;
}

abbrev slot_of : List ℕ → Node → Slot (List ℕ) Node
slot_of k n = record { hash = default_hash k; key = k; value = n }

vacant : (p : ℕ) → p < 4 → get_node (replicate 4 blank_field) p ≡ ok blank_field
unfolding get_node
vacant zero h = refl
vacant (suc zero) h = refl
vacant (suc (suc zero)) h = refl
vacant (suc (suc (suc zero))) h = refl
vacant (suc (suc (suc (suc p)))) h = absurd (omega arith)

-- The other slots are empty.
beside :
    (s : Slot (List ℕ) Node) (p q : ℕ)
    → q < 4
    → p ≢ q
    → get_node (single s p).base q ≡ ok blank_field
unfolding get_node
beside s p zero h e = rw (get_elem?-set_ne (replicate 4 blank_field) s e) refl
beside s p (suc zero) h e = rw (get_elem?-set_ne (replicate 4 blank_field) s e) refl
beside s p (suc (suc zero)) h e = rw (get_elem?-set_ne (replicate 4 blank_field) s e) refl
beside s p (suc (suc (suc zero))) h e = rw (get_elem?-set_ne (replicate 4 blank_field) s e) refl
beside s p (suc (suc (suc (suc q)))) h e = absurd (omega arith)

module _ (s : Slot (List ℕ) Node) (used : (s.hash == 0) ≡ false) (p : ℕ) (inside : p < 4) where
  its_slot : get_node (single s p).base p ≡ ok s
  unfolding get_node
  its_slot = rw (get_elem?-set_self (replicate 4 blank_field) p s inside) refl

  module _ (hash : ℕ) (j : List ℕ) where
    elem_rounds-here :
        (fuel : ℕ)
        → (s.hash == hash && same_bytes s.key j) ≡ true
        → elem_rounds cmp_string (suc fuel) (single s p) hash j p 0 ≡ ok (p, some s)
    unfolding elem_rounds
    elem_rounds-here fuel e = rw (its_slot, ◌>>=◌, used, e) refl

    module _ (other : (s.hash == hash && same_bytes s.key j) ≡ false) where
      elem_rounds-other :
          (fuel q : ℕ)
          → q ≡ p
          → elem_rounds cmp_string (suc fuel) (single s p) hash j q 0 ≡ ok (0, none)
      unfolding elem_rounds
      elem_rounds-other fuel q e = rw (e, its_slot, ◌>>=◌, used, other, used) refl

      elem_rounds-empty :
          (fuel q : ℕ)
          → q < 4
          → p ≢ q
          → elem_rounds cmp_string (suc fuel) (single s p) hash j q 0
            ≡ elem_rounds cmp_string fuel (single s p) hash j (idx_iter 4 q) 0
      unfolding elem_rounds
      elem_rounds-empty fuel q h e = rw (beside s p q h e, ◌>>=◌) refl

      -- The search for another name comes to the only slot after `d` empty ones at most.
      elem_rounds-missing :
          (d fuel q : ℕ)
          → d < fuel
          → q < 4
          → (q + d) % 4 ≡ p
          → elem_rounds cmp_string fuel (single s p) hash j q 0 ≡ ok (0, none)
      unfolding idx_iter
      elem_rounds-missing d zero q enough h e = absurd (omega arith)
      elem_rounds-missing zero (suc fuel) q enough h e = elem_rounds-other fuel q (omega arith)
      elem_rounds-missing (suc d) (suc fuel) q enough h e = elim (Bool-cases (p == q)) [
        | inl same ↦ elem_rounds-other fuel q (ground arith)
        | inr off ↦
            elem_rounds-empty fuel q h (λ same. ground arith)
            ∙ elem_rounds-missing d fuel (idx_iter 4 q) (omega arith) (omega arith) (omega arith)
      ]

      -- So it is given up, without a node.
      missing : (q : ℕ) → q < 4 → elem_rounds cmp_string 8 (single s p) hash j q 0 ≡ ok (0, none)
      missing q h =
          elem_rounds-missing ((p + 4 - q) % 4) 8 q (omega arith) h (omega (arith, inside))

same_bytes_refl : (xs : List ℕ) → same_bytes xs xs ≡ true
unfolding same_bytes
same_bytes_refl [] = refl
same_bytes_refl (x ∷ xs) = rw (same_bytes_refl xs) (ground arith)

module _ (k : List ℕ) (n : Node) (hashed : 0 < default_hash k) where
  -- The dictionary after one put.
  fields_dict-one :
      fields_dict (field k n no_fields) ≡ ok (single (slot_of k n) (default_hash k % 4))
  unfolding fields_dict put_fields dict_init dict_put put_rounds home
  fields_dict-one =
      let free = vacant (default_hash k % 4) (omega arith) in rw (free, ◌>>=◌, free, ◌>>=◌) refl

  used : (default_hash k == 0) ≡ false
  used = ground arith

-- In an object with one name, whose hash is not 0, the name is found with its node, and the search
-- for any other name copies from an uninitialised node in place of answering NULL.
pub json_get_obj-putn :
    (k j : List ℕ) (n : Node)
    → 0 < default_hash k
    → same_bytes k j ≡ false
    → (json_get_obj (json_node_putn (json_node_create JsonType.object_type) k n) k ≡ ok (some n))
      × (json_get_obj (json_node_putn (json_node_create JsonType.object_type) k n) j ≡ fault)
unfolding json_get_obj json_node_putn json_node_create put_field dict_get get_elem home is_negative
json_get_obj-putn k j n hashed distinct =
    let own = default_hash k % 4 in
    let busy = used k n hashed in
    let here : (default_hash k == default_hash k && same_bytes k k) ≡ true =
      rw (same_bytes_refl k) (ground arith) in
    let off : (default_hash k == default_hash j && same_bytes k j) ≡ false =
      rw distinct (ground arith) in
    (
      rw
          (
            fields_dict-one k n hashed,
            ◌>>=◌,
            elem_rounds-here (slot_of k n) busy own (omega arith) (default_hash k) k 7 here,
          )
          refl,
      rw
          (
            fields_dict-one k n hashed,
            ◌>>=◌,
            missing (slot_of k n) busy own (omega arith) (default_hash j) j off (default_hash j % 4)
                (omega arith),
          )
          refl,
    )
