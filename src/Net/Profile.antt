-- ===== src/Net/Profile.antt =====
-- The JSON of network/handlers.c: the server's status, and the player's profile.
use mcsrv.Common.{ℕ, zero, suc, ◌+◌, Bool, true, false, List, [], ◌∷◌, Option, none, some, length}
use mcsrv.Common.Int.{pos}
use mcsrv.Common.Outcome.{Outcome, ok, fault, ◌>>=◌}
use mcsrv.Arena.{Arena, arena_allocate}
use mcsrv.Json.Node.{
  JsonType, Node, json_node_create, json_node_putn, json_set_int, json_set_bool,
  json_set_str_direct, json_get_obj, json_get_array, json_get_str,
}
use mcsrv.Net.Encode.{PlayerProperty}

-- A node of a type with its value.
abbrev pub number_node : ℕ → Node
number_node n = json_set_int (json_node_create JsonType.int_type) (pos n)

abbrev pub string_node : List ℕ → Node
string_node s = json_set_str_direct (json_node_create JsonType.string_type) s

abbrev pub bool_node : Bool → Node
bool_node b = json_set_bool (json_node_create JsonType.bool_type) b

abbrev pub object : Node
object = json_node_create JsonType.object_type

-- "name", "id", "properties", "value" and "signature"
abbrev pub name_key : List ℕ
name_key = b'n' ∷ b'a' ∷ b'm' ∷ b'e' ∷ []

abbrev pub id_key : List ℕ
id_key = b'i' ∷ b'd' ∷ []

abbrev pub properties_key : List ℕ
properties_key = b'p' ∷ b'r' ∷ b'o' ∷ b'p' ∷ b'e' ∷ b'r' ∷ b't' ∷ b'i' ∷ b'e' ∷ b's' ∷ []

abbrev pub value_key : List ℕ
value_key = b'v' ∷ b'a' ∷ b'l' ∷ b'u' ∷ b'e' ∷ []

abbrev pub signature_key : List ℕ
signature_key = b's' ∷ b'i' ∷ b'g' ∷ b'n' ∷ b'a' ∷ b't' ∷ b'u' ∷ b'r' ∷ b'e' ∷ []

-- `json_get_str`, and the copy of its result: through NULL it is a fault.
unfoldable pub text_of : Option Node → Outcome (List ℕ)
text_of none = fault
text_of (some node) = elim (json_get_str node) [ none ↦ fault | some s ↦ ok s ]

-- One property of a player, with its name and value in the scratch arena.
unfoldable pub player_property : Node → Arena → Outcome (PlayerProperty × Arena)
player_property json arena = do
  name_node ← json_get_obj json name_key
  name ← text_of name_node
  (at, a) ← arena_allocate arena (length name + 1)
  value_node ← json_get_obj json value_key
  value ← text_of value_node
  (at, a) ← arena_allocate a (length value + 1)
  signature_node ← json_get_obj json signature_key
  elim signature_node [
    | none ↦ ok (record { name = name; value = value; is_signed = false; signature = [] }, a)
    | some node ↦ do
      signature ← text_of (some node)
      ok (record { name = name; value = value; is_signed = true; signature = signature }, a)
  ]

-- The loop over `i`; `none` is the early return of FALSE.
unfoldable pub property_rounds :
    ℕ → Node → ℕ → Arena → Outcome (Option (List PlayerProperty) × Arena)
property_rounds zero json i arena = ok (some [], arena)
property_rounds (suc left) json i arena = elim (json_get_array json i) [
  | none ↦ ok (none, arena)
  | some node ↦ do
    (property, a) ← player_property node arena
    (rest, a) ← property_rounds left json (i + 1) a
    elim rest [ none ↦ ok (none, a) | some ps ↦ ok (some (property ∷ ps), a) ]
]

-- The tree that the status handler builds.
unfoldable pub status_json : Node
status_json =
    let version =
      json_node_putn (json_node_putn object name_key (string_node (b'1' ∷ b'.' ∷ b'2' ∷ b'1' ∷ [])))
        (b'p' ∷ b'r' ∷ b'o' ∷ b't' ∷ b'o' ∷ b'c' ∷ b'o' ∷ b'l' ∷ []) (number_node 767) in
    let players =
      json_node_putn (json_node_putn object (b'm' ∷ b'a' ∷ b'x' ∷ []) (number_node 69))
        (b'o' ∷ b'n' ∷ b'l' ∷ b'i' ∷ b'n' ∷ b'e' ∷ []) (number_node 0) in
    let description = json_node_putn object (b't' ∷ b'e' ∷ b'x' ∷ b't' ∷ []) (
      string_node (
        b'H' ∷ b'e' ∷ b'l' ∷ b'l' ∷ b'o' ∷ 32 ∷ b'g' ∷ b'a' ∷ b'm' ∷ b'e' ∷ b'r' ∷ b'z' ∷ b'!'
        ∷ [])) in
    let root =
      json_node_putn object (b'v' ∷ b'e' ∷ b'r' ∷ b's' ∷ b'i' ∷ b'o' ∷ b'n' ∷ []) version in
    let root = json_node_putn root (b'p' ∷ b'l' ∷ b'a' ∷ b'y' ∷ b'e' ∷ b'r' ∷ b's' ∷ []) players in
    let root =
      json_node_putn root
        (b'd' ∷ b'e' ∷ b's' ∷ b'c' ∷ b'r' ∷ b'i' ∷ b'p' ∷ b't' ∷ b'i' ∷ b'o' ∷ b'n' ∷ [])
        description in
    let root =
      json_node_putn root
        (b'e' ∷ b'n' ∷ b'f' ∷ b'o' ∷ b'r' ∷ b'c' ∷ b'e' ∷ b's' ∷ b'S' ∷ b'e' ∷ b'c' ∷ b'u' ∷ b'r'
          ∷ b'e' ∷ b'C' ∷ b'h' ∷ b'a' ∷ b't' ∷ [])
        (bool_node false) in
    json_node_putn root
      (b'p' ∷ b'r' ∷ b'e' ∷ b'v' ∷ b'i' ∷ b'e' ∷ b'w' ∷ b's' ∷ b'C' ∷ b'h' ∷ b'a' ∷ b't' ∷ [])
      (bool_node false)
