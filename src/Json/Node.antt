-- ===== src/Json/Node.antt =====
-- The tree, and the functions of data/json.c that build and read it.
use mcsrv.Common.{
  ℕ, zero, suc, Bool, true, false, ◌&&◌, List, [], ◌∷◌, Option, none, some, ◌==◌, if◌then◌else◌,
}
use mcsrv.Common.Int.{ℤ, pos, negsuc}
use mcsrv.Common.Outcome.{Outcome, ok, ◌>>=◌}
use mcsrv.ByteBuffer.{is_negative}
use mcsrv.Dict.{Comparator, Slot, Dict, default_hash, dict_init, dict_put, dict_get}

-- `enum JSONType`
pub data JsonType : Type 0 where
  string_type int_type float_type object_type array_type bool_type null_type : JsonType

-- `struct json_node`: the type is the constructor, the union its argument.
mutual
  pub data Node : Type 0 where
    string : List ℕ → Node
    number : ℤ → Node
    fnumber : ℕ → Node
    obj : Fields → Node
    array : Items → Node
    boolean : Bool → Node
    null : Node

  pub data Items : Type 0 where
    no_items : Items
    item : Node → Items → Items

  pub data Fields : Type 0 where
    no_fields : Fields
    field : List ℕ → Node → Fields → Fields

unfoldable pub type_of : Node → JsonType
type_of (Node.string s) = JsonType.string_type
type_of (Node.number n) = JsonType.int_type
type_of (Node.fnumber x) = JsonType.float_type
type_of (Node.obj fs) = JsonType.object_type
type_of (Node.array xs) = JsonType.array_type
type_of (Node.boolean b) = JsonType.bool_type
type_of Node.null = JsonType.null_type

-- A new node of a type; a string's NULL base is the empty list.
unfoldable pub json_node_create : JsonType → Node
json_node_create JsonType.string_type = Node.string []
json_node_create JsonType.int_type = Node.number (pos 0)
json_node_create JsonType.float_type = Node.fnumber 0
json_node_create JsonType.object_type = Node.obj no_fields
json_node_create JsonType.array_type = Node.array no_items
json_node_create JsonType.bool_type = Node.boolean false
json_node_create JsonType.null_type = Node.null

-- `vect_add` and `dict_put`. An object is kept as the list of its puts, of which its size counts
-- every one; a lookup makes the dictionary of them (`fields_dict`).
unfoldable pub add_item : Items → Node → Items
add_item no_items node = item node no_items
add_item (item n xs) node = item n (add_item xs node)

unfoldable pub put_field : Fields → List ℕ → Node → Fields
put_field no_fields name node = field name node no_fields
put_field (field k n fs) name node = field k n (put_field fs name node)

-- A node of another type is left as it is.
unfoldable pub json_node_putn : Node → List ℕ → Node → Node
json_node_putn (Node.obj fs) name subnode = Node.obj (put_field fs name subnode)
json_node_putn other name subnode = other

unfoldable pub json_node_addn : Node → Node → Node
json_node_addn (Node.array xs) element = Node.array (add_item xs element)
json_node_addn other element = other

unfoldable pub json_set_int : Node → ℤ → Node
json_set_int (Node.number n) value = Node.number value
json_set_int other value = other

unfoldable pub json_set_double : Node → ℕ → Node
json_set_double (Node.fnumber x) value = Node.fnumber value
json_set_double other value = other

unfoldable pub json_set_bool : Node → Bool → Node
json_set_bool (Node.boolean b) value = Node.boolean value
json_set_bool other value = other

-- On a string node that is not set yet.
unfoldable pub json_set_str_direct : Node → List ℕ → Node
json_set_str_direct (Node.string []) value = Node.string value
json_set_str_direct other value = other

-- `str_compare` is 0.
unfoldable pub same_bytes : List ℕ → List ℕ → Bool
same_bytes [] [] = true
same_bytes (x ∷ xs) (y ∷ ys) = x == y && same_bytes xs ys
same_bytes xs ys = false

-- `CMP_STRING`
abbrev pub cmp_string : Comparator (List ℕ)
cmp_string = record { hfunc = default_hash; same = same_bytes }

-- A zeroed slot of an object's dictionary: an empty name, and a NULL node.
abbrev pub blank_field : Slot (List ℕ) Node
blank_field = record { hash = 0; key = []; value = Node.null }

-- The dictionary of an object, after the puts of its names.
unfoldable pub put_fields : Fields → Dict (List ℕ) Node → Outcome (Dict (List ℕ) Node)
put_fields no_fields dict = ok dict
put_fields (field k n fs) dict = do
  (idx, dict') ← dict_put cmp_string blank_field dict k n
  put_fields fs dict'

unfoldable pub fields_dict : Fields → Outcome (Dict (List ℕ) Node)
fields_dict fs = put_fields fs (dict_init blank_field)

-- The getters; `none` is NULL or FALSE. A name that is not found is one that `dict_get` fails on.
unfoldable pub json_get_obj : Node → List ℕ → Outcome (Option Node)
json_get_obj (Node.obj fs) name = do
  dict ← fields_dict fs
  (idx, out) ← dict_get cmp_string dict name true
  ok (if is_negative idx then none else out)
json_get_obj other name = ok none

unfoldable pub nth_item : Items → ℕ → Option Node
nth_item no_items idx = none
nth_item (item n xs) zero = some n
nth_item (item n xs) (suc idx) = nth_item xs idx

unfoldable pub json_get_array : Node → ℕ → Option Node
json_get_array (Node.array xs) idx = nth_item xs idx
json_get_array other idx = none

unfoldable pub count_items : Items → ℕ
count_items no_items = 0
count_items (item n xs) = suc (count_items xs)

unfoldable pub count_fields : Fields → ℕ
count_fields no_fields = 0
count_fields (field k n fs) = suc (count_fields fs)

unfoldable pub json_get_length : Node → ℤ
json_get_length (Node.obj fs) = pos (count_fields fs)
json_get_length (Node.array xs) = pos (count_items xs)
json_get_length other = negsuc 0

unfoldable pub json_get_str : Node → Option (List ℕ)
json_get_str (Node.string s) = some s
json_get_str other = none

unfoldable pub json_get_int : Node → Option ℤ
json_get_int (Node.number n) = some n
json_get_int other = none

unfoldable pub json_get_float : Node → Option ℕ
json_get_float (Node.fnumber x) = some x
json_get_float other = none

unfoldable pub json_get_bool : Node → Option Bool
json_get_bool (Node.boolean b) = some b
json_get_bool other = none

unfoldable pub json_is_null : Node → Bool
json_is_null Node.null = true
json_is_null other = false
