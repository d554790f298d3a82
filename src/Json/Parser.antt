-- ===== src/Json/Parser.antt =====
-- The second half of data/json_parse.c: from the tokens to the tree.
use mcsrv.Common.{ℕ, zero, suc, ◌+◌, Bool, true, false, List, [], ◌∷◌, Option, none, some, leb}
use mcsrv.Common.Int.{ℤ}
use mcsrv.Common.Outcome.{Outcome, ok, fault, stuck, ◌>>=◌}
use mcsrv.Json.Node.{
  JsonType, Node, json_node_create, json_node_putn, json_node_addn, json_set_int, json_set_double,
  json_set_bool, json_set_str_direct,
}

-- `enum JSONToken`
pub data Token : Type 0 where
  lbrace rbrace lbracket rbracket comma colon null error eof string int float bool : Token

-- `union tok_value`, with the member that was written.
pub data TokenValue : Type 0 where
  boolean : Bool → TokenValue
  integer : ℤ → TokenValue
  floating : ℕ → TokenValue
  str : List ℕ → TokenValue

-- `types[]`; `none` is _JSON_COUNT.
unfoldable pub types : Token → Option JsonType
types Token.lbrace = some JsonType.object_type
types Token.lbracket = some JsonType.array_type
types Token.string = some JsonType.string_type
types Token.int = some JsonType.int_type
types Token.float = some JsonType.float_type
types Token.bool = some JsonType.bool_type
types Token.null = some JsonType.null_type
types other = none

unfoldable pub token_has_value : Token → Bool
token_has_value Token.string = true
token_has_value Token.int = true
token_has_value Token.float = true
token_has_value Token.bool = true
token_has_value other = false

-- `struct parse_info`: the tokens from `idx` on, and the values from `val_idx` on.
pub record ParsingInfo : Type 0 where
  pub tok_list : List Token
  pub tok_values : List TokenValue

-- Past the end the token is an uninitialised variable, and reading it a fault.
unfoldable pub peek_token : ParsingInfo → Outcome Token
peek_token info = elim info.tok_list [ [] ↦ fault | t ∷ ts ↦ ok t ]

unfoldable pub pop_token : ParsingInfo → Outcome (Token × ParsingInfo)
pop_token info = elim info.tok_list [ [] ↦ fault | t ∷ ts ↦ ok (t, record info { tok_list = ts }) ]

-- `none` is NULL.
unfoldable pub pop_value : ParsingInfo → Option TokenValue × ParsingInfo
pop_value info = elim info.tok_values [
  | [] ↦ (none, info)
  | v ∷ vs ↦ (some v, record info { tok_values = vs })
]

-- A member of the union that was not written, or one behind NULL, is not read.
unfoldable pub json_set_value : Node → Option TokenValue → Outcome Node
json_set_value (Node.number n) (some (TokenValue.integer value)) =
    ok (json_set_int (Node.number n) value)
json_set_value (Node.fnumber x) (some (TokenValue.floating value)) =
    ok (json_set_double (Node.fnumber x) value)
json_set_value (Node.string s) (some (TokenValue.str value)) =
    ok (json_set_str_direct (Node.string s) value)
json_set_value (Node.boolean b) (some (TokenValue.boolean value)) =
    ok (json_set_bool (Node.boolean b) value)
json_set_value (Node.number n) other = fault
json_set_value (Node.fnumber x) other = fault
json_set_value (Node.string s) other = fault
json_set_value (Node.boolean b) other = fault
json_set_value node other = ok node

unfoldable pub name_of : Option TokenValue → Outcome (List ℕ)
name_of (some (TokenValue.str name)) = ok name
name_of other = fault

abbrev pub max_nesting : ℕ
max_nesting = 32

-- The node that a function returns, or NULL.
abbrev pub Parsed : Type 0
Parsed = Outcome (Option Node × ParsingInfo)

abbrev pub fail : ParsingInfo → Parsed
fail info = ok (none, info)

-- A scalar node of the token's type with its value.
unfoldable pub scalar : Token → ParsingInfo → Parsed
scalar token info = elim (types token) [
  | none ↦ fail info
  | some type ↦
      let (value, i) = pop_value info in
      do node ← json_set_value (json_node_create type) value; ok (some node, i)
]

-- `members` and `elements` are the bodies of the `do ... while` loops.
unfoldable mutual
  pub json_analyze : ℕ → ℕ → ParsingInfo → Parsed
  json_analyze zero level info = stuck
  json_analyze (suc fuel) level info = elim (leb max_nesting level) [
    | true ↦ fail info
    | false ↦ do
      (token, i) ← pop_token info
      elim token [
        | Token.lbrace ↦ json_analyze_obj fuel level i
        | Token.lbracket ↦ json_analyze_array fuel level i
        | Token.string ↦ scalar Token.string i
        | Token.int ↦ scalar Token.int i
        | Token.float ↦ scalar Token.float i
        | Token.bool ↦ scalar Token.bool i
        | Token.null ↦ ok (some (json_node_create JsonType.null_type), i)
        | other ↦ fail i
      ]
  ]

  pub json_analyze_obj : ℕ → ℕ → ParsingInfo → Parsed
  json_analyze_obj zero level info = stuck
  json_analyze_obj (suc fuel) level info = do
    token ← peek_token info
    elim token [
      | Token.rbrace ↦ do
        (token, i) ← pop_token info
        ok (some (json_node_create JsonType.object_type), i)
      | other ↦ members fuel level (json_node_create JsonType.object_type) info
    ]

  pub members : ℕ → ℕ → Node → ParsingInfo → Parsed
  members zero level node info = stuck
  members (suc fuel) level node info = do
    (token, i) ← pop_token info
    elim token [
      | Token.string ↦
          let (value, i) = pop_value i in
          do
            (token, i) ← pop_token i
            elim token [
              | Token.colon ↦ do
                (subnode, i) ← json_analyze fuel (level + 1) i
                elim subnode [
                  | none ↦ fail i
                  | some sub ↦ do
                    name ← name_of value
                    (token, i) ← pop_token i
                    elim token [
                      | Token.comma ↦ members fuel level (json_node_putn node name sub) i
                      | Token.rbrace ↦ ok (some (json_node_putn node name sub), i)
                      | other ↦ fail i
                    ]
                ]
              | other ↦ fail i
            ]
      | other ↦ fail i
    ]

  pub json_analyze_array : ℕ → ℕ → ParsingInfo → Parsed
  json_analyze_array zero level info = stuck
  json_analyze_array (suc fuel) level info = do
    token ← peek_token info
    elim token [
      | Token.rbracket ↦ do
        (token, i) ← pop_token info
        ok (some (json_node_create JsonType.array_type), i)
      | other ↦ elements fuel level (json_node_create JsonType.array_type) info
    ]

  pub elements : ℕ → ℕ → Node → ParsingInfo → Parsed
  elements zero level node info = stuck
  elements (suc fuel) level node info = do
    (subnode, i) ← json_analyze fuel (level + 1) info
    elim subnode [
      | none ↦ fail i
      | some sub ↦ do
        (token, i) ← pop_token i
        elim token [
          | Token.comma ↦ elements fuel level (json_node_addn node sub) i
          | Token.rbracket ↦ ok (some (json_node_addn node sub), i)
          | other ↦ fail i
        ]
    ]
