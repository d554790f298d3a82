-- ===== src/Json/Tests.antt =====
-- A concrete tree, its tokens, and texts that are lexed and parsed.
use mcsrv.Common.{
  ℕ, ◌≡◌, refl, true, false, some, none, Option, List, [], ◌∷◌, arith, ◌⊎◌, length, ◌++◌,
}
use mcsrv.Common.Int.{pos}
use mcsrv.Common.Outcome.{ok, abort, fault}
use mcsrv.ByteBuffer.{
  ByteBuffer, bytebuf_peek, bytebuf_read, bytebuf_read_const, bytebuf_register_read,
}
use mcsrv.Json.Node.{
  JsonType, Node, no_items, item, no_fields, field, same_bytes, json_get_obj, json_node_putn,
  json_node_create,
}
use mcsrv.Json.Parser.{Token, TokenValue, ParsingInfo, json_analyze, token_has_value}
use mcsrv.Json.Lexer.{
  Lexing, json_lex, json_parse, lex_token, lex_char, lex_number, number_rounds,
  is_valid_number_char, skip,
}
use mcsrv.Json.Tokens.{tokens, values, depth}
use mcsrv.Json.RoundTrip.{json_analyze-tokens}
use mcsrv.Json.Total.{json_analyze-returns}
use mcsrv.Json.Lexed.{json_parse-returns}
use mcsrv.Json.Minus.{json_lex-minus}
use mcsrv.Json.Lookup.{json_get_obj-putn}
use mcsrv.Dict.{default_hash, hash_rounds, hash_byte}

-- { "a": [7, null], "b": true }
abbrev tree : Node
tree = Node.obj (
    field (97 ∷ []) (Node.array (item (Node.number (pos 7)) (item Node.null no_items)))
      (field (98 ∷ []) (Node.boolean true) no_fields))

json_analyze-tokens_example :
    json_analyze 28 0
      (record { tok_list = tokens tree ++ (Token.eof ∷ []); tok_values = values tree ++ [] })
    ≡ ok (some tree, record { tok_list = Token.eof ∷ []; tok_values = [] })
unfolding tokens depth
json_analyze-tokens_example =
    json_analyze-tokens tree 28 (Token.eof ∷ []) [] (omega arith) (omega arith)

-- A closing brace where a value is missing.
json_analyze-returns_example :
    (out : Option Node) × (info : ParsingInfo) × (json_analyze 15 0 (record {
      tok_list = Token.lbrace ∷ Token.string ∷ Token.colon ∷ Token.rbrace ∷ Token.eof ∷ [];
      tok_values = TokenValue.str (97 ∷ []) ∷ [];
    })
      ≡ ok (out, info))
json_analyze-returns_example =
    json_analyze-returns 15
      (Token.lbrace ∷ Token.string ∷ Token.colon ∷ Token.rbrace ∷ Token.eof ∷ [])
      (TokenValue.str (97 ∷ []) ∷ []) (tt, tt) (omega arith)

abbrev test_lexing : Lexing
test_lexing = record {
  strtol = λ text. pos (length text);
  strtod = λ text. length text;
  uninit = 77;
  marked = false;
}

-- The text of a buffer of four bytes.
abbrev holding : List ℕ → ByteBuffer
holding text = record { buf = text; read_head = pos 0; write_head = pos 0; size = 4; capacity = 4 }

-- The buffer after all was read.
abbrev emptied : List ℕ → ByteBuffer
emptied text = record { buf = text; read_head = pos 0; write_head = pos 0; size = 0; capacity = 4 }

-- [12]
abbrev text : List ℕ
text = b'[' ∷ b'1' ∷ b'2' ∷ b']' ∷ []

abbrev unset : TokenValue
unset = TokenValue.boolean false

lexed :
    json_lex test_lexing 4 9 unset (holding text)
    ≡ ok (
      true,
      Token.lbracket ∷ Token.int ∷ Token.rbracket ∷ Token.eof ∷ [],
      TokenValue.integer (pos 2) ∷ [],
      emptied text,
    )
unfolding json_lex lex_token lex_char lex_number number_rounds is_valid_number_char skip
    token_has_value bytebuf_read bytebuf_peek bytebuf_read_const bytebuf_register_read
    mcsrv.ByteBuffer.is_fixed mcsrv.Common.load mcsrv.Common.rem
lexed = refl

json_parse-returns_example :
    (root : Option Node) × (json_parse test_lexing 4 9 unset (holding text)
      ≡ ok (root, emptied text))
    × ((true ≡ true) ⊎ (root ≡ none))
json_parse-returns_example =
    json_parse-returns test_lexing 4 9 unset (holding text) (emptied text) true
      (Token.lbracket ∷ Token.int ∷ Token.rbracket ∷ Token.eof ∷ [])
      (TokenValue.integer (pos 2) ∷ []) lexed

-- -12]
abbrev minus : List ℕ
minus = b'-' ∷ b'1' ∷ b'2' ∷ b']' ∷ []

json_lex-minus_example : json_lex test_lexing 100 2 unset (holding minus) ≡ abort
unfolding bytebuf_peek bytebuf_read_const mcsrv.ByteBuffer.is_fixed mcsrv.Common.load
json_lex-minus_example = json_lex-minus test_lexing (holding minus) refl refl 100 0 unset

-- An object with the name "a", and the name "b".
json_get_obj-putn_example :
    (json_get_obj
        (json_node_putn (json_node_create JsonType.object_type) (97 ∷ []) Node.null)
        (97 ∷ [])
      ≡ ok (some Node.null))
    × (json_get_obj
          (json_node_putn (json_node_create JsonType.object_type) (97 ∷ []) Node.null)
          (98 ∷ [])
        ≡ fault)
unfolding same_bytes default_hash hash_rounds hash_byte
json_get_obj-putn_example = json_get_obj-putn (97 ∷ []) (98 ∷ []) Node.null (omega arith) refl
