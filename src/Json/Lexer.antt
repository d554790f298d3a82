-- ===== src/Json/Lexer.antt =====
-- The first half of data/json_parse.c: from the bytes to the tokens.
-- The two vectors are the lists of their elements. What an uninitialised `char` holds is a
-- parameter, as are `strtol` and `strtod`, whether the arena has a mark (`arena_save`), and the
-- number of tokens that it has room for; the characters of a token are taken to find room.
use mcsrv.Common.{
  ℕ, zero, suc, ◌*◌, Bool, true, false, ◌&&◌, ◌||◌, not, List, [], ◌∷◌, ◌++◌, length, leb, ◌==◌,
  if◌then◌else◌, Option, none,
}
use mcsrv.Common.Int.{ℤ}
use mcsrv.Common.Outcome.{Outcome, ok, abort, fault, stuck, ◌>>=◌}
use mcsrv.ByteBuffer.{ByteBuffer, bytebuf_read, bytebuf_peek}
use mcsrv.Json.Node.{Node, same_bytes}
use mcsrv.Json.Parser.{Token, TokenValue, token_has_value, json_analyze}

pub record Lexing : Type 0 where
  pub strtol : List ℕ → ℤ
  pub strtod : List ℕ → ℕ
  pub uninit : ℕ
  pub marked : Bool

-- `isspace` in the C locale.
abbrev pub is_space : ℕ → Bool
is_space c = c == 32 || (leb 9 c && leb c 13)

-- Within the loop `frac` and `exponent` stay FALSE.
unfoldable pub is_valid_number_char : ℕ → Bool → Bool → Bool
is_valid_number_char c frac exponent =
    (leb b'0' c && leb c b'9')
    || (not frac && c == b'.')
    || (not exponent && (c == b'e' || c == b'E'))

abbrev pub starts_number : ℕ → Bool
starts_number c = (leb b'0' c && leb c b'9') || c == b'-'

unfoldable pub skip : ByteBuffer → Outcome ByteBuffer
skip buffer = do (xs, n, b) ← bytebuf_read buffer 1 false; ok b

-- The result, the value and the buffer of a token function.
abbrev pub Lexed : Type 0
Lexed = Outcome (Token × TokenValue × ByteBuffer)

abbrev pub skip_to : Token → TokenValue → ByteBuffer → Lexed
skip_to token value buffer = do b ← skip buffer; ok (token, value, b)

module _ (env : Lexing) where
  -- The loop of `lex_string`; `c` is the variable of that name, `text` the builder's characters.
  -- An escaped character is dropped, and the backslash appended twice.
  unfoldable pub string_rounds : ℕ → ℕ → List ℕ → TokenValue → ByteBuffer → Lexed
  string_rounds zero c text value buffer = stuck
  string_rounds (suc fuel) c text value buffer = do
    (xs, n, b) ← bytebuf_read buffer 1 true
    elim xs [
      | [] ↦
          ok (if c == b'"' then (Token.string, TokenValue.str text, b) else (Token.error, value, b))
      | d ∷ ds ↦ elim (d == b'"') [
        | true ↦ ok (Token.string, TokenValue.str text, b)
        | false ↦ elim (d == b'\\') [
          | true ↦ do b ← skip b; string_rounds fuel d (text ++ (d ∷ d ∷ [])) value b
          | false ↦ string_rounds fuel d (text ++ (d ∷ [])) value b
        ]
      ]
    ]

  unfoldable pub lex_string : ℕ → TokenValue → ByteBuffer → Lexed
  lex_string fuel value buffer = do b ← skip buffer; string_rounds fuel env.uninit [] value b

  -- The loop of `lex_number`: the last character seen, the builder's characters and the buffer.
  unfoldable pub number_rounds : ℕ → ℕ → List ℕ → ByteBuffer → Outcome (ℕ × List ℕ × ByteBuffer)
  number_rounds zero c text buffer = stuck
  number_rounds (suc fuel) c text buffer = do
    (xs, n) ← bytebuf_peek buffer 1
    elim xs [
      | [] ↦ ok (c, text, buffer)
      | d ∷ ds ↦ elim (is_valid_number_char d false false) [
        | false ↦ ok (d, text, buffer)
        | true ↦ do
          (ys, m, b) ← bytebuf_read buffer 1 true
          number_rounds fuel d (text ++ (d ∷ [])) b
      ]
    ]

  -- `frac` is set after the loop, from the last character seen; `exponent` is not read again. The
  -- final `arena_restore` does nothing in an arena without a mark; in one with a mark it frees the two
  -- vectors that the tokens are put into, which is a fault.
  unfoldable pub lex_number : ℕ → TokenValue → ByteBuffer → Lexed
  lex_number fuel value buffer = do
    (c, text, b) ← number_rounds fuel env.uninit [] buffer
    if env.marked
        then fault
        else ok (
            if c == b'.'
            then (Token.float, TokenValue.floating (env.strtod text), b)
            else (Token.int, TokenValue.integer (env.strtol text), b))

  unfoldable pub lex_boolean : Bool → TokenValue → ByteBuffer → Lexed
  lex_boolean expected value buffer =
      let text =
        (if expected
          then b't' ∷ b'r' ∷ b'u' ∷ b'e' ∷ []
          else b'f' ∷ b'a' ∷ b'l' ∷ b's' ∷ b'e' ∷ []) in
      do
        (tmp, n, b) ← bytebuf_read buffer (length text) true
        ok (
            if n == length text && same_bytes tmp text
            then (Token.bool, TokenValue.boolean expected, b)
            else (Token.error, value, b))

  unfoldable pub lex_null : TokenValue → ByteBuffer → Lexed
  lex_null value buffer = do
    (tmp, n, b) ← bytebuf_read buffer 4 true
    ok (
        if n == 4 && same_bytes tmp (b'n' ∷ b'u' ∷ b'l' ∷ b'l' ∷ [])
        then (Token.null, value, b)
        else (Token.error, value, b))

  -- The `switch`.
  unfoldable pub lex_char : ℕ → ℕ → TokenValue → ByteBuffer → Lexed
  unfolding skip
  lex_char fuel c value buffer =
      if c == b'{'
      then skip_to Token.lbrace value buffer
      else if c == b'}'
      then skip_to Token.rbrace value buffer
      else if c == b'['
      then skip_to Token.lbracket value buffer
      else if c == b']'
      then skip_to Token.rbracket value buffer
      else if c == b','
      then skip_to Token.comma value buffer
      else if c == b':'
      then skip_to Token.colon value buffer
      else if c == b'"'
      then lex_string fuel value buffer
      else if c == b't'
      then lex_boolean true value buffer
      else if c == b'f'
      then lex_boolean false value buffer
      else if c == b'n'
      then lex_null value buffer
      else if c == 0
      then ok (Token.eof, value, buffer)
      else if starts_number c
      then lex_number fuel value buffer
      else ok (Token.error, value, buffer)

  -- The spaces in front of a token are skipped.
  unfoldable pub lex_token : ℕ → TokenValue → ByteBuffer → Lexed
  lex_token zero value buffer = stuck
  lex_token (suc fuel) value buffer = do
    (xs, n) ← bytebuf_peek buffer 1
    elim xs [
      | [] ↦ ok (Token.eof, value, buffer)
      | c ∷ cs ↦ elim (is_space c) [
        | true ↦ do b ← skip buffer; lex_token fuel value b
        | false ↦ lex_char fuel c value buffer
      ]
    ]

  -- `value` is uninitialised at first, and keeps its last value over a token without one. When the
  -- arena has no room for one more token, `vect_add` aborts.
  unfoldable pub json_lex :
      ℕ → ℕ → TokenValue → ByteBuffer → Outcome (Bool × List Token × List TokenValue × ByteBuffer)
  json_lex zero fuel value buffer = do (token, v, b) ← lex_token fuel value buffer; abort
  json_lex (suc room) fuel value buffer = do
    (token, v, b) ← lex_token fuel value buffer
    elim token [
      | Token.eof ↦ ok (true, Token.eof ∷ [], [], b)
      | Token.error ↦ ok (false, Token.error ∷ [], [], b)
      | other ↦ do
        (success, ts, vs, b) ← json_lex room fuel v b
        ok (success, other ∷ ts, if token_has_value other then v ∷ vs else vs, b)
    ]

  -- The root; `none` is NULL. The arena's room and the fuel of the lexer are parameters.
  unfoldable pub json_parse : ℕ → ℕ → TokenValue → ByteBuffer → Outcome (Option Node × ByteBuffer)
  json_parse room fuel value buffer = do
    (success, ts, vs, b) ← json_lex room fuel value buffer
    if success
        then (do
          (root, info) ← json_analyze (3 * length ts) 0 (record { tok_list = ts; tok_values = vs })
          ok (root, b))
        else ok (none, b)
