-- ===== src/Json/Minus.antt =====
-- A minus sign where a token starts.
use mcsrv.Common.{ℕ, zero, suc, ◌≡◌, refl, false, List, [], ◌∷◌}
use mcsrv.Common.Outcome.{ok, abort}
use mcsrv.ByteBuffer.{ByteBuffer, bytebuf_peek}
use mcsrv.Json.Parser.{Token, TokenValue}
use mcsrv.Json.Lexer.{
  Lexing, is_valid_number_char, lex_number, number_rounds, lex_char, lex_token, json_lex,
}

module _ (env : Lexing) (b : ByteBuffer) (plain : env.marked ≡ false)
    (front : bytebuf_peek b 1 ≡ ok (b'-' ∷ [], 1)) where
  number_rounds-minus :
      (fuel c : ℕ) (text : List ℕ) → number_rounds env (suc fuel) c text b ≡ ok (b'-', text, b)
  unfolding number_rounds is_valid_number_char
  number_rounds-minus fuel c text = rw front refl

  lex_token-minus :
      (fuel : ℕ) (value : TokenValue)
      → lex_token env (suc (suc fuel)) value b
        ≡ ok (Token.int, TokenValue.integer (env.strtol []), b)
  unfolding lex_token lex_char lex_number
  lex_token-minus fuel value = rw (front, number_rounds-minus fuel env.uninit [], plain) refl

  -- At a byte `-`, in an arena without a mark, the lexer aborts the program, however much room the
  -- arena has: no byte of a number may be one, so that each round reads none and adds one more empty
  -- number, until the arena is full.
  pub json_lex-minus :
      (room fuel : ℕ) (value : TokenValue) → json_lex env room (suc (suc fuel)) value b ≡ abort
  unfolding json_lex
  json_lex-minus zero fuel value = rw (lex_token-minus fuel value) refl
  json_lex-minus (suc room) fuel value =
      rw (lex_token-minus fuel value, json_lex-minus room fuel (TokenValue.integer (env.strtol [])))
        refl
