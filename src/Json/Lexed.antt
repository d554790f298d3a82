-- ===== src/Json/Lexed.antt =====
-- What the lexer hands over is what the parser needs.
use mcsrv.Common.{
  ℕ, zero, suc, ◌*◌, ◌≡◌, refl, List, [], ◌∷◌, ◌++◌, Option, none, length, true, false, Bool, inl,
  inr, ◌⊎◌, arith, if◌then◌else◌, ◌==◌, ◌&&◌,
}
use mcsrv.Common.Outcome.{Outcome, ok, abort, fault, stuck, ◌>>=◌}
use mcsrv.ByteBuffer.{ByteBuffer, bytebuf_read, bytebuf_peek}
use mcsrv.Json.Node.{Node, same_bytes}
use mcsrv.Json.Parser.{Token, TokenValue, token_has_value}
use mcsrv.Json.Lexer.{
  Lexing, Lexed, is_space, starts_number, skip, lex_string, string_rounds, lex_number,
  number_rounds, lex_boolean, lex_null, lex_char, lex_token, json_lex, json_parse,
}
use mcsrv.Json.Total.{IsTyped, Aligned, json_analyze-returns}

abbrev Typed : Lexed → Type 0
Typed (ok (t, v, b)) = IsTyped t v
Typed other = Unit

Typed-bind :
    {A : Type 0} (m : Outcome A) (f : A → Lexed) → ((a : A) → Typed (f a)) → Typed (m >>= f)
unfolding ◌>>=◌
Typed-bind (ok a) f h = h a
Typed-bind abort f h = tt
Typed-bind fault f h = tt
Typed-bind stuck f h = tt

Typed-if : (c : Bool) (x y : Lexed) → Typed x → Typed y → Typed (if c then x else y)
Typed-if true x y h k = h
Typed-if false x y h k = k

Typed-ok :
    (c : Bool) (x y : Token × TokenValue × ByteBuffer)
    → Typed (ok x)
    → Typed (ok y)
    → Typed (ok (if c then x else y))
Typed-ok true x y h k = h
Typed-ok false x y h k = k

-- Both cases of a match in a loop.
Typed-list :
    (xs : List ℕ) (m : Lexed) (f : ℕ → List ℕ → Lexed)
    → Typed m
    → ((c : ℕ) (cs : List ℕ) → Typed (f c cs))
    → Typed (elim xs [ [] ↦ m | c ∷ cs ↦ f c cs ])
Typed-list [] m f h k = h
Typed-list (c ∷ cs) m f h k = k c cs

Typed-bool : (c : Bool) (x y : Lexed) → Typed x → Typed y → Typed (elim c [ true ↦ x | false ↦ y ])
Typed-bool true x y h k = h
Typed-bool false x y h k = k

module _ (env : Lexing) where
  string_rounds-Typed :
      (fuel c : ℕ) (text : List ℕ) (value : TokenValue) (b : ByteBuffer)
      → Typed (string_rounds env fuel c text value b)
  unfolding string_rounds
  string_rounds-Typed zero c text value b = tt
  string_rounds-Typed (suc fuel) c text value b = Typed-bind (bytebuf_read b 1 true) _ (λ r.
      Typed-list r.0 _ _
        (Typed-ok (c == b'"') (Token.string, TokenValue.str text, r.2) (Token.error, value, r.2) tt
          tt)
        (λ d ds. Typed-bool (d == b'"') _ _ tt (
          Typed-bool (d == b'\\') _ _
            (Typed-bind (skip r.2) _
              (λ b. string_rounds-Typed fuel d (text ++ (d ∷ d ∷ [])) value b))
            (string_rounds-Typed fuel d (text ++ (d ∷ [])) value r.2))))

  lex_string-Typed :
      (fuel : ℕ) (value : TokenValue) (b : ByteBuffer) → Typed (lex_string env fuel value b)
  unfolding lex_string
  lex_string-Typed fuel value b =
      Typed-bind (skip b) _ (λ b. string_rounds-Typed fuel env.uninit [] value b)

  lex_number-Typed :
      (fuel : ℕ) (value : TokenValue) (b : ByteBuffer) → Typed (lex_number env fuel value b)
  unfolding lex_number
  lex_number-Typed fuel value b = Typed-bind (number_rounds env fuel env.uninit [] b) _ (λ r.
      Typed-if env.marked fault _ tt (
        Typed-ok (r.0 == b'.') (Token.float, TokenValue.floating (env.strtod r.1), r.2)
          (Token.int, TokenValue.integer (env.strtol r.1), r.2) tt tt))

  lex_boolean-Typed :
      (expected : Bool) (value : TokenValue) (b : ByteBuffer)
      → Typed (lex_boolean env expected value b)
  unfolding lex_boolean
  lex_boolean-Typed expected value b =
      let text =
        (if expected
          then b't' ∷ b'r' ∷ b'u' ∷ b'e' ∷ []
          else b'f' ∷ b'a' ∷ b'l' ∷ b's' ∷ b'e' ∷ []) in
      Typed-bind (bytebuf_read b (length text) true) _ (λ r.
        Typed-ok (r.1 == length text && same_bytes r.0 text)
          (Token.bool, TokenValue.boolean expected, r.2) (Token.error, value, r.2) tt tt)

  lex_null-Typed : (value : TokenValue) (b : ByteBuffer) → Typed (lex_null env value b)
  unfolding lex_null
  lex_null-Typed value b = Typed-bind (bytebuf_read b 4 true) _ (λ r.
      Typed-ok (r.1 == 4 && same_bytes r.0 (b'n' ∷ b'u' ∷ b'l' ∷ b'l' ∷ []))
        (Token.null, value, r.2) (Token.error, value, r.2) tt tt)

  lex_char-Typed :
      (fuel c : ℕ) (value : TokenValue) (b : ByteBuffer) → Typed (lex_char env fuel c value b)
  unfolding lex_char
  lex_char-Typed fuel c value b = Typed-if (c == b'{') _ _ (Typed-bind (skip b) _ (λ b. tt)) (
      Typed-if (c == b'}') _ _ (Typed-bind (skip b) _ (λ b. tt)) (
        Typed-if (c == b'[') _ _ (Typed-bind (skip b) _ (λ b. tt)) (
          Typed-if (c == b']') _ _ (Typed-bind (skip b) _ (λ b. tt)) (
            Typed-if (c == b',') _ _ (Typed-bind (skip b) _ (λ b. tt)) (
              Typed-if (c == b':') _ _ (Typed-bind (skip b) _ (λ b. tt)) (
                Typed-if (c == b'"') _ _ (lex_string-Typed fuel value b) (
                  Typed-if (c == b't') _ _ (lex_boolean-Typed true value b) (
                    Typed-if (c == b'f') _ _ (lex_boolean-Typed false value b) (
                      Typed-if (c == b'n') _ _ (lex_null-Typed value b) (
                        Typed-if (c == 0) _ _ tt (
                          Typed-if (starts_number c) _ _ (lex_number-Typed fuel value b)
                            tt)))))))))))

  lex_token-Typed :
      (fuel : ℕ) (value : TokenValue) (b : ByteBuffer) → Typed (lex_token env fuel value b)
  unfolding lex_token
  lex_token-Typed zero value b = tt
  lex_token-Typed (suc fuel) value b = Typed-bind (bytebuf_peek b 1) _ (λ r.
      Typed-list r.0 _ _ tt (λ c cs.
        Typed-bool (is_space c) _ _ (Typed-bind (skip b) _ (λ b. lex_token-Typed fuel value b))
          (lex_char-Typed fuel c value b)))

  -- The tokens and the values, when the lexer succeeds.
  abbrev Good : Outcome (Bool × List Token × List TokenValue × ByteBuffer) → Type 0
  Good (ok (true, ts, vs, b)) = Aligned ts vs
  Good other = Unit

  Good-bind :
      (m : Lexed)
      (f : Token × TokenValue × ByteBuffer
        → Outcome (Bool × List Token × List TokenValue × ByteBuffer))
      → Typed m
      → ((t : Token) (v : TokenValue) (b : ByteBuffer) → IsTyped t v → Good (f (t, v, b)))
      → Good (m >>= f)
  Good-bind (ok (t, v, b)) f h k = k t v b h
  Good-bind abort f h k = tt
  Good-bind fault f h k = tt
  Good-bind stuck f h k = tt

  -- One more token in front of a result, as `json_lex` puts it there.
  Good-cons :
      (t : Token) (v : TokenValue) (m : Outcome (Bool × List Token × List TokenValue × ByteBuffer))
      → IsTyped t v
      → Good m
      → Good (do
        (success, ts, vs, b) ← m
        ok (success, t ∷ ts, if token_has_value t then v ∷ vs else vs, b))
  unfolding token_has_value
  Good-cons Token.eof v (ok (true, ts, vs, b)) h k = tt
  Good-cons Token.string v (ok (true, ts, vs, b)) h k = (h, k)
  Good-cons Token.int v (ok (true, ts, vs, b)) h k = (h, k)
  Good-cons Token.float v (ok (true, ts, vs, b)) h k = (h, k)
  Good-cons Token.bool v (ok (true, ts, vs, b)) h k = (h, k)
  Good-cons t v (ok (true, ts, vs, b)) h k = k
  Good-cons t v (ok (false, ts, vs, b)) h k = tt
  Good-cons t v abort h k = tt
  Good-cons t v fault h k = tt
  Good-cons t v stuck h k = tt

  Good-round :
      (t : Token) (v : TokenValue) (b : ByteBuffer)
      (m : Outcome (Bool × List Token × List TokenValue × ByteBuffer))
      → IsTyped t v
      → Good m
      → Good (elim t [
        | Token.eof ↦ ok (true, Token.eof ∷ [], [], b)
        | Token.error ↦ ok (false, Token.error ∷ [], [], b)
        | other ↦ do
          (success, ts, vs, b) ← m
          ok (success, other ∷ ts, if token_has_value other then v ∷ vs else vs, b)
      ])
  Good-round Token.eof v b m h k = tt
  Good-round Token.error v b m h k = tt
  Good-round t v b m h k = Good-cons t v m h k

  json_lex-Good :
      (room fuel : ℕ) (value : TokenValue) (b : ByteBuffer) → Good (json_lex env room fuel value b)
  unfolding json_lex
  json_lex-Good zero fuel value b =
      Good-bind (lex_token env fuel value b) _ (lex_token-Typed fuel value b) (λ t v b h. tt)
  json_lex-Good (suc room) fuel value b =
      Good-bind (lex_token env fuel value b) _ (lex_token-Typed fuel value b)
        (λ t v b h. Good-round t v b (json_lex env room fuel v b) h (json_lex-Good room fuel v b))

  Good-Aligned :
      (m : Outcome (Bool × List Token × List TokenValue × ByteBuffer)) (ts : List Token)
      (vs : List TokenValue) (b : ByteBuffer)
      → m ≡ ok (true, ts, vs, b)
      → Good m
      → Aligned ts vs
  Good-Aligned m ts vs b e h = rw e at h

-- Once the lexer has returned (that is, the arena took all the tokens, and no number was lexed in an
-- arena with a mark, where the token vectors are freed), the whole parse returns: NULL where the
-- lexer failed, and otherwise whatever the tokens are, without reading outside them.
pub json_parse-returns :
    (env : Lexing) (room fuel : ℕ) (value : TokenValue) (b b' : ByteBuffer) (success : Bool)
    (ts : List Token) (vs : List TokenValue)
    → json_lex env room fuel value b ≡ ok (success, ts, vs, b')
    → (root : Option Node) × (json_parse env room fuel value b ≡ ok (root, b'))
      × ((success ≡ true) ⊎ (root ≡ none))
unfolding json_parse
json_parse-returns env room fuel value b b' false ts vs e = (none, rw e refl, inr refl)
json_parse-returns env room fuel value b b' true ts vs e =
    let (root, info, f) =
      json_analyze-returns (3 * length ts) ts vs
        (Good-Aligned env _ ts vs b' e (json_lex-Good env room fuel value b)) (omega arith) in
    (root, rw (e, f) refl, inl refl)
