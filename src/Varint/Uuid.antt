-- ===== src/Varint/Uuid.antt =====
-- `parse_uuid`: which strings it takes, and the bytes that it makes of them.
use mcsrv.Common.{
  ℕ, zero, suc, ◌+◌, ◌*◌, ◌/◌, ◌%◌, ◌≤◌, ◌<◌, ◌≡◌, ◌≢◌, refl, inl, inr, List, [], ◌∷◌, length, map,
  arith, some, Option-cases,
}
use mcsrv.Varint.{parse_hex_digit, uuid_rounds, parse_uuid}

-- The half bytes of a list of bytes, the upper one first.
abbrev pub nibbles : List ℕ → List ℕ
nibbles [] = []
nibbles (b ∷ bs) = b / 16 ∷ b % 16 ∷ nibbles bs

abbrev pub AllBytes : List ℕ → Type 0
AllBytes [] = Unit
AllBytes (b ∷ bs) = (b < 256) × AllBytes bs

abbrev pub AllDigits : List ℕ → Type 0
AllDigits [] = Unit
AllDigits (c ∷ cs) = (parse_hex_digit c ≢ 16) × AllDigits cs

digit-le : (c : ℕ) → parse_hex_digit c ≤ 16
unfolding parse_hex_digit
digit-le c = ground arith

-- The lower half of the characters' pairs: what the loop makes of an even number of them.
uuid_rounds-nibbles :
    (k : ℕ) (cs bytes : List ℕ)
    → length cs ≡ k + k
    → uuid_rounds cs ≡ some bytes
    → (nibbles bytes ≡ map parse_hex_digit cs) × AllBytes bytes × (length bytes ≡ k)
unfolding uuid_rounds
uuid_rounds-nibbles k [] bytes e r = ground arith
uuid_rounds-nibbles zero (c ∷ cs) bytes e r = absurd (omega arith)
uuid_rounds-nibbles (suc k) (c ∷ []) bytes e r = absurd (omega arith)
uuid_rounds-nibbles (suc k) (c ∷ d ∷ cs) bytes e r = elim (Option-cases (uuid_rounds cs)) [
  | inl q ↦ ground (arith, q)
  | inr (rest, q) ↦
      ground (arith, q, uuid_rounds-nibbles k cs rest (omega arith) q, digit-le c, digit-le d)
]

uuid_rounds-some : (cs : List ℕ) → AllDigits cs → (bytes : List ℕ) × (uuid_rounds cs ≡ some bytes)
unfolding uuid_rounds
uuid_rounds-some [] h = ([], refl)
uuid_rounds-some (c ∷ []) h = ((parse_hex_digit c * 16) ∷ [], ground arith)
uuid_rounds-some (c ∷ d ∷ cs) (hc, (hd, hs)) =
    let (bytes, e) = uuid_rounds-some cs hs in
    ((parse_hex_digit c * 16 + parse_hex_digit d) ∷ bytes, ground (arith, e))

-- A string that is taken has 32 characters, and the result is the 16 bytes whose halves are the
-- characters' values in order.
parse_uuid-nibbles :
    (str bytes : List ℕ)
    → parse_uuid str ≡ some bytes
    → (length str ≡ 32)
      × (nibbles bytes ≡ map parse_hex_digit str)
      × AllBytes bytes
      × (length bytes ≡ 16)
unfolding parse_uuid
parse_uuid-nibbles str bytes e = ground (arith, uuid_rounds-nibbles 16 str bytes)

-- Every string of 32 hexadecimal digits is taken.
parse_uuid-some :
    (str : List ℕ)
    → length str ≡ 32
    → AllDigits str
    → (bytes : List ℕ) × (parse_uuid str ≡ some bytes)
unfolding parse_uuid
parse_uuid-some str e h = let (bytes, q) = uuid_rounds-some str h in (bytes, ground (arith, q))
