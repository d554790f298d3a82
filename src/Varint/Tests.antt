-- ===== src/Varint/Tests.antt =====
-- Concrete VarInts and UUIDs.
use mcsrv.Common.{inl, ℕ, ◌≤◌, ◌≡◌, refl, some, List, [], ◌∷◌, rotate, arith}
use mcsrv.Common.Int.{pos, negsuc}
use mcsrv.Common.Outcome.{ok, fault}
use mcsrv.ByteBuffer.{ByteBuffer}
use mcsrv.ByteBuffer.Fixed.{IsFixed, contents}
use mcsrv.ByteBuffer.Tests.{test_heap}
use mcsrv.Varint.{
  encode_varint, bytebuf_read_varint, bytebuf_write_varint, bytebuf_prepend_varint, parse_hex_digit,
}
use mcsrv.Varint.Codec.{write_varint-wide}
use mcsrv.Varint.Decode.{bytebuf_read_varint-encoded}
use mcsrv.Varint.Buffer.{read_varint-write_varint}
use mcsrv.Varint.Uuid.{AllDigits}

-- The encoding of 300 and one byte more, from index 2 of an area of ten.
abbrev holding : ByteBuffer
holding = record {
  buf = 0 ∷ 0 ∷ 172 ∷ 2 ∷ 9 ∷ 0 ∷ 0 ∷ 0 ∷ 0 ∷ 0 ∷ [];
  read_head = pos 2;
  write_head = pos 5;
  size = 3;
  capacity = 10;
}

holding-IsFixed : IsFixed holding 2
holding-IsFixed = record {
  read_at = refl;
  write_at = refl;
  area = refl;
  small = omega arith;
  read_in = omega arith;
  size_in = omega arith;
}

-- No bytes, with the heads at index 2.
abbrev vacant : ByteBuffer
vacant = record {
  buf = 0 ∷ 0 ∷ 0 ∷ 0 ∷ 0 ∷ 0 ∷ 0 ∷ 0 ∷ [];
  read_head = pos 2;
  write_head = pos 2;
  size = 0;
  capacity = 8;
}

vacant-IsFixed : IsFixed vacant 2
vacant-IsFixed = record {
  read_at = refl;
  write_at = refl;
  area = refl;
  small = omega arith;
  read_in = omega arith;
  size_in = omega arith;
}

-- The last byte of four and the first one make the encoding of 300.
abbrev straddling : ByteBuffer
straddling = record {
  buf = 2 ∷ 0 ∷ 0 ∷ 172 ∷ [];
  read_head = pos 3;
  write_head = pos 1;
  size = 2;
  capacity = 4;
}

straddling-IsFixed : IsFixed straddling 3
straddling-IsFixed = record {
  read_at = refl;
  write_at = refl;
  area = refl;
  small = omega arith;
  read_in = omega arith;
  size_in = omega arith;
}

bytebuf_read_varint-encoded_example :
    (b' : ByteBuffer) × (r' : ℕ) × (bytebuf_read_varint holding ≡ ok (pos 2, some 300, b'))
    × IsFixed b' r'
    × (contents b' r' ≡ 9 ∷ [])
    × (r' ≤ 4)
    × (b'.capacity ≡ 10)
unfolding encode_varint rotate
bytebuf_read_varint-encoded_example =
    bytebuf_read_varint-encoded holding 2 holding-IsFixed 300 (9 ∷ []) (omega arith) refl
      (omega arith)

read_varint-write_varint_example :
    (b' b'' : ByteBuffer) × (bytebuf_write_varint test_heap vacant (pos 20000) ≡ ok b')
    × (bytebuf_read_varint b' ≡ ok (pos 3, some 20000, b''))
    × ((r' : ℕ) × IsFixed b'' r' × (contents b'' r' ≡ []))
unfolding encode_varint
read_varint-write_varint_example =
    read_varint-write_varint test_heap vacant 2 vacant-IsFixed 20000 (omega arith) refl
      (omega arith)

-- Two bytes from index 0 of an area of eight.
abbrev front : ByteBuffer
front = record {
  buf = 7 ∷ 8 ∷ 0 ∷ 0 ∷ 0 ∷ 0 ∷ 0 ∷ 0 ∷ [];
  read_head = pos 0;
  write_head = pos 2;
  size = 2;
  capacity = 8;
}

front-IsFixed : IsFixed front 0
front-IsFixed = record {
  read_at = refl;
  write_at = refl;
  area = refl;
  small = omega arith;
  read_in = omega arith;
  size_in = omega arith;
}

write_varint-wide_example :
    (bytebuf_write_varint test_heap front (negsuc 0) ≡ fault)
    × (bytebuf_prepend_varint test_heap front (negsuc 0) ≡ fault)
write_varint-wide_example =
    write_varint-wide test_heap front 0 (negsuc 0) front-IsFixed tt (omega arith) (omega arith)
      (inl refl)

abbrev uuid_text : List ℕ
uuid_text =
    b'0' ∷ b'1' ∷ b'2' ∷ b'3' ∷ b'4' ∷ b'5' ∷ b'6' ∷ b'7' ∷ b'8' ∷ b'9' ∷ b'a' ∷ b'b' ∷ b'c' ∷ b'd'
    ∷ b'e' ∷ b'f' ∷ b'F' ∷ b'E' ∷ b'D' ∷ b'C' ∷ b'B' ∷ b'A' ∷ b'9' ∷ b'8' ∷ b'7' ∷ b'6' ∷ b'5'
    ∷ b'4' ∷ b'3' ∷ b'2' ∷ b'1' ∷ b'0' ∷ []

abbrev uuid_bytes : List ℕ
uuid_bytes =
    1 ∷ 35 ∷ 69 ∷ 103 ∷ 137 ∷ 171 ∷ 205 ∷ 239 ∷ 254 ∷ 220 ∷ 186 ∷ 152 ∷ 118 ∷ 84 ∷ 50 ∷ 16 ∷ []

uuid_text-AllDigits : AllDigits uuid_text
unfolding parse_hex_digit
uuid_text-AllDigits = ground arith
