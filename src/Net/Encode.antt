-- ===== src/Net/Encode.antt =====
-- network/encoders.c, with bytebuf_write_i64 and the payloads of network/packet.h that the server
-- sends.
-- A string or an array is the list of its bytes; a `bool` is written as the byte 0 or 1. An encoder
-- that is given the payload of another packet reads through a pointer of another type, a fault.
use mcsrv.Common.{ℕ, ◌%◌, ◌^◌, Bool, List, [], ◌∷◌, ◌++◌, length, load, if◌then◌else◌}
use mcsrv.Common.Int.{ℤ, to_u64}
use mcsrv.Common.Outcome.{Outcome, ok, fault, ◌>>=◌}
use mcsrv.ByteBuffer.{ByteBuffer, Heap, bytebuf_write}
use mcsrv.Varint.{bytebuf_write_varint}
use mcsrv.Net.Table.{Encoder}
use mcsrv.Net.Decode.{signed32}

-- `PacketEncReq`
pub record PacketEncReq : Type 0 where
  pub server_id : List ℕ
  pub pkey_length : ℤ
  pub pkey : List ℕ
  pub verify_tok_length : ℤ
  pub verify_tok : List ℕ
  pub authenticate : Bool

-- `PlayerProperty`
pub record PlayerProperty : Type 0 where
  pub name : List ℕ
  pub value : List ℕ
  pub is_signed : Bool
  pub signature : List ℕ

-- `PacketLoginSuccess`; the uuid is its 16 bytes.
pub record PacketLoginSuccess : Type 0 where
  pub uuid : List ℕ
  pub username : List ℕ
  pub properties : List PlayerProperty
  pub strict_errors : Bool

-- The payloads that are sent; the pong is the eight bytes of `num` in memory, the threshold the
-- `int` that it is passed as.
pub data Response : Type 0 where
  status : List ℕ → Response
  pong : List ℕ → Response
  enc_req : PacketEncReq → Response
  set_compress : ℤ → Response
  login_success : PacketLoginSuccess → Response

-- `swap_bytes` over the whole of an integer: what `hton64` does wherever the compiler defines
-- `__ORDER_LITTLE_ENDIAN__`.
unfoldable pub swap_bytes : List ℕ → List ℕ
swap_bytes [] = []
swap_bytes (x ∷ xs) = swap_bytes xs ++ (x ∷ [])

abbrev pub bool_byte : Bool → List ℕ
bool_byte b = (if b then 1 else 0) ∷ []

-- A length passed as an `int`.
abbrev pub int_of : ℕ → ℤ
int_of n = signed32 (n % 2 ^ 32)

module _ (heap : Heap) where
  unfoldable pub bytebuf_write_i64 : ByteBuffer → List ℕ → Outcome ByteBuffer
  bytebuf_write_i64 buffer num = bytebuf_write heap buffer (swap_bytes num)

  unfoldable pub encode_string : List ℕ → ByteBuffer → Outcome ByteBuffer
  encode_string str buffer = do
    b ← bytebuf_write_varint heap buffer (int_of (length str))
    bytebuf_write heap b str

  unfoldable pub encode_enc_req : PacketEncReq → ByteBuffer → Outcome ByteBuffer
  encode_enc_req payload buffer = do
    b ← encode_string payload.server_id buffer
    b ← bytebuf_write_varint heap b payload.pkey_length
    key ← load payload.pkey 0 (to_u64 payload.pkey_length)
    b ← bytebuf_write heap b key
    b ← bytebuf_write_varint heap b payload.verify_tok_length
    token ← load payload.verify_tok 0 (to_u64 payload.verify_tok_length)
    b ← bytebuf_write heap b token
    bytebuf_write heap b (bool_byte payload.authenticate)

  unfoldable pub encode_properties : List PlayerProperty → ByteBuffer → Outcome ByteBuffer
  encode_properties [] buffer = ok buffer
  encode_properties (prop ∷ props) buffer = do
    b ← encode_string prop.name buffer
    b ← encode_string prop.value b
    b ← bytebuf_write heap b (bool_byte prop.is_signed)
    b ← (if prop.is_signed then encode_string prop.signature b else ok b)
    encode_properties props b

  unfoldable pub encode_log_success : PacketLoginSuccess → ByteBuffer → Outcome ByteBuffer
  encode_log_success payload buffer = do
    b ← bytebuf_write heap buffer payload.uuid
    b ← encode_string payload.username b
    b ← bytebuf_write_varint heap b (int_of (length payload.properties))
    b ← encode_properties payload.properties b
    bytebuf_write heap b (bool_byte payload.strict_errors)

  -- The call through the function pointer.
  unfoldable pub encode : Encoder → Response → ByteBuffer → Outcome ByteBuffer
  encode Encoder.dummy payload buffer = ok buffer
  encode Encoder.status (Response.status data_bytes) buffer = encode_string data_bytes buffer
  encode Encoder.ping (Response.pong num) buffer = bytebuf_write_i64 buffer num
  encode Encoder.enc_req (Response.enc_req payload) buffer = encode_enc_req payload buffer
  encode Encoder.compress (Response.set_compress threshold) buffer =
      bytebuf_write_varint heap buffer threshold
  encode Encoder.log_success (Response.login_success payload) buffer =
      encode_log_success payload buffer
  encode e payload buffer = fault
