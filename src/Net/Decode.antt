-- ===== src/Net/Decode.antt =====
-- network/decoders.c: the payloads of the packets that the server takes, and their decoders.
-- Allocations give addresses only; what is copied to them is kept in the payload itself. What an
-- uninitialised variable or byte holds is the parameter `uninit`.
use mcsrv.Common.{
  ℕ, ◌+◌, ◌-◌, ◌*◌, ◌^◌, Bool, true, false, List, [], Option, some, none, ltb, ◌==◌, if◌then◌else◌,
  load, get_or,
}
use mcsrv.Common.Int.{ℤ, pos, negsuc, to_u64, add64}
use mcsrv.Common.Outcome.{Outcome, ok, ◌>>=◌}
use mcsrv.ByteBuffer.{ByteBuffer, bytebuf_read, bytebuf_register_read}
use mcsrv.Varint.{bytebuf_read_varint}
use mcsrv.Arena.{Arena, arena_allocate}
use mcsrv.Net.Table.{Decoder}

-- The i32 that a u32 bit pattern stands for.
abbrev pub signed32 : ℕ → ℤ
signed32 w = if ltb w (2 ^ 31) then pos w else negsuc (2 ^ 32 - 1 - w)

abbrev pub is_positive : ℤ → Bool
is_positive (pos n) = ltb 0 n
is_positive (negsuc n) = false

-- `PacketHandshake`, `PacketPing`, `PacketLoginStart`, `PacketEncRes`; a string or an array is the
-- list of its bytes.
pub record PacketHandshake : Type 0 where
  pub protocol_version : ℕ
  pub srv_addr : List ℕ
  pub srv_port : ℕ
  pub next_state : ℕ

pub record PacketEncRes : Type 0 where
  pub shared_secret_length : ℕ
  pub shared_secret : List ℕ
  pub verify_token_length : ℕ
  pub verify_token : List ℕ

pub data Payload : Type 0 where
  handshake : PacketHandshake → Payload
  ping : List ℕ → Payload
  login_start : List ℕ → List ℕ → Payload
  enc_res : PacketEncRes → Payload

-- What a decoder leaves: the payload (none is NULL), the arena and the buffer.
abbrev pub Decoded : Type 0
Decoded = Option Payload × Arena × ByteBuffer

module _ (uninit : ℕ) where
  abbrev pub value_or : Option ℕ → ℕ
  value_or none = uninit
  value_or (some n) = n

  -- `str_create_from_buffer(offset(buffer->buf, buffer->read_head), length, arena)`: the string's
  -- bytes are copied from the memory area, however many the buffer holds.
  unfoldable pub bytebuf_read_mcstring :
      ByteBuffer → Arena → Outcome (ℤ × List ℕ × Arena × ByteBuffer)
  bytebuf_read_mcstring buffer arena = do
    (count, out, b) ← bytebuf_read_varint buffer
    let length = to_u64 (signed32 (value_or out))
    if is_positive count
        then (do
          (at, a) ← arena_allocate arena (add64 length 1)
          xs ← load b.buf (to_u64 b.read_head) length
          (b, n) ← bytebuf_register_read b length
          ok (pos (add64 (to_u64 count) n), xs, a, b))
        else ok (count, [], arena, b)

  -- `htons` of the u16 that two bytes in memory make on a little-endian machine.
  unfoldable pub port_of : List ℕ → ℕ
  port_of xs = get_or xs 0 uninit * 256 + get_or xs 1 uninit

  -- The last test accepts the -1 of an invalid VarInt.
  unfoldable pub decode_handshake : ByteBuffer → Arena → Outcome Decoded
  unfolding port_of
  decode_handshake bytes arena = do
    (at, a) ← arena_allocate arena 32
    (n, version, b) ← bytebuf_read_varint bytes
    if is_positive n
        then (do
          (n, addr, a, b) ← bytebuf_read_mcstring b a
          if is_positive n
              then (do
                (port, n, b) ← bytebuf_read b 2 true
                if ltb 0 n
                    then (do
                      (n, next, b) ← bytebuf_read_varint b
                      if to_u64 n == 0
                          then ok (none, a, b)
                          else ok (
                            some (
                                Payload.handshake record {
                                  protocol_version = value_or version;
                                  srv_addr = addr;
                                  srv_port = port_of port;
                                  next_state = value_or next;
                                }),
                            a,
                            b,
                          ))
                    else ok (none, a, b))
              else ok (none, a, b))
        else ok (none, a, b)

  unfoldable pub decode_ping : ByteBuffer → Arena → Outcome Decoded
  decode_ping bytes arena = do
    (at, a) ← arena_allocate arena 8
    (num, n, b) ← bytebuf_read bytes 8 true
    ok (some (Payload.ping num), a, b)

  unfoldable pub decode_log_start : ByteBuffer → Arena → Outcome Decoded
  decode_log_start bytes arena = do
    (at, a) ← arena_allocate arena 32
    (n, name, a, b) ← bytebuf_read_mcstring bytes a
    (uuid, n, b) ← bytebuf_read b 16 true
    ok (some (Payload.login_start name uuid), a, b)

  unfoldable pub decode_enc_res : ByteBuffer → Arena → Outcome Decoded
  decode_enc_res bytes arena = do
    (at, a) ← arena_allocate arena 32
    (n, secret_length, b) ← bytebuf_read_varint bytes
    (at, a) ← arena_allocate a (to_u64 (signed32 (value_or secret_length)))
    (secret, n, b) ← bytebuf_read b (to_u64 (signed32 (value_or secret_length))) true
    (n, token_length, b) ← bytebuf_read_varint b
    (at, a) ← arena_allocate a (to_u64 (signed32 (value_or token_length)))
    (token, n, b) ← bytebuf_read b (to_u64 (signed32 (value_or token_length))) true
    ok (
      some (
          Payload.enc_res record {
            shared_secret_length = value_or secret_length;
            shared_secret = secret;
            verify_token_length = value_or token_length;
            verify_token = token;
          }),
      a,
      b,
    )

  -- The call through the function pointer; the dummy decoder leaves the payload as it was, NULL.
  unfoldable pub decode : Decoder → ByteBuffer → Arena → Outcome Decoded
  decode Decoder.dummy bytes arena = ok (none, arena, bytes)
  decode Decoder.handshake bytes arena = decode_handshake bytes arena
  decode Decoder.ping bytes arena = decode_ping bytes arena
  decode Decoder.log_start bytes arena = decode_log_start bytes arena
  decode Decoder.enc_res bytes arena = decode_enc_res bytes arena
