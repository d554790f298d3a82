-- ===== src/Net/Receive.antt =====
-- network/receiver.c: the length, compression header and id of a packet, and its decoding.
use mcsrv.Common.{
  ℕ, ◌+◌, ◌-◌, ◌%◌, ◌^◌, Bool, not, ◌||◌, List, Option, some, none, ltb, ◌==◌, if◌then◌else◌,
}
use mcsrv.Common.Int.{ℤ, to_u64, sub64}
use mcsrv.Common.Outcome.{Outcome, ok, abort, ◌>>=◌}
use mcsrv.ByteBuffer.{ByteBuffer, bytebuf_create_fixed, is_negative}
use mcsrv.Varint.{bytebuf_read_varint}
use mcsrv.Arena.{Arena, arena_allocate}
use mcsrv.Net.Table.{State, get_pkt_decoder}
use mcsrv.Net.Decode.{Payload, signed32, is_positive, value_or, decode}

-- `enum IOCode`
pub data IoCode : Type 0 where
  error closed okay again pending : IoCode

-- `struct Packet`; the lengths are u32.
pub record Packet : Type 0 where
  pub id : ℤ
  pub total_length : ℕ
  pub payload_length : ℕ
  pub payload : Option Payload

-- What stands outside this code: `compression_decompress` into a buffer, with the count that it
-- returns; the memory behind an address; and what an uninitialised variable holds.
pub record Env : Type 0 where
  pub decompress : ByteBuffer → ByteBuffer → Outcome (ℤ × ByteBuffer × ByteBuffer)
  pub memory : ℕ → List ℕ
  pub uninit : ℕ

-- What the receiver keeps between the steps: `pkt_buffer` may be the connection's buffer or the
-- decompressed bytes, and the connection's buffer is kept beside it.
pub record RecvContext : Type 0 where
  pub recv_buffer : ByteBuffer
  pub inflated : Option ByteBuffer
  pub arena : Arena
  pub compression_enabled : Bool

unfoldable pub pkt_buffer : RecvContext → ByteBuffer
pkt_buffer ctx = elim ctx.inflated [ none ↦ ctx.recv_buffer | some b ↦ b ]

unfoldable pub set_buffer : RecvContext → ByteBuffer → RecvContext
set_buffer ctx b = elim ctx.inflated [
  | none ↦ record ctx { recv_buffer = b }
  | some old ↦ record ctx { inflated = some b }
]

abbrev pub Step : Type 0
Step = Outcome (IoCode × Packet × RecvContext)

-- u32 subtraction of a count
abbrev pub sub32 : ℕ → ℤ → ℕ
sub32 a n = (a + 2 ^ 64 - to_u64 n) % 2 ^ 32

module _ (env : Env) where
  -- The packet id.
  unfoldable pub decode_id : RecvContext → Packet → Step
  unfolding pkt_buffer set_buffer
  decode_id ctx pkt = do
    (id_size, id, b) ← bytebuf_read_varint (pkt_buffer ctx)
    if is_negative id_size
        then ok (IoCode.error, pkt, set_buffer ctx b)
        else ok (
          IoCode.okay,
          record pkt {
            payload_length = sub32 pkt.payload_length id_size;
            id = signed32 (value_or env.uninit id);
          },
          set_buffer ctx b,
        )

  -- The decompression into a new buffer of the announced length.
  unfoldable pub inflate : RecvContext → Packet → ℕ → Step
  inflate ctx pkt length = do
    (at, a) ← arena_allocate ctx.arena 40
    (at, a) ← arena_allocate a length
    let target = bytebuf_create_fixed (env.memory length) length
    (result, out, b) ← env.decompress target ctx.recv_buffer
    let ctx' = record ctx { arena = a; recv_buffer = b; inflated = some out }
    if is_negative result || not (to_u64 result == length)
        then ok (IoCode.error, pkt, record ctx' { inflated = none })
        else ok (IoCode.okay, pkt, ctx')

  -- The uncompressed length before the id; 0 announces a packet that is not compressed.
  unfoldable pub decode_compressed : RecvContext → Packet → Step
  decode_compressed ctx pkt = do
    (byte_count, uncompressed, b) ← bytebuf_read_varint ctx.recv_buffer
    let ctx' = record ctx { recv_buffer = b }
    if is_negative byte_count then ok (IoCode.error, pkt, ctx') else do
      (code, pkt', ctx') ←
          (if is_positive (signed32 (value_or env.uninit uncompressed))
            then inflate ctx' pkt (value_or env.uninit uncompressed)
            else ok (IoCode.okay, pkt, ctx'))
      elim code [
        | IoCode.okay ↦
            decode_id ctx' (record pkt' { payload_length = sub32 pkt'.payload_length byte_count })
        | other ↦ ok (other, pkt', ctx')
      ]

  -- From the length on, which was read now or, for a packet whose bytes had not all arrived, before.
  unfoldable pub decode_rest : RecvContext → Packet → Step
  decode_rest ctx pkt =
      if ltb ctx.recv_buffer.size (to_u64 (signed32 pkt.total_length))
      then ok (IoCode.again, pkt, ctx)
      else let pkt' = record pkt { payload_length = pkt.total_length } in
        if ctx.compression_enabled then decode_compressed ctx pkt' else decode_id ctx pkt'

  unfoldable pub decode_common_data : RecvContext → Packet → Step
  decode_common_data ctx pkt =
      if pkt.total_length == 0
      then (do
        (count, length, b) ← bytebuf_read_varint ctx.recv_buffer
        let ctx' = record ctx { recv_buffer = b }
        if to_u64 count == 0
            then ok (IoCode.again, pkt, ctx')
            else if is_negative count
            then ok (IoCode.error, pkt, ctx')
            else decode_rest ctx' (record pkt { total_length = value_or env.uninit length }))
      else decode_rest ctx pkt

  -- `total_read != payload_length` ends the server.
  unfoldable pub decode_payload : State → RecvContext → Packet → Step
  unfolding pkt_buffer set_buffer
  decode_payload state ctx pkt = do
    found ← get_pkt_decoder state pkt.id
    elim found [
      | none ↦ ok (IoCode.error, pkt, ctx)
      | some decoder ↦ do
        (payload, a, b) ← decode env.uninit decoder (pkt_buffer ctx) ctx.arena
        if sub64 (pkt_buffer ctx).size b.size == pkt.payload_length
            then ok (
              IoCode.okay,
              record pkt { payload = payload },
              set_buffer (record ctx { arena = a }) b,
            )
            else abort
    ]

  unfoldable pub decode_packet : State → RecvContext → Packet → Step
  decode_packet state ctx pkt = do
    (code, pkt', ctx') ← decode_common_data ctx pkt
    elim code [ IoCode.okay ↦ decode_payload state ctx' pkt' | other ↦ ok (other, pkt', ctx') ]
