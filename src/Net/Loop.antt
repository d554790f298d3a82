-- ===== src/Net/Loop.antt =====
-- receive_packet of network/receiver.c: packets are decoded and handled until one is not complete.
use mcsrv.Common.{
  ℕ, zero, suc, ◌+◌, ◌^◌, ◌<◌, ◌≤◌, ◌≡◌, refl, ap, true, false, List, ◌++◌, Option, none, some,
  length, arith,
}
use mcsrv.Common.Int.{pos, negsuc}
use mcsrv.Common.Outcome.{Outcome, ok, stuck, ◌>>=◌}
use mcsrv.Arena.{Arena, arena_allocate, arena_save, arena_restore}
use mcsrv.ByteBuffer.{ByteBuffer, Heap}
use mcsrv.ByteBuffer.Fixed.{IsFixed, contents}
use mcsrv.ByteBuffer.Read.{length-contents}
use mcsrv.Varint.{encode_varint}
use mcsrv.Varint.Codec.{encode_varint-length, encode_varint-pos}
use mcsrv.Varint.Decode.{bytebuf_read_varint-encoded}
use mcsrv.Net.Receive.{Env, Packet, RecvContext, IoCode, decode_rest, decode_packet}
use mcsrv.Net.Send.{SendEnv}
use mcsrv.Net.Handlers.{Connection, HandleEnv, with_scratch, handle_packet}
use mcsrv.Net.Framing.{varint, decode_length}

-- A connection with what receiving keeps in it; `none` is a NULL `packet_cache`.
pub record Receiver : Type 0 where
  pub conn : Connection
  pub recv_buffer : ByteBuffer
  pub packet_cache : Option Packet

-- A packet fresh from `arena_callocate`, with the id PKT_INVALID.
abbrev pub new_packet : Packet
new_packet = record { id = negsuc 0; total_length = 0; payload_length = 0; payload = none }

-- The packet of an interrupted read, or a new one in the saved arena.
unfoldable pub begin_packet : Receiver → Outcome (Packet × Arena)
begin_packet r = elim r.packet_cache [
  | some pkt ↦ ok (pkt, r.conn.sender.scratch_arena)
  | none ↦ do
    (at, a) ← arena_allocate (arena_save r.conn.sender.scratch_arena) 24
    ok (new_packet, a)
]

module _ (env : Env) (heap : Heap) (send_env : SendEnv) (handle_env : HandleEnv) where
  unfoldable pub decode_step : Receiver → Packet → Arena → Outcome (IoCode × Packet × Receiver)
  decode_step r pkt a = do
    (code, pkt', ctx) ←
        decode_packet env r.conn.sender.state
          (record {
            recv_buffer = r.recv_buffer;
            inflated = none;
            arena = a;
            compression_enabled = r.conn.sender.compression;
          })
          pkt
    ok (
      code,
      pkt',
      record {
        conn = with_scratch r.conn ctx.arena;
        recv_buffer = ctx.recv_buffer;
        packet_cache = some pkt';
      },
    )

  unfoldable pub receive_packet : ℕ → Receiver → Outcome (IoCode × Receiver)
  receive_packet zero r = stuck
  receive_packet (suc fuel) r = do
    (pkt, a) ← begin_packet r
    (code, pkt', r') ← decode_step r pkt a
    elim code [
      | IoCode.okay ↦ do
        (handled, c) ← handle_packet heap send_env handle_env pkt' r'.conn
        elim handled [
          | true ↦ receive_packet fuel (record r' {
            conn = with_scratch c (arena_restore c.sender.scratch_arena);
            packet_cache = none;
          })
          | false ↦ ok (IoCode.error, record r' { conn = c })
        ]
      | other ↦ ok (other, r')
    ]

module _ (env : Env) where
  rest_missing :
      (ctx : RecvContext) (pkt : Packet)
      → pkt.total_length < 2 ^ 28
      → ctx.recv_buffer.size < pkt.total_length
      → decode_rest env ctx pkt ≡ ok (IoCode.again, pkt, ctx)
  unfolding decode_rest
  rest_missing ctx pkt small missing = ground arith

  module _ (heap : Heap) (send_env : SendEnv) (handle_env : HandleEnv) where
    -- With no packet cached, no compression, and room for the packet in the scratch arena: when the
    -- length of a packet, which is below 2^28, has arrived in a valid fixed buffer, with its VarInt
    -- before the end of the memory area, but not all of the bytes that it announces, the receiver
    -- asks to be called again: it keeps the length in the cached packet, and the bytes that are there.
    pub receive_packet-incomplete :
        (fuel : ℕ) (r : Receiver) (h n at : ℕ) (a : Arena) (part : List ℕ)
        → r.packet_cache ≡ none
        → arena_allocate (arena_save r.conn.sender.scratch_arena) 24 ≡ ok (at, a)
        → IsFixed r.recv_buffer h
        → n < 2 ^ 28
        → contents r.recv_buffer h ≡ varint n ++ part
        → h + length (varint n) ≤ r.recv_buffer.capacity
        → length part < n
        → (b : ByteBuffer) × (h' : ℕ) × (receive_packet env heap send_env handle_env (suc fuel) r
            ≡ ok (
              IoCode.again,
              record {
                conn = with_scratch r.conn a;
                recv_buffer = b;
                packet_cache = some (record new_packet { total_length = n });
              },
            ))
          × IsFixed b h'
          × (contents b h' ≡ part)
    unfolding receive_packet begin_packet decode_step decode_packet
    receive_packet-incomplete fuel r h n at a part fresh allocated v small e fits missing =
        let (c, s) = encode_varint-length n small in
        let (b, h', read, v', left, le, cap) =
          bytebuf_read_varint-encoded r.recv_buffer h v n part small e (omega (arith, c, fits)) in
        let ctx : RecvContext = record {
          recv_buffer = r.recv_buffer;
          inflated = none;
          arena = a;
          compression_enabled = r.conn.sender.compression;
        } in
        (
          b,
          h',
          rw
              (
                fresh,
                allocated,
                decode_length env ctx new_packet b (encode_varint (pos n)).1 n refl read
                    (omega (arith, c, encode_varint-pos n)),
                rest_missing (record ctx { recv_buffer = b })
                    (record new_packet { total_length = n }) small
                    (omega (arith, length-contents b h' v', ap length left)),
              )
              refl,
          v',
          left,
        )
