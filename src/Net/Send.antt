-- ===== src/Net/Send.antt =====
-- network/sender.c: a packet is encoded, framed and put into the connection's queue.
-- The mutex is left out.
use mcsrv.Common.{
  ℕ, zero, suc, ◌+◌, ◌≡◌, Bool, true, false, ◌&&◌, List, Option, none, some, ltb, leb, length,
  if◌then◌else◌,
}
use mcsrv.Common.Int.{ℤ, pos}
use mcsrv.Common.Outcome.{Outcome, ok, stuck, ◌>>=◌}
use mcsrv.Arena.{Arena, arena_allocate, arena_save, arena_restore}
use mcsrv.ByteBuffer.{ByteBuffer, Heap, bytebuf_create_fixed, bytebuf_write_buffer}
use mcsrv.Varint.{bytebuf_write_varint, bytebuf_prepend_varint}
use mcsrv.Net.Table.{State, get_pkt_encoder}
use mcsrv.Net.Receive.{IoCode}
use mcsrv.Net.Encode.{Response, encode, int_of}

-- The fields of `struct Connection` that sending reads and changes.
pub record Sender : Type 0 where
  pub state : State
  pub send_buffer : ByteBuffer
  pub scratch_arena : Arena
  pub compression : Bool
  pub threshold : ℕ
  pub encryption : Bool
  pub pending_send : Bool

pub record OutPacket : Type 0 where
  pub id : ℤ
  pub payload : Response

-- What stands outside this code: the memory behind an address of an arena; `compression_compress`
-- into a buffer; `encryption_cipher` in place, none for a failure; and the platform's
-- `empty_buffer`.
pub record SendEnv : Type 0 where
  pub memory : ℕ → ℕ → List ℕ
  pub memory_length : (at n : ℕ) → length (memory at n) ≡ n
  pub compress : ByteBuffer → ByteBuffer → Outcome ByteBuffer
  pub cipher : ByteBuffer → Option ByteBuffer
  pub empty_buffer : Sender → IoCode × Sender

abbrev pub max_packet_size : ℕ
max_packet_size = 2097151

abbrev pub is_okay : IoCode → Bool
is_okay IoCode.okay = true
is_okay other = false

abbrev pub is_waiting : IoCode → Bool
is_waiting IoCode.pending = true
is_waiting IoCode.again = true
is_waiting other = false

module _ (heap : Heap) (env : SendEnv) where
  -- The length of the uncompressed packet in front: 0 below the threshold.
  unfoldable pub compress_packet : Sender → ByteBuffer → Arena → Outcome (ByteBuffer × Arena)
  compress_packet conn scratch arena =
      if conn.compression
      then (if leb conn.threshold scratch.size
          then (do
            (at, a) ← arena_allocate arena scratch.size
            target ←
                env.compress (bytebuf_create_fixed (env.memory at scratch.size) scratch.size)
                  scratch
            target ← bytebuf_prepend_varint heap target (int_of scratch.size)
            ok (target, a))
          else (do b ← bytebuf_prepend_varint heap scratch (pos 0); ok (b, arena)))
      else ok (scratch, arena)

  -- `do ... while`: a round that leaves bytes and ends in IOC_OK has sent some.
  unfoldable pub empty_rounds : ℕ → Sender → Outcome (IoCode × Sender)
  empty_rounds zero conn = stuck
  empty_rounds (suc fuel) conn =
      let (code, conn') = env.empty_buffer conn in
      let rest = empty_rounds fuel conn' in
      if is_okay code && ltb 0 conn'.send_buffer.size then rest else ok (code, conn')

  unfoldable pub flush : Sender → Outcome Sender
  flush conn = if conn.pending_send then ok conn else do
    (code, conn') ← empty_rounds (conn.send_buffer.size + 1) conn
    ok (if is_waiting code then record conn' { pending_send = true } else conn')

  -- From the encryption on. A failed one returns at once, without the restore of the arena.
  unfoldable pub queue_packet : Sender → Arena → ByteBuffer → Outcome Sender
  queue_packet conn a scratch =
      elim (if conn.encryption then env.cipher scratch else some scratch) [
        | none ↦ ok (record conn { scratch_arena = a })
        | some bytes ↦ do
          queue ← bytebuf_write_buffer heap conn.send_buffer bytes
          conn' ← flush (record conn { send_buffer = queue; scratch_arena = a })
          ok (record conn' { scratch_arena = arena_restore conn'.scratch_arena })
      ]

  unfoldable pub send_packet : OutPacket → Sender → Outcome Sender
  send_packet pkt conn = do
    encoder ← get_pkt_encoder conn.state pkt.id
    elim encoder [
      | none ↦ ok conn
      | some e ↦ do
        (at, a) ← arena_allocate (arena_save conn.scratch_arena) max_packet_size
        scratch ←
            bytebuf_write_varint heap
              (bytebuf_create_fixed (env.memory at max_packet_size) max_packet_size) pkt.id
        scratch ← encode heap e pkt.payload scratch
        (scratch, a) ← compress_packet conn scratch a
        scratch ← bytebuf_prepend_varint heap scratch (int_of scratch.size)
        queue_packet conn a scratch
    ]
