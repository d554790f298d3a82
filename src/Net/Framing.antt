-- ===== src/Net/Framing.antt =====
-- What the receiver makes of a packet's frame: length, id and payload.
use mcsrv.Common.{
  ℕ, ◌+◌, ◌-◌, ◌^◌, ◌≤◌, ◌<◌, ◌≡◌, ◌≢◌, refl, ◌∙◌, ap, take, true, false, List, ◌++◌, some, none,
  arith, length, length-append, append_assoc, take-append, drop-append,
}
use mcsrv.Common.Int.{pos, ◌+ℤ◌}
use mcsrv.Common.Outcome.{ok, abort, fault}
use mcsrv.ByteBuffer.{ByteBuffer, is_negative}
use mcsrv.ByteBuffer.Fixed.{IsFixed, contents}
use mcsrv.ByteBuffer.Read.{length-contents, bytebuf_read-IsFixed}
use mcsrv.Varint.{encode_varint, bytebuf_read_varint}
use mcsrv.Varint.Codec.{encode_varint-length, encode_varint-pos}
use mcsrv.Varint.Decode.{bytebuf_read_varint-encoded}
use mcsrv.Net.Table.{
  State, get_pkt_decoder, get_pkt_funcs, entry_index, entry, function_table, behind_table,
  get_pkt_decoder-fault,
}
use mcsrv.Net.Decode.{Payload, decode, decode_ping}
use mcsrv.Arena.{Arena, arena_allocate}
use mcsrv.Net.Receive.{
  Env, Packet, RecvContext, IoCode, decode_common_data, decode_rest, decode_id, decode_payload,
  decode_packet, pkt_buffer,
}

abbrev pub varint : ℕ → List ℕ
varint n = (encode_varint (pos n)).0

-- A packet's frame on the wire, uncompressed: its length, its id and its payload.
abbrev pub frame : ℕ → List ℕ → List ℕ
frame id body = varint (length (varint id) + length body) ++ (varint id ++ body)

-- No packet has been begun, and nothing is compressed or inflated.
pub record IsFresh (ctx : RecvContext) (pkt : Packet) : Type 0 where
  pub plain : ctx.compression_enabled ≡ false
  pub not_inflated : ctx.inflated ≡ none
  pub no_length : pkt.total_length ≡ 0

-- What the decoding of the frame's head leaves: the id, the payload's length, and the payload in
-- front of what follows the frame.
abbrev pub Unframed : Arena → ℕ → List ℕ → List ℕ → Packet → RecvContext → Type 0
Unframed arena id body rest pkt ctx =
    (pkt.id ≡ pos id)
    × (pkt.payload_length ≡ length body)
    × ((r : ℕ) × IsFixed ctx.recv_buffer r × (contents ctx.recv_buffer r ≡ body ++ rest))
    × (ctx.inflated ≡ none)
    × (ctx.arena ≡ arena)

module _ (env : Env) where
  decode_id_lem :
      (ctx : RecvContext) (pkt : Packet) (b : ByteBuffer) (k id : ℕ)
      → ctx.inflated ≡ none
      → bytebuf_read_varint ctx.recv_buffer ≡ ok (pos k, some id, b)
      → k ≤ pkt.payload_length
      → pkt.payload_length < 2 ^ 28
      → id < 2 ^ 28
      → decode_id env ctx pkt
        ≡ ok (
          IoCode.okay,
          record pkt { payload_length = pkt.payload_length - k; id = pos id },
          record ctx { recv_buffer = b },
        )
  unfolding decode_id is_negative
  decode_id_lem ctx pkt b k id none_inflated read fits small hid =
      rw (none_inflated, read) (ground (arith, none_inflated))

  decode_rest_lem :
      (ctx : RecvContext) (pkt : Packet)
      → ctx.compression_enabled ≡ false
      → pkt.total_length < 2 ^ 28
      → pkt.total_length ≤ ctx.recv_buffer.size
      → decode_rest env ctx pkt
        ≡ decode_id env ctx (record pkt { payload_length = pkt.total_length })
  unfolding decode_rest
  decode_rest_lem ctx pkt plain small room = ground arith

  pub decode_length :
      (ctx : RecvContext) (pkt : Packet) (b : ByteBuffer) (k total : ℕ)
      → pkt.total_length ≡ 0
      → bytebuf_read_varint ctx.recv_buffer ≡ ok (pos k, some total, b)
      → 0 < k
      → decode_common_data env ctx pkt
        ≡ decode_rest env (record ctx { recv_buffer = b }) (record pkt { total_length = total })
  unfolding decode_common_data is_negative
  decode_length ctx pkt b k total fresh read h = ground (arith, read)

module _ (env : Env) (ctx : RecvContext) (pkt : Packet) (fresh : IsFresh ctx pkt) where
  -- Without compression and with no packet begun, a frame of an id below 2^28 and a payload
  -- shorter than 2^27 bytes, whole in a fixed buffer before the end of its memory area, is
  -- decoded to that id and the payload's length, and the payload and what follows it are left
  -- to be read.
  pub decode_common_data-frame :
      (r id : ℕ) (body rest : List ℕ)
      → IsFixed ctx.recv_buffer r
      → id < 2 ^ 28
      → length body < 2 ^ 27
      → contents ctx.recv_buffer r ≡ frame id body ++ rest
      → r + length (frame id body) ≤ ctx.recv_buffer.capacity
      → (pkt' : Packet) × (ctx' : RecvContext) × (decode_common_data env ctx pkt
          ≡ ok (IoCode.okay, pkt', ctx'))
        × Unframed ctx.arena id body rest pkt' ctx'
  decode_common_data-frame r id body rest v hid hbody e fits =
      let total = length (varint id) + length body in
      let (c1, s1) = encode_varint-length total (omega (arith, encode_varint-length id hid)) in
      let (c2, s2) = encode_varint-length id hid in
      let (b1, r1, read1, v1, left1, le1, cap1) =
        bytebuf_read_varint-encoded ctx.recv_buffer r v total (varint id ++ (body ++ rest))
          (omega (arith, c2, s2))
          (e
            ∙ append_assoc (varint total) (varint id ++ body) rest
            ∙ ap (λ ys. varint total ++ ys) (append_assoc (varint id) body rest))
          (omega (arith, c1, length-append (varint total) (varint id ++ body))) in
      let (b2, r2, read2, v2, left2, le2, cap2) =
        bytebuf_read_varint-encoded b1 r1 v1 id (body ++ rest) hid left1 (
          omega (
            arith,
            c1,
            c2,
            le1,
            cap1,
            length-append (varint total) (varint id ++ body),
            length-append (varint id) body,
          )) in
      let held : total ≤ b1.size = omega (
        arith,
        length-contents b1 r1 v1,
        ap length left1,
        length-append (varint id) (body ++ rest),
        length-append body rest,
      ) in
      (
        record pkt {
          total_length = total;
          payload_length = total - (encode_varint (pos id)).1;
          id = pos id;
        },
        record ctx { recv_buffer = b2 },
        decode_length env ctx pkt b1 (encode_varint (pos total)).1 total fresh.no_length read1
              (omega (arith, c1, encode_varint-pos total))
            ∙ decode_rest_lem env (record ctx { recv_buffer = b1 })
                (record pkt { total_length = total }) fresh.plain (omega (arith, c2, s2)) held
            ∙ decode_id_lem env (record ctx { recv_buffer = b1 })
                (record pkt { total_length = total; payload_length = total }) b2
                (encode_varint (pos id)).1 id fresh.not_inflated read2 (omega (arith, c2))
                (omega (arith, c2, s2)) hid,
        (refl, omega (arith, c2), (r2, v2, left2), fresh.not_inflated, refl),
      )

-- A packet whose id leads behind the table makes the receiver read there, whatever follows the id.
decode_payload-outside :
    (env : Env) (state : State) (ctx : RecvContext) (pkt : Packet) (id : ℕ)
    → pkt.id ≡ pos id
    → behind_table state ≤ id
    → decode_payload env state ctx pkt ≡ fault
unfolding decode_payload
decode_payload-outside env state ctx pkt id e h = rw (e, get_pkt_decoder-fault state id h) refl

-- A status request that announces a payload aborts the server, since its decoder reads nothing.
decode_payload-status :
    (env : Env) (ctx : RecvContext) (pkt : Packet)
    → pkt.id ≡ pos 0
    → pkt.payload_length ≢ 0
    → (pkt_buffer ctx).size < 2 ^ 64
    → decode_payload env State.status ctx pkt ≡ abort
unfolding decode_payload get_pkt_decoder get_pkt_funcs entry_index entry ◌+ℤ◌ function_table decode
decode_payload-status env ctx pkt e h small = rw e (ground arith)

module _ (env : Env) (ctx : RecvContext) (pkt : Packet) (fresh : IsFresh ctx pkt) where
  -- Without compression and with no packet begun, a frame whose id leads behind the function table
  -- from the row of the state (from 30 in the handshake, 24 in status, 18 in login, 12 in
  -- configuration and 6 in play on, and from 36 on without a state) and is below 2^28, and whose
  -- payload is shorter than 2^27 bytes, whole in a fixed buffer before the end of its memory area,
  -- makes the receiver read behind the table.
  pub decode_packet-outside :
      (state : State) (r id : ℕ) (body rest : List ℕ)
      → IsFixed ctx.recv_buffer r
      → behind_table state ≤ id
      → id < 2 ^ 28
      → length body < 2 ^ 27
      → contents ctx.recv_buffer r ≡ frame id body ++ rest
      → r + length (frame id body) ≤ ctx.recv_buffer.capacity
      → decode_packet env state ctx pkt ≡ fault
  unfolding decode_packet
  decode_packet-outside state r id body rest v outside hid hbody e fits =
      let (pkt', ctx', d, u) =
        decode_common_data-frame env ctx pkt fresh r id body rest v hid hbody e fits in
      rw d (decode_payload-outside env state ctx' pkt' id u.0 outside)

  ping_payload :
      (ctx' : RecvContext) (pkt' : Packet) (body rest : List ℕ)
      → Unframed ctx.arena 1 body rest pkt' ctx'
      → length body ≡ 8
      → ctx'.arena.capacity < 2 ^ 62
      → ctx'.arena.len + 8 ≤ ctx'.arena.capacity
      → (pkt'' : Packet) × (ctx'' : RecvContext) × (decode_payload env State.status ctx' pkt'
          ≡ ok (IoCode.okay, pkt'', ctx''))
        × (pkt''.payload ≡ some (Payload.ping body))
        × ((r : ℕ) × IsFixed ctx''.recv_buffer r × (contents ctx''.recv_buffer r ≡ rest))
  unfolding decode_payload get_pkt_decoder get_pkt_funcs entry_index entry ◌+ℤ◌ function_table
      decode decode_ping arena_allocate
  ping_payload ctx' pkt' body rest (id, len, (r, v, left), flat, same) eight small room =
      let (b, r', read, v', left') = bytebuf_read-IsFixed ctx'.recv_buffer r 8 true v in
      let count : length body + length rest ≡ ctx'.recv_buffer.size =
        omega
          (arith, length-contents ctx'.recv_buffer r v, ap length left, length-append body rest) in
      let front : take 8 (contents ctx'.recv_buffer r) ≡ body =
        rw (left, ← eight) (take-append body rest) in
      let behind : contents b r' ≡ rest = left' ∙ rw (left, ← eight) (drop-append body rest) in
      let back : b.size ≡ length rest = omega (arith, length-contents b r' v', ap length behind) in
      let is_plain : ctx'.inflated ≡ none = flat in
      (
        record pkt' { payload = some (Payload.ping body) },
        record ctx' { recv_buffer = b; arena = record ctx'.arena { len = ctx'.arena.len + 8 } },
        rw id (ground (arith, read, front, back, is_plain)),
        refl,
        (r', v', behind),
      )

  -- Without compression and with no packet begun, the frame of a ping with eight bytes of
  -- payload, whole in a fixed buffer before the end of its memory area, is received on a
  -- status connection with eight bytes of room in its arena: the payload is the eight bytes
  -- sent, and what follows the frame is left to be read.
  pub decode_packet-ping :
      (r : ℕ) (body rest : List ℕ)
      → IsFixed ctx.recv_buffer r
      → length body ≡ 8
      → contents ctx.recv_buffer r ≡ frame 1 body ++ rest
      → r + length (frame 1 body) ≤ ctx.recv_buffer.capacity
      → ctx.arena.capacity < 2 ^ 62
      → ctx.arena.len + 8 ≤ ctx.arena.capacity
      → (pkt' : Packet) × (ctx' : RecvContext) × (decode_packet env State.status ctx pkt
          ≡ ok (IoCode.okay, pkt', ctx'))
        × (pkt'.payload ≡ some (Payload.ping body))
        × ((r' : ℕ) × IsFixed ctx'.recv_buffer r' × (contents ctx'.recv_buffer r' ≡ rest))
  unfolding decode_packet
  decode_packet-ping r body rest v eight e fits small room =
      let (pkt', ctx', d, u) =
        decode_common_data-frame env ctx pkt fresh r 1 body rest v (omega arith) (omega arith) e
          fits in
      let (pkt'', ctx'', q, p, left) =
        ping_payload ctx' pkt' body rest u eight (rw u.4 small) (rw u.4 room) in
      (pkt'', ctx'', rw d q, p, left)
