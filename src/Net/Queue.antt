-- ===== src/Net/Queue.antt =====
-- What a sent packet adds to the connection's queue.
use mcsrv.Common.{
  ℕ, ◌+◌, ◌-◌, ◌^◌, ◌≤◌, ◌<◌, ◌≡◌, refl, ◌∙◌, ap, sym, false, true, List, [], ◌∷◌, ◌++◌, length,
  take, rotate, arith, some, length-append,
}
use mcsrv.Common.Int.{pos, ◌+ℤ◌}
use mcsrv.Common.Outcome.{ok}
use mcsrv.Arena.{Arena, arena_allocate, arena_save, arena_restore}
use mcsrv.ByteBuffer.{ByteBuffer, Heap, bytebuf_create_fixed, bytebuf_write_buffer}
use mcsrv.ByteBuffer.Fixed.{IsFixed, contents}
use mcsrv.ByteBuffer.Write.{bytebuf_write-IsFixed, head_index, stored_whole}
use mcsrv.ByteBuffer.Read.{length-contents}
use mcsrv.ByteBuffer.Back.{bytebuf_prepend-IsFixed}
use mcsrv.ByteBuffer.Regions.{bytebuf_write_buffer-IsFixed}
use mcsrv.Varint.{encode_varint, bytebuf_write_varint, bytebuf_prepend_varint}
use mcsrv.Varint.Codec.{encode_varint-length, encode_varint-pos}
use mcsrv.Varint.Buffer.{prepend_varint-short, bytebuf_write_varint-IsFixed}
use mcsrv.Net.Table.{
  State, Encoder, get_pkt_encoder, get_pkt_funcs, entry_index, entry, function_table,
}
use mcsrv.Net.Framing.{varint, frame}
use mcsrv.Net.Encode.{Response, encode, bytebuf_write_i64, swap_bytes, int_of}
use mcsrv.Net.Send.{
  Sender, SendEnv, max_packet_size, compress_packet, flush, queue_packet, send_packet,
}

length-swap_bytes : (xs : List ℕ) → length (swap_bytes xs) ≡ length xs
unfolding swap_bytes
length-swap_bytes [] = refl
length-swap_bytes (x ∷ xs) =
    omega (arith, length-swap_bytes xs, length-append (swap_bytes xs) (x ∷ []))

module _ (heap : Heap) where
  -- A buffer from index 0 on is given the length of its contents, and copied to the queue.
  pub queue-frame :
      (d b : ByteBuffer) (s id : ℕ) (body : List ℕ)
      → IsFixed d s
      → IsFixed b 0
      → contents b 0 ≡ varint id ++ body
      → b.size < 2 ^ 28
      → b.size + 4 < b.capacity
      → d.size + (b.size + 4) ≤ d.capacity
      → head_index d s + (b.size + 4) ≤ d.capacity
      → (b' d' : ByteBuffer) × (bytebuf_prepend_varint heap b (pos b.size) ≡ ok b')
        × (bytebuf_write_buffer heap d b' ≡ ok d')
        × IsFixed d' s
        × (contents d' s ≡ contents d s ++ frame id body)
  unfolding bytebuf_prepend_varint
  queue-frame d b s id body u v e small room fits before =
      let (count, four) = encode_varint-length b.size small in
      let some_bytes = encode_varint-pos b.size in
      let (b', r', w, v', c, n, k, at) =
        bytebuf_prepend-IsFixed heap b 0 (varint b.size) v (omega (arith, count)) in
      let size : b.size ≡ length (varint id) + length body =
        sym (length-contents b 0 v) ∙ ap length e ∙ length-append (varint id) body in
      let place : r' ≡ b.capacity - length (varint b.size) = ground (arith, at, count) in
      let whole = stored_whole (b.capacity - r') (varint b.size) (omega (arith, place, count)) in
      let (d', x, u', c', _) =
        bytebuf_write_buffer-IsFixed heap d b' s r' u v' (λ full. omega (arith, n, k, count, full))
          (omega (arith, n, count)) (omega (arith, n, count)) in
      (
        b',
        d',
        rw (prepend_varint-short heap b 0 v b.size small) w,
        x,
        u',
        c'
            ∙ ap (λ zs. contents d s ++ zs)
                (c ∙ rw (whole, e) (ap (λ (m : ℕ). varint m ++ (varint id ++ body)) size)),
      )

  pong_bytes :
      (b : ByteBuffer) (num : List ℕ)
      → IsFixed b 0
      → b.size ≡ 0
      → 20 < b.capacity
      → length num ≡ 8
      → (b' b'' : ByteBuffer) × (bytebuf_write_varint heap b (pos 1) ≡ ok b')
        × (bytebuf_write_i64 heap b' num ≡ ok b'')
        × IsFixed b'' 0
        × (contents b'' 0 ≡ varint 1 ++ swap_bytes num)
        × (b''.size ≡ 9)
        × (b''.capacity ≡ b.capacity)
  unfolding bytebuf_write_i64
  pong_bytes b num v none_held room eight =
      let xs = swap_bytes num in
      let count : length xs ≡ 8 = length-swap_bytes num ∙ eight in
      let (b', e, v', c, k) =
        bytebuf_write_varint-IsFixed heap b 0 v 1 (omega arith) (omega arith) (ground arith) in
      let front : contents b' 0 ≡ varint 1 =
        c ∙ ap (λ (m : ℕ). take m (rotate 0 b.buf) ++ varint 1) none_held in
      let one : b'.size ≡ 1 =
        sym (length-contents b' 0 v') ∙ ap length front ∙ (unfold encode_varint in refl) in
      let (b'', f, v'', c', n, k') =
        bytebuf_write-IsFixed heap b' 0 xs v' (omega (arith, count, k, one)) in
      let whole = stored_whole (b'.capacity - head_index b' 0) xs (ground (arith, count, k, one)) in
      (b', b'', e, f, v'', c' ∙ rw (whole, front) refl, omega (arith, count, n, one), k' ∙ k)

flush_waiting :
    (heap : Heap) (env : SendEnv) (conn : Sender)
    → conn.pending_send ≡ true
    → flush heap env conn ≡ ok conn
unfolding flush
flush_waiting heap env conn h = rw h refl

compress_plain :
    (heap : Heap) (env : SendEnv) (conn : Sender) (b : ByteBuffer) (a : Arena)
    → conn.compression ≡ false
    → compress_packet heap env conn b a ≡ ok (b, a)
unfolding compress_packet
compress_plain heap env conn b a h = rw h refl

ping_encoder :
    (state : State) → state ≡ State.status → get_pkt_encoder state (pos 1) ≡ ok (some Encoder.ping)
unfolding get_pkt_encoder get_pkt_funcs entry_index entry ◌+ℤ◌ function_table
ping_encoder state h = rw h refl

queue_plain :
    (heap : Heap) (env : SendEnv) (conn : Sender) (a : Arena) (b queue : ByteBuffer)
    → conn.encryption ≡ false
    → conn.pending_send ≡ true
    → bytebuf_write_buffer heap conn.send_buffer b ≡ ok queue
    → queue_packet heap env conn a b
      ≡ ok (record conn { send_buffer = queue; scratch_arena = arena_restore a })
unfolding queue_packet
queue_plain heap env conn a b queue open_text waiting e =
    let c = record conn { send_buffer = queue; scratch_arena = a; encryption = false } in
    rw (open_text, e, flush_waiting heap env c waiting) refl

-- A pong of eight bytes that is sent on a status connection without compression and encryption,
-- whose scratch arena has room for a packet, whose queue is being emptied already and has 13
-- bytes of room before the end of its area, adds to the queue the frame of the id 1 and of the
-- payload's bytes in reverse; the scratch arena is restored.
pub send_packet-pong :
    (heap : Heap) (env : SendEnv) (conn : Sender) (num : List ℕ) (s at : ℕ) (a : Arena)
    → conn.state ≡ State.status
    → conn.compression ≡ false
    → conn.encryption ≡ false
    → conn.pending_send ≡ true
    → arena_allocate (arena_save conn.scratch_arena) max_packet_size ≡ ok (at, a)
    → length num ≡ 8
    → IsFixed conn.send_buffer s
    → conn.send_buffer.size + 13 ≤ conn.send_buffer.capacity
    → head_index conn.send_buffer s + 13 ≤ conn.send_buffer.capacity
    → (conn' : Sender) × (send_packet heap env
          (record { id = pos 1; payload = Response.pong num })
          conn
        ≡ ok conn')
      × IsFixed conn'.send_buffer s
      × (contents conn'.send_buffer s ≡ contents conn.send_buffer s ++ frame 1 (swap_bytes num))
      × (conn'.scratch_arena ≡ arena_restore a)
unfolding bytebuf_create_fixed send_packet encode
send_packet-pong heap env conn num s at a status plain open_text waiting given eight u fits before =
    let (b', b'', e, f, v, c, nine, k) =
      pong_bytes heap scratch num scratch-IsFixed refl (omega arith) eight in
    let (b3, queue, g, h, u', c') =
      queue-frame heap conn.send_buffer b'' s 1 (swap_bytes num) u v c (omega (arith, nine))
        (omega (arith, nine, k)) (omega (arith, nine)) (omega (arith, nine)) in
    let sized : int_of b''.size ≡ pos b''.size = ground (arith, nine) in
    (
      record conn { send_buffer = queue; scratch_arena = arena_restore a },
      rw
          (
            ping_encoder conn.state status,
            given,
            e,
            f,
            compress_plain heap env conn b'' a plain,
            sized,
            g,
            queue_plain heap env conn a b3 queue open_text waiting h,
          )
          refl,
      u',
      c',
      refl,
    )
  where
    scratch : ByteBuffer
    scratch = bytebuf_create_fixed (env.memory at max_packet_size) max_packet_size

    scratch-IsFixed : IsFixed scratch 0
    scratch-IsFixed = record {
      read_at = refl;
      write_at = refl;
      area = env.memory_length at max_packet_size;
      small = omega arith;
      read_in = omega arith;
      size_in = omega arith;
    }
