-- ===== src/Net/Tests.antt =====
-- A concrete connection that receives a ping, and packets that it cannot take.
use mcsrv.Common.{ℕ, ◌≡◌, refl, true, false, some, none, List, [], ◌∷◌, rotate, arith}
use mcsrv.Common.Int.{pos, negsuc}
use mcsrv.Common.Outcome.{ok, abort, fault}
use mcsrv.Arena.{Arena, no_save}
use mcsrv.ByteBuffer.{ByteBuffer}
use mcsrv.ByteBuffer.Fixed.{IsFixed, contents}
use mcsrv.Varint.{encode_varint}
use mcsrv.ByteBuffer.Tests.{test_heap, resized, length-resized}
use mcsrv.Arena.{arena_restore, arena_save, arena_allocate}
use mcsrv.Net.Encode.{Response, swap_bytes}
use mcsrv.ByteBuffer.Fixed.{take_all}
use mcsrv.Net.Socket.{Socket, SendResult, empty_buffer}
use mcsrv.Net.Drain.{Drains, empty_buffer-Drains}
use mcsrv.Common.{◌≤◌, ◌++◌, length, take}
use mcsrv.Net.Send.{Sender, SendEnv, send_packet}
use mcsrv.Net.Queue.{send_packet-pong}
use mcsrv.Net.Table.{State}
use mcsrv.Net.Decode.{Payload}
use mcsrv.Net.Receive.{Env, Packet, RecvContext, IoCode, decode_common_data, decode_packet}
use mcsrv.Net.Framing.{
  IsFresh, Unframed, decode_common_data-frame, decode_packet-outside, decode_packet-ping,
}

-- Nothing is ever decompressed.
abbrev test_env : Env
test_env = record {
  decompress = λ target source. ok (negsuc 0, target, source);
  memory = λ at. [];
  uninit = 77;
}

abbrev eight : List ℕ
eight = 1 ∷ 2 ∷ 3 ∷ 4 ∷ 5 ∷ 6 ∷ 7 ∷ 8 ∷ []

-- The frame of a ping, and one byte more.
abbrev pinged : ByteBuffer
pinged = record {
  buf = 9 ∷ 1 ∷ 1 ∷ 2 ∷ 3 ∷ 4 ∷ 5 ∷ 6 ∷ 7 ∷ 8 ∷ 42 ∷ 0 ∷ [];
  read_head = pos 0;
  write_head = pos 11;
  size = 11;
  capacity = 12;
}

pinged-IsFixed : IsFixed pinged 0
pinged-IsFixed = record {
  read_at = refl;
  write_at = refl;
  area = refl;
  small = omega arith;
  read_in = omega arith;
  size_in = omega arith;
}

-- The frame of a packet with the id 6 and no payload.
abbrev strange : ByteBuffer
strange = record {
  buf = 1 ∷ 6 ∷ 0 ∷ 0 ∷ [];
  read_head = pos 0;
  write_head = pos 2;
  size = 2;
  capacity = 4;
}

strange-IsFixed : IsFixed strange 0
strange-IsFixed = record {
  read_at = refl;
  write_at = refl;
  area = refl;
  small = omega arith;
  read_in = omega arith;
  size_in = omega arith;
}

abbrev scratch : Arena
scratch = record { block = 4096; capacity = 64; len = 0; saved_length = no_save }

abbrev receiving : ByteBuffer → RecvContext
receiving b = record {
  recv_buffer = b;
  inflated = none;
  arena = scratch;
  compression_enabled = false;
}

abbrev new_packet : Packet
new_packet = record { id = pos 0; total_length = 0; payload_length = 0; payload = none }

receiving-IsFresh : (b : ByteBuffer) → IsFresh (receiving b) new_packet
receiving-IsFresh b = record { plain = refl; not_inflated = refl; no_length = refl }

decode_packet-ping_example :
    (pkt' : Packet) × (ctx' : RecvContext) × (decode_packet test_env State.status
        (receiving pinged)
        new_packet
      ≡ ok (IoCode.okay, pkt', ctx'))
    × (pkt'.payload ≡ some (Payload.ping eight))
    × ((r' : ℕ) × IsFixed ctx'.recv_buffer r' × (contents ctx'.recv_buffer r' ≡ 42 ∷ []))
unfolding encode_varint rotate
decode_packet-ping_example =
    decode_packet-ping test_env (receiving pinged) new_packet (receiving-IsFresh pinged) 0 eight
      (42 ∷ []) pinged-IsFixed refl refl (omega arith) (omega arith) (omega arith)

decode_common_data-frame_example :
    (pkt' : Packet) × (ctx' : RecvContext) × (decode_common_data test_env
        (receiving pinged)
        new_packet
      ≡ ok (IoCode.okay, pkt', ctx'))
    × Unframed scratch 1 eight (42 ∷ []) pkt' ctx'
unfolding encode_varint rotate
decode_common_data-frame_example =
    decode_common_data-frame test_env (receiving pinged) new_packet (receiving-IsFresh pinged) 0 1
      eight (42 ∷ []) pinged-IsFixed (omega arith) (omega arith) refl (omega arith)

decode_packet-outside_example :
    decode_packet test_env State.play (receiving strange) new_packet ≡ fault
unfolding encode_varint rotate
decode_packet-outside_example =
    decode_packet-outside test_env (receiving strange) new_packet (receiving-IsFresh strange)
      State.play 0 6 [] [] strange-IsFixed (omega arith) (omega arith) (omega arith) refl
      (omega arith)

-- A connection that waits to empty its queue, over a cleared arena; nothing is compressed or
-- encrypted.
abbrev send_env : SendEnv
send_env = record {
  memory = λ at n. resized n [];
  memory_length = λ at n. length-resized n [];
  compress = λ target source. abort;
  cipher = λ b. none;
  empty_buffer = λ c. (IoCode.error, c);
}

abbrev queue : ByteBuffer
queue = record {
  buf = 0 ∷ 0 ∷ 5 ∷ 6 ∷ 0 ∷ 0 ∷ 0 ∷ 0 ∷ 0 ∷ 0 ∷ 0 ∷ 0 ∷ 0 ∷ 0 ∷ 0 ∷ 0 ∷ 0 ∷ 0 ∷ [];
  read_head = pos 2;
  write_head = pos 4;
  size = 2;
  capacity = 18;
}

queue-IsFixed : IsFixed queue 2
queue-IsFixed = record {
  read_at = refl;
  write_at = refl;
  area = refl;
  small = omega arith;
  read_in = omega arith;
  size_in = omega arith;
}

abbrev server_arena : Arena
server_arena = record { block = 4096; capacity = 4194304; len = 64; saved_length = no_save }

abbrev used_arena : Arena
used_arena = record server_arena { len = 2097216; saved_length = 64 }

abbrev sending : Sender
sending = record {
  state = State.status;
  send_buffer = queue;
  scratch_arena = server_arena;
  compression = false;
  threshold = 0;
  encryption = false;
  pending_send = true;
}

send_packet-pong_example :
    (conn' : Sender) × (send_packet test_heap send_env
        (record { id = pos 1; payload = Response.pong eight })
        sending
      ≡ ok conn')
    × IsFixed conn'.send_buffer 2
    × (contents conn'.send_buffer 2 ≡ 5 ∷ 6 ∷ 9 ∷ 1 ∷ 8 ∷ 7 ∷ 6 ∷ 5 ∷ 4 ∷ 3 ∷ 2 ∷ 1 ∷ [])
    × (conn'.scratch_arena ≡ arena_restore used_arena)
unfolding encode_varint swap_bytes rotate arena_save arena_allocate
send_packet-pong_example =
    send_packet-pong test_heap send_env sending eight 2 4160 used_arena refl refl refl refl refl
      refl queue-IsFixed (omega arith) (omega arith)

-- A socket that takes all bytes at once, and keeps them.
abbrev take_all_send : List ℕ → List ℕ → SendResult × List ℕ
take_all_send w xs = (SendResult.sent (length xs), w ++ xs)

take_all_send_lem :
    (w w' xs : List ℕ) (n : ℕ)
    → take_all_send w xs ≡ (SendResult.sent n, w')
    → (n ≤ length xs) × (w' ≡ w ++ take n xs)
take_all_send_lem w w' xs n e = ground (arith, take_all xs)

abbrev test_socket : Socket (List ℕ)
test_socket = record {
  send = take_all_send;
  accepted = λ w. w;
  sends = take_all_send_lem;
  blocks = λ w w' xs e. cc;
  fails = λ w w' xs e. cc;
}

empty_buffer-Drains_example :
    Drains test_socket (empty_buffer test_socket [] queue false) [] (5 ∷ 6 ∷ [])
unfolding rotate
empty_buffer-Drains_example =
    empty_buffer-Drains test_socket [] queue 2 false queue-IsFixed
      (λ full. absurd (omega (arith, full)))
