-- ===== src/Net/LoginTests.antt =====
-- A concrete connection in the login, the answer to its encryption request, and half a packet.
use mcsrv.Common.{refl, [], ◌∷◌, true, false, some, none, replicate, length-replicate}
use mcsrv.Common.Int.{pos}
use mcsrv.Common.Outcome.{abort}
use mcsrv.ByteBuffer.Tests.{test_heap}
use mcsrv.Arena.{Arena, no_save}
use mcsrv.Net.Table.{State}
use mcsrv.Net.Decode.{Payload}
use mcsrv.Net.Receive.{IoCode, Packet}
use mcsrv.Net.Send.{SendEnv}
use mcsrv.Net.Handlers.{Connection, HandleEnv, handle_packet}
use mcsrv.Net.Guarded.{All}
use mcsrv.Net.Login.{Guarded, handle_packet-Guarded}
use mcsrv.Common.{◌≡◌, rotate, arith, ℕ}
use mcsrv.Common.Outcome.{ok}
use mcsrv.ByteBuffer.{ByteBuffer}
use mcsrv.ByteBuffer.Fixed.{IsFixed, contents}
use mcsrv.Arena.{arena_allocate, arena_save}
use mcsrv.Varint.{encode_varint}
use mcsrv.Net.Receive.{Env}
use mcsrv.Net.Handlers.{with_scratch}
use mcsrv.Net.Loop.{Receiver, receive_packet, receive_packet-incomplete, new_packet}

abbrev test_send_env : SendEnv
test_send_env = record {
  memory = λ at n. replicate n 0;
  memory_length = λ at n. length-replicate n 0;
  compress = λ target source. abort;
  cipher = λ b. some b;
  empty_buffer = λ c. (IoCode.error, c);
}

-- The bytes are not encrypted at all, and no player is known.
abbrev test_handle_env : HandleEnv
test_handle_env = record {
  stringify = λ node. [];
  encoded_key = 1 ∷ 2 ∷ 3 ∷ [];
  decrypt = λ a bytes. (some bytes, a);
  init_peer = λ a secret. (true, a);
  authenticate = λ a name. (none, a);
  compression_init = λ a. (true, a);
}

abbrev test_arena : Arena
test_arena = record { block = 4096; capacity = 4194304; len = 64; saved_length = no_save }

abbrev logging_in : Connection
logging_in = record {
  sender = record {
    state = State.login;
    send_buffer = record {
      buf = replicate 8 0;
      read_head = pos 0;
      write_head = pos 0;
      size = 0;
      capacity = 8;
    };
    scratch_arena = test_arena;
    compression = false;
    threshold = 0;
    encryption = false;
    pending_send = false;
  };
  persistent_arena = test_arena;
  player_name = 110 ∷ [];
  verify_token = (4100, replicate 4 78);
}

abbrev answer : Packet
answer = record {
  id = pos 1;
  total_length = 24;
  payload_length = 23;
  payload = some (
      Payload.enc_res (record {
        shared_secret_length = 2;
        shared_secret = 5 ∷ 6 ∷ [];
        verify_token_length = 4;
        verify_token = replicate 4 78;
      }));
}

handle_packet-Guarded_example :
    All
      (Guarded test_heap test_send_env test_handle_env (λ s. (refl, refl)) answer logging_in)
      (handle_packet test_heap test_send_env test_handle_env answer logging_in)
handle_packet-Guarded_example =
    handle_packet-Guarded test_heap test_send_env test_handle_env (λ s. (refl, refl)) answer
      logging_in 1 (omega arith) refl

-- The length 9 and the first three bytes of a packet.
abbrev half : ByteBuffer
half = record {
  buf = 9 ∷ 1 ∷ 5 ∷ 6 ∷ 0 ∷ 0 ∷ 0 ∷ 0 ∷ 0 ∷ 0 ∷ 0 ∷ 0 ∷ [];
  read_head = pos 0;
  write_head = pos 4;
  size = 4;
  capacity = 12;
}

half-IsFixed : IsFixed half 0
half-IsFixed = record {
  read_at = refl;
  write_at = refl;
  area = refl;
  small = omega arith;
  read_in = omega arith;
  size_in = omega arith;
}

abbrev test_env : Env
test_env = record { decompress = λ target source. abort; memory = λ at. []; uninit = 77 }

abbrev waiting : Receiver
waiting = record { conn = logging_in; recv_buffer = half; packet_cache = none }

-- The arena with the packet in it.
abbrev begun : Arena
begun = record test_arena { len = 88; saved_length = 64 }

receive_packet-incomplete_example :
    (b : ByteBuffer) × (h' : ℕ) × (receive_packet test_env test_heap test_send_env test_handle_env 5
        waiting
      ≡ ok (
        IoCode.again,
        record {
          conn = with_scratch logging_in begun;
          recv_buffer = b;
          packet_cache = some (record new_packet { total_length = 9 });
        },
      ))
    × IsFixed b h'
    × (contents b h' ≡ 1 ∷ 5 ∷ 6 ∷ [])
unfolding encode_varint rotate arena_save arena_allocate
receive_packet-incomplete_example =
    receive_packet-incomplete test_env test_heap test_send_env test_handle_env 4 waiting 0 9 4160
      begun (1 ∷ 5 ∷ 6 ∷ []) refl refl half-IsFixed (omega arith) refl (omega arith) (omega arith)
