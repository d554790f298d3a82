-- ===== src/Net/Handlers.antt =====
-- network/handlers.c: what the server does with a packet, and handle_packet of network/receiver.c.
-- The aliasing of the scratch arena is left out, and so is json_destroy, which frees.
use mcsrv.Common.{
  ℕ, ◌+◌, ◌*◌, Bool, true, false, not, List, [], Option, none, some, ◌==◌, if◌then◌else◌, length,
  replicate,
}
use mcsrv.Common.Int.{pos, negsuc}
use mcsrv.Common.Outcome.{Outcome, ok, fault, ◌>>=◌}
use mcsrv.Arena.{Arena, arena_allocate, arena_free_ptr}
use mcsrv.ByteBuffer.{Heap}
use mcsrv.Varint.{parse_uuid}
use mcsrv.Json.Node.{Node, same_bytes, json_get_obj, json_get_length, json_get_str}
use mcsrv.Net.Table.{State, Handler, get_pkt_handler}
use mcsrv.Net.Decode.{Payload, PacketHandshake, PacketEncRes}
use mcsrv.Net.Encode.{Response}
use mcsrv.Net.Receive.{Packet}
use mcsrv.Net.Profile.{status_json, name_key, id_key, properties_key, text_of, property_rounds}
use mcsrv.Net.Send.{Sender, SendEnv, OutPacket, send_packet}

-- The fields of `struct Connection` that the handlers use; the token with its address.
pub record Connection : Type 0 where
  pub sender : Sender
  pub persistent_arena : Arena
  pub player_name : List ℕ
  pub verify_token : ℕ × List ℕ

-- What stands outside this code: `json_stringify`, whose order is that of the dictionary; the
-- server's key; `encryption_decrypt`, `encryption_init_peer`, the player that
-- `encryption_authenticate_player` fetches by name, and `compression_init`.
pub record HandleEnv : Type 0 where
  pub stringify : Node → List ℕ
  pub encoded_key : List ℕ
  pub decrypt : Arena → List ℕ → Option (List ℕ) × Arena
  pub init_peer : Arena → List ℕ → Bool × Arena
  pub authenticate : Arena → List ℕ → Option Node × Arena
  pub compression_init : Arena → Bool × Arena

-- The result of a handler.
abbrev pub Handled : Type 0
Handled = Outcome (Bool × Connection)

abbrev pub with_scratch : Connection → Arena → Connection
with_scratch conn a = record conn { sender = record conn.sender { scratch_arena = a } }

abbrev pub with_state : Connection → State → Connection
with_state conn state = record conn { sender = record conn.sender { state = state } }

unfoldable pub handle_handshake : PacketHandshake → Connection → Handled
handle_handshake shake conn =
    if shake.next_state == 1
    then ok (true, with_state conn State.status)
    else if shake.next_state == 2
    then ok (true, with_state conn State.login)
    else ok (false, conn)

module _ (heap : Heap) (send_env : SendEnv) (env : HandleEnv) where
  abbrev pub send : OutPacket → Connection → Outcome Connection
  send pkt conn = do s ← send_packet heap send_env pkt conn.sender; ok (record conn { sender = s })

  unfoldable pub handle_status : Connection → Handled
  handle_status conn = do
    c ← send (record { id = pos 0; payload = Response.status (env.stringify status_json) }) conn
    ok (true, c)

  unfoldable pub handle_ping : List ℕ → Connection → Handled
  handle_ping num conn = do
    c ← send (record { id = pos 1; payload = Response.pong num }) conn
    ok (true, c)

  -- The request is allocated in the scratch arena, and the copy of its token in the persistent one.
  unfoldable pub handle_log_start : List ℕ → Connection → Handled
  handle_log_start name conn = do
    (at, p) ← arena_allocate conn.persistent_arena (length name + 1)
    (at, a) ← arena_allocate conn.sender.scratch_arena 56
    (at, a) ← arena_allocate a 4
    (token, p) ← arena_allocate p 4
    c ←
        send
          (record {
            id = pos 1;
            payload = Response.enc_req (record {
              server_id = [];
              pkey_length = pos (length env.encoded_key);
              pkey = env.encoded_key;
              verify_tok_length = pos 4;
              verify_tok = replicate 4 78;
              authenticate = true;
            });
          })
          (record (with_scratch conn a) {
            persistent_arena = p;
            player_name = name;
            verify_token = (token, replicate 4 78);
          })
    ok (true, c)

  unfoldable pub enable_compression : Connection → Handled
  enable_compression conn = do
    c ← send (record { id = pos 3; payload = Response.set_compress (pos 256) }) conn
    let (fine, p) = env.compression_init c.persistent_arena
    ok (
        if fine
        then (
          true,
          record c {
            persistent_arena = p;
            sender = record c.sender { compression = true; threshold = 256 };
          },
        )
        else (false, record c { persistent_arena = p }))

  -- From the username on; the uuid is that of the text.
  unfoldable pub send_profile : List ℕ → Node → Node → Connection → Handled
  send_profile name json_id json_properties conn = do
    (at, a) ← arena_allocate conn.sender.scratch_arena (length name + 1)
    uuid ← text_of (some json_id)
    elim (parse_uuid uuid) [
      | none ↦ ok (false, with_scratch conn a)
      | some bytes ↦ elim (json_get_length json_properties) [
        | negsuc n ↦ ok (false, with_scratch conn a)
        | pos count ↦ do
          (at, a) ← arena_allocate a 32
          (at, a) ← arena_allocate a (56 * count)
          (properties, a) ← property_rounds count json_properties 0 a
          elim properties [
            | none ↦ ok (false, with_scratch conn a)
            | some ps ↦ do
              c ←
                  send
                    (record {
                      id = pos 2;
                      payload = Response.login_success (record {
                        uuid = bytes;
                        username = name;
                        properties = ps;
                        strict_errors = true;
                      });
                    })
                    (with_scratch conn a)
              ok (true, c)
          ]
      ]
    ]

  unfoldable pub send_login_success : Node → Connection → Handled
  send_login_success json conn = do
    json_id ← json_get_obj json id_key
    json_name ← json_get_obj json name_key
    json_properties ← json_get_obj json properties_key
    elim json_id [
      | none ↦ ok (false, conn)
      | some id ↦ elim json_name [
        | none ↦ ok (false, conn)
        | some name_node ↦ elim json_properties [
          | none ↦ ok (false, conn)
          | some properties ↦ elim (json_get_str name_node) [
            | none ↦ ok (false, conn)
            | some name ↦ send_profile name id properties conn
          ]
        ]
      ]
    ]

  -- What follows the comparison of the tokens: encryption, authentication, compression, and the end
  -- of the login.
  unfoldable pub start_encryption : List ℕ → Connection → Handled
  start_encryption secret conn =
      let (fine, p) =
        env.init_peer (arena_free_ptr conn.persistent_arena conn.verify_token.0) secret in
      if not fine
      then ok (false, record conn { persistent_arena = p })
      else let (json, a) = env.authenticate conn.sender.scratch_arena conn.player_name in
        let c = record conn {
          persistent_arena = p;
          sender = record conn.sender { scratch_arena = a; encryption = true };
        } in
        elim json [
          | none ↦ ok (false, c)
          | some root ↦ do
            (enabled, c) ← enable_compression c
            if enabled then send_login_success root c else ok (false, c)
        ]

  -- The token that came back is compared with the one sent, first by its length.
  unfoldable pub same_token : List ℕ → Connection → Bool
  same_token token conn =
      if not (length token == length conn.verify_token.1)
      then false
      else same_bytes token conn.verify_token.1

  unfoldable pub handle_enc_res : PacketEncRes → Connection → Handled
  handle_enc_res payload conn =
      let (secret, a) = env.decrypt conn.sender.scratch_arena payload.shared_secret in
      let (token, a) = env.decrypt a payload.verify_token in
      elim secret [
        | none ↦ ok (false, with_scratch conn a)
        | some ss ↦ elim token [
          | none ↦ ok (false, with_scratch conn a)
          | some tok ↦ elim (same_token tok conn) [
            | true ↦ start_encryption ss (with_scratch conn a)
            | false ↦ ok (false, with_scratch conn a)
          ]
        ]
      ]

  -- A handler that is given the payload of another packet reads through a pointer of another type.
  unfoldable pub handle : Handler → Option Payload → Connection → Handled
  handle Handler.dummy payload conn = ok (true, conn)
  handle Handler.status payload conn = handle_status conn
  handle Handler.handshake (some (Payload.handshake shake)) conn = handle_handshake shake conn
  handle Handler.ping (some (Payload.ping num)) conn = handle_ping num conn
  handle Handler.log_start (some (Payload.login_start name uuid)) conn = handle_log_start name conn
  handle Handler.enc_res (some (Payload.enc_res res)) conn = handle_enc_res res conn
  handle handler other conn = fault

  unfoldable pub handle_packet : Packet → Connection → Handled
  handle_packet pkt conn = do
    found ← get_pkt_handler conn.sender.state pkt.id
    elim found [ none ↦ ok (false, conn) | some handler ↦ handle handler pkt.payload conn ]
