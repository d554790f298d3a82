-- ===== src/Net/Leaves.antt =====
-- The handlers keep the protocol state, and all but one the encryption.
use mcsrv.Common.{
  ℕ, ◌+◌, ◌*◌, ◌≡◌, refl, ◌∙◌, Bool, true, false, not, List, some, if◌then◌else◌, length,
}
use mcsrv.Common.Int.{ℤ, pos, negsuc}
use mcsrv.Common.Outcome.{Outcome, ok, abort, fault, stuck, ◌>>=◌}
use mcsrv.ByteBuffer.{Heap}
use mcsrv.Varint.{parse_uuid}
use mcsrv.Arena.{Arena, arena_allocate, arena_free_ptr}
use mcsrv.Json.Node.{Node, json_get_obj, json_get_str, json_get_length}
use mcsrv.Net.Table.{State}
use mcsrv.Net.Send.{Sender, SendEnv, OutPacket, send_packet}
use mcsrv.Net.Profile.{name_key, id_key, properties_key, text_of, property_rounds}
use mcsrv.Net.Handlers.{
  Connection, HandleEnv, handle_status, handle_ping, handle_log_start, enable_compression,
  send_profile, send_login_success, start_encryption, send,
}
use mcsrv.Net.Guarded.{Has, All, All-bind, All-after, All-if, All-option, send_packet-Has}

pub All-weaken {ℓ} :
    {A : Type ℓ} (P Q : A → Type 0) (m : Outcome A) → ((a : A) → P a → Q a) → All P m → All Q m
All-weaken P Q (ok a) h k = h a k
All-weaken P Q abort h k = tt
All-weaken P Q fault h k = tt
All-weaken P Q stuck h k = tt

All-int {ℓ} :
    {A : Type ℓ} (Q : A → Type 0) (z : ℤ) (f g : ℕ → Outcome A)
    → ((n : ℕ) → All Q (f n))
    → ((n : ℕ) → All Q (g n))
    → All Q (elim z [ negsuc n ↦ f n | pos n ↦ g n ])
All-int Q (pos n) f g h k = k n
All-int Q (negsuc n) f g h k = h n

-- The state and the encryption of the connection that a handler leaves.
abbrev pub Leaves : State → Bool → Bool × Connection → Type 0
Leaves st enc r = Has st enc r.1.sender

-- The encryption may be on or not; the state is kept.
abbrev pub Stays : State → Bool × Connection → Type 0
Stays st r = r.1.sender.state ≡ st

module _ (heap : Heap) (send_env : SendEnv) (env : HandleEnv)
    (quiet : (s : Sender)
      → ((send_env.empty_buffer s).1.state ≡ s.state)
        × ((send_env.empty_buffer s).1.encryption ≡ s.encryption)) where
  send-Has :
      (st : State) (enc : Bool) (pkt : OutPacket) (conn : Connection)
      → Has st enc conn.sender
      → All (λ c. Has st enc c.sender) (send heap send_env env pkt conn)
  send-Has st enc pkt conn h =
      All-bind (Has st enc) (λ c. Has st enc c.sender) (send_packet heap send_env pkt conn.sender) _
        (send_packet-Has heap send_env st enc (λ s k. ((quiet s).0 ∙ k.0, (quiet s).1 ∙ k.1)) pkt
          conn.sender h)
        (λ s k. k)

  -- A handler that sends and is done.
  sent :
      (st : State) (enc : Bool) (pkt : OutPacket) (conn : Connection)
      → Has st enc conn.sender
      → All (Leaves st enc) (do c ← send heap send_env env pkt conn; ok (true, c))
  sent st enc pkt conn h =
      All-bind (λ c. Has st enc c.sender) (Leaves st enc) (send heap send_env env pkt conn) _
        (send-Has st enc pkt conn h) (λ c k. k)

  pub handle_status-Leaves :
      (st : State) (enc : Bool) (conn : Connection)
      → Has st enc conn.sender
      → All (Leaves st enc) (handle_status heap send_env env conn)
  unfolding handle_status
  handle_status-Leaves st enc conn h = sent st enc _ conn h

  pub handle_ping-Leaves :
      (st : State) (enc : Bool) (num : List ℕ) (conn : Connection)
      → Has st enc conn.sender
      → All (Leaves st enc) (handle_ping heap send_env env num conn)
  unfolding handle_ping
  handle_ping-Leaves st enc num conn h = sent st enc _ conn h

  pub handle_log_start-Leaves :
      (st : State) (enc : Bool) (name : List ℕ) (conn : Connection)
      → Has st enc conn.sender
      → All (Leaves st enc) (handle_log_start heap send_env env name conn)
  unfolding handle_log_start
  handle_log_start-Leaves st enc name conn h =
      All-after (Leaves st enc) (arena_allocate conn.persistent_arena (length name + 1)) _ (λ p.
        All-after (Leaves st enc) (arena_allocate conn.sender.scratch_arena 56) _ (λ a.
          All-after (Leaves st enc) (arena_allocate a.1 4) _
            (λ a. All-after (Leaves st enc) (arena_allocate p.1 4) _ (λ t. sent st enc _ _ h))))

  enable_compression-Leaves :
      (st : State) (enc : Bool) (conn : Connection)
      → Has st enc conn.sender
      → All (Leaves st enc) (enable_compression heap send_env env conn)
  unfolding enable_compression
  enable_compression-Leaves st enc conn h =
      All-bind (λ c. Has st enc c.sender) (Leaves st enc) (send heap send_env env _ conn) _
        (send-Has st enc _ conn h)
        (λ c k.
          either (env.compression_init c.persistent_arena).0 c
            (env.compression_init c.persistent_arena).1 k)
    where
      either :
          (fine : Bool) (c : Connection) (p : Arena)
          → Has st enc c.sender
          → Leaves st enc (
              if fine
              then (
                true,
                record c {
                  persistent_arena = p;
                  sender = record c.sender { compression = true; threshold = 256 };
                },
              )
              else (false, record c { persistent_arena = p }))
      either true c p k = k
      either false c p k = k

  send_profile-Leaves :
      (st : State) (enc : Bool) (name : List ℕ) (id properties : Node) (conn : Connection)
      → Has st enc conn.sender
      → All (Leaves st enc) (send_profile heap send_env env name id properties conn)
  unfolding send_profile
  send_profile-Leaves st enc name id properties conn h =
      All-after (Leaves st enc) (arena_allocate conn.sender.scratch_arena (length name + 1)) _ (λ a.
        All-after (Leaves st enc) (text_of (some id)) _ (λ uuid.
          All-option (Leaves st enc) (parse_uuid uuid) _ _ h (λ bytes.
            All-int (Leaves st enc) (json_get_length properties) _ _ (λ n. h)
              (λ count. All-after (Leaves st enc) (arena_allocate a.1 32) _ (λ a.
                All-after (Leaves st enc) (arena_allocate a.1 (56 * count)) _ (λ a.
                  All-after (Leaves st enc) (property_rounds count properties 0 a.1) _
                    (λ r. All-option (Leaves st enc) r.0 _ _ h (λ ps. sent st enc _ _ h))))))))

  send_login_success-Leaves :
      (st : State) (enc : Bool) (json : Node) (conn : Connection)
      → Has st enc conn.sender
      → All (Leaves st enc) (send_login_success heap send_env env json conn)
  unfolding send_login_success
  send_login_success-Leaves st enc json conn h =
      All-after (Leaves st enc) (json_get_obj json id_key) _ (λ i.
        All-after (Leaves st enc) (json_get_obj json name_key) _ (λ n.
          All-after (Leaves st enc) (json_get_obj json properties_key) _ (λ p.
            All-option (Leaves st enc) i _ _ h (λ id. All-option (Leaves st enc) n _ _ h (λ node.
              All-option (Leaves st enc) p _ _ h (λ properties.
                All-option (Leaves st enc) (json_get_str node) _ _ h
                  (λ name. send_profile-Leaves st enc name id properties conn h)))))))

  pub start_encryption-Stays :
      (st : State) (secret : List ℕ) (conn : Connection)
      → conn.sender.state ≡ st
      → All (Stays st) (start_encryption heap send_env env secret conn)
  unfolding start_encryption
  start_encryption-Stays st secret conn h =
      All-if (Stays st)
        (not (env.init_peer (arena_free_ptr conn.persistent_arena conn.verify_token.0) secret).0)
        (ok (false, _)) _ h
        (All-option (Stays st) (env.authenticate conn.sender.scratch_arena conn.player_name).0 _ _ h
          (λ root.
            All-bind (Leaves st true) (Stays st) (enable_compression heap send_env env _) _
              (enable_compression-Leaves st true _ (h, refl))
              (λ r k.
                All-if (Stays st) r.0 (send_login_success heap send_env env root r.1)
                  (ok (false, r.1))
                  (All-weaken (Leaves st true) (Stays st)
                    (send_login_success heap send_env env root r.1) (λ a l. l.0)
                    (send_login_success-Leaves st true root r.1 k))
                  k.0)))
