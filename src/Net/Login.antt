-- ===== src/Net/Login.antt =====
-- Who may change the protocol state, and who may turn the encryption on.
use mcsrv.Common.{
  ℕ, ◌≡◌, ◌<◌, refl, ap, ap₂, ◌∙◌, Bool, true, false, List, [], ◌∷◌, Option, none, some, ◌==◌,
  if◌then◌else◌, ◌⊎◌, inl, inr, length, arith, Bool-cases,
}
use mcsrv.Common.Int.{pos}
use mcsrv.Common.Outcome.{ok}
use mcsrv.ByteBuffer.{Heap}
use mcsrv.Arena.{Arena}
use mcsrv.Json.Node.{same_bytes}
use mcsrv.Net.Table.{
  State, Handler, PacketFunction, get_pkt_handler, function_table, get_pkt_funcs-row, closed-fault,
  pkt_type_count,
}
use mcsrv.Net.Decode.{Payload, PacketHandshake, PacketEncRes}
use mcsrv.Net.Receive.{Packet}
use mcsrv.Net.Send.{Sender, SendEnv}
use mcsrv.Net.Handlers.{
  Connection, HandleEnv, Handled, with_scratch, with_state, handle_handshake, start_encryption,
  same_token, handle_enc_res, handle, handle_packet,
}
use mcsrv.Net.Guarded.{Has, All, All-bind, All-if, All-option}
use mcsrv.Net.Leaves.{
  All-weaken, Leaves, Stays, handle_status-Leaves, handle_ping-Leaves, handle_log_start-Leaves,
  start_encryption-Stays,
}

-- The state in whose row a handler stands.
abbrev InRow : Option Handler → State → Type 0
InRow (some Handler.handshake) s = s ≡ State.handshake
InRow (some Handler.enc_res) s = s ≡ State.login
InRow other s = Unit

InRow-if :
    (c : Bool) (f g : PacketFunction) (s : State)
    → InRow f.handler s
    → InRow g.handler s
    → InRow (if c then f else g).handler s
InRow-if true f g s h k = h
InRow-if false f g s h k = k

function_table-InRow : (s : State) (id : ℕ) → InRow (function_table s id).handler s
unfolding function_table
function_table-InRow State.handshake id = InRow-if (id == 0) _ _ State.handshake refl tt
function_table-InRow State.status id =
    InRow-if (id == 0) _ _ State.status tt (InRow-if (id == 1) _ _ State.status tt tt)
function_table-InRow State.login id = InRow-if (id == 0) _ _ State.login tt (
    InRow-if (id == 1) _ _ State.login refl
      (InRow-if (id == 2) _ _ State.login tt (InRow-if (id == 3) _ _ State.login tt tt)))
function_table-InRow State.closed id = tt
function_table-InRow State.config id = tt
function_table-InRow State.play id = tt

get_pkt_handler-InRow :
    (s : State) (id : ℕ) → id < pkt_type_count → All (λ o. InRow o s) (get_pkt_handler s (pos id))
unfolding get_pkt_handler
get_pkt_handler-InRow s id h = elim (get_pkt_funcs-row s id h) [
  | inl e ↦ rw (e, closed-fault id h) tt
  | inr e ↦ rw e (function_table-InRow s id)
]

module _ (heap : Heap) (send_env : SendEnv) (env : HandleEnv)
    (quiet : (s : Sender)
      → ((send_env.empty_buffer s).1.state ≡ s.state)
        × ((send_env.empty_buffer s).1.encryption ≡ s.encryption)) where
  -- What a packet may do to the protocol state and the encryption: nothing; or, in the handshake,
  -- choose between status and login; or, in the login, turn the encryption on with a packet whose
  -- decrypted token is the one that the connection keeps.
  abbrev pub Guarded : Packet → Connection → Bool × Connection → Type 0
  Guarded pkt conn (r, c) =
      Has conn.sender.state conn.sender.encryption c.sender
      ⊎ (((conn.sender.state ≡ State.handshake)
            × (c.sender.encryption ≡ conn.sender.encryption)
            × ((c.sender.state ≡ State.status) ⊎ (c.sender.state ≡ State.login)))
          ⊎ ((conn.sender.state ≡ State.login)
              × (c.sender.state ≡ State.login)
              × ((res : PacketEncRes) × (a : Arena) × (pkt.payload ≡ some (Payload.enc_res res))
                  × ((env.decrypt a res.verify_token).0 ≡ some conn.verify_token.1))))

  same_bytes-true : (xs ys : List ℕ) → same_bytes xs ys ≡ true → xs ≡ ys
  unfolding same_bytes
  same_bytes-true [] [] h = refl
  same_bytes-true [] (y ∷ ys) h = cc
  same_bytes-true (x ∷ xs) [] h = cc
  same_bytes-true (x ∷ xs) (y ∷ ys) h = elim (Bool-cases (x == y)) [
    | inl e ↦ ap₂ (λ z zs. z ∷ zs) (ground arith) (same_bytes-true xs ys (rw e at h))
    | inr e ↦ absurd (cc)
  ]

  same_token-true :
      (tok : List ℕ) (conn : Connection)
      → same_token heap send_env env tok conn ≡ true
      → tok ≡ conn.verify_token.1
  unfolding same_token
  same_token-true tok conn h = elim (Bool-cases (length tok == length conn.verify_token.1)) [
    | inl e ↦ same_bytes-true tok conn.verify_token.1 (rw e at h)
    | inr e ↦ let bad : false ≡ true = rw e at h in cc
  ]

  handle_handshake-Guarded :
      (shake : PacketHandshake) (pkt : Packet) (conn : Connection)
      → conn.sender.state ≡ State.handshake
      → All (Guarded pkt conn) (handle_handshake shake conn)
  unfolding handle_handshake
  handle_handshake-Guarded shake pkt conn h =
      All-if (Guarded pkt conn) (shake.next_state == 1) _ _ (inr (inl (h, refl, inl refl))) (
        All-if (Guarded pkt conn) (shake.next_state == 2) (ok (true, with_state conn State.login))
          (ok (false, conn)) (inr (inl (h, refl, inr refl))) (inl (refl, refl)))

  handle_enc_res-Guarded :
      (res : PacketEncRes) (pkt : Packet) (conn : Connection)
      → conn.sender.state ≡ State.login
      → pkt.payload ≡ some (Payload.enc_res res)
      → All (Guarded pkt conn) (handle_enc_res heap send_env env res conn)
  unfolding handle_enc_res
  handle_enc_res-Guarded res pkt conn h e =
      All-option (Guarded pkt conn) secret.0 _ _ (inl (refl, refl))
        (λ ss. compared ss (env.decrypt secret.1 res.verify_token).0 refl)
    where
      secret : Option (List ℕ) × Arena
      secret = env.decrypt conn.sender.scratch_arena res.shared_secret

      after : Connection
      after = with_scratch conn (env.decrypt secret.1 res.verify_token).1

      decided :
          (ss tok : List ℕ) (b : Bool)
          → (env.decrypt secret.1 res.verify_token).0 ≡ some tok
          → same_token heap send_env env tok conn ≡ b
          → All (Guarded pkt conn) (elim b as (λ x. Handled) [
            | true ↦ start_encryption heap send_env env ss after
            | false ↦ ok (false, after)
          ])
      decided ss tok false d q = inl (refl, refl)
      decided ss tok true d q =
          All-weaken (Stays State.login) (Guarded pkt conn)
            (start_encryption heap send_env env ss after)
            (λ r k. inr (inr (h, k, (res, secret.1, e, d ∙ ap some (same_token-true tok conn q)))))
            (start_encryption-Stays heap send_env env quiet State.login ss after h)

      compared :
          (ss : List ℕ) (o : Option (List ℕ))
          → (env.decrypt secret.1 res.verify_token).0 ≡ o
          → All (Guarded pkt conn) (elim o as (λ x. Handled) [
            | none ↦ ok (false, after)
            | some tok ↦ elim (same_token heap send_env env tok conn) as (λ x. Handled) [
              | true ↦ start_encryption heap send_env env ss after
              | false ↦ ok (false, after)
            ]
          ])
      compared ss none d = inl (refl, refl)
      compared ss (some tok) d = decided ss tok (same_token heap send_env env tok conn) d refl

  -- A handler that neither chooses a state nor turns the encryption on.
  kept :
      (pkt : Packet) (conn : Connection) (m : Handled)
      → All (Leaves conn.sender.state conn.sender.encryption) m
      → All (Guarded pkt conn) m
  kept pkt conn m k =
      All-weaken (Leaves conn.sender.state conn.sender.encryption) (Guarded pkt conn) m
        (λ r l. inl l) k

  handle-Guarded :
      (handler : Handler) (payload : Option Payload) (pkt : Packet) (conn : Connection)
      → InRow (some handler) conn.sender.state
      → pkt.payload ≡ payload
      → All (Guarded pkt conn) (handle heap send_env env handler payload conn)
  unfolding handle
  handle-Guarded Handler.dummy payload pkt conn h e = inl (refl, refl)
  handle-Guarded Handler.status payload pkt conn h e = kept pkt conn _ (
      handle_status-Leaves heap send_env env quiet conn.sender.state conn.sender.encryption conn
        (refl, refl))
  handle-Guarded Handler.handshake (some (Payload.handshake shake)) pkt conn h e =
      handle_handshake-Guarded shake pkt conn h
  handle-Guarded Handler.ping (some (Payload.ping num)) pkt conn h e = kept pkt conn _ (
      handle_ping-Leaves heap send_env env quiet conn.sender.state conn.sender.encryption num conn
        (refl, refl))
  handle-Guarded Handler.log_start (some (Payload.login_start name uuid)) pkt conn h e =
      kept pkt conn _ (
        handle_log_start-Leaves heap send_env env quiet conn.sender.state conn.sender.encryption
          name conn (refl, refl))
  handle-Guarded Handler.enc_res (some (Payload.enc_res res)) pkt conn h e =
      handle_enc_res-Guarded res pkt conn h e
  handle-Guarded handler other pkt conn h e = tt

  -- When a packet whose id is one of a row of the function table (0 to 5) is handled without a
  -- failure of the program, its handling leaves the state and the encryption alone, or chooses
  -- status or login in the handshake, or happens in the login with a packet whose decrypted token is
  -- the verify token that the connection keeps (empty when none was sent), and keeps the state. The
  -- platform's `empty_buffer` is taken to change neither.
  pub handle_packet-Guarded :
      (pkt : Packet) (conn : Connection) (id : ℕ)
      → id < pkt_type_count
      → pkt.id ≡ pos id
      → All (Guarded pkt conn) (handle_packet heap send_env env pkt conn)
  unfolding handle_packet
  handle_packet-Guarded pkt conn id h e =
      All-bind (λ o. InRow o conn.sender.state) (Guarded pkt conn)
        (get_pkt_handler conn.sender.state pkt.id) _
        (rw e (get_pkt_handler-InRow conn.sender.state id h)) (λ o k. served o k)
    where
      served :
          (o : Option Handler)
          → InRow o conn.sender.state
          → All (Guarded pkt conn) (elim o as (λ x. Handled) [
            | none ↦ ok (false, conn)
            | some handler ↦ handle heap send_env env handler pkt.payload conn
          ])
      served none k = inl (refl, refl)
      served (some handler) k = handle-Guarded handler pkt.payload pkt conn k refl
