-- ===== src/Net/Table.antt =====
-- network/connection.c: which functions serve a packet, by the connection's state and the packet's
-- id. The names for the log are left out.
use mcsrv.Common.{
  ℕ, ◌-◌, ◌≤◌, ◌<◌, ◌⊎◌, inl, inr, ◌≡◌, refl, Option, some, none, ltb, ◌==◌, if◌then◌else◌, arith,
}
use mcsrv.Common.Int.{ℤ, pos, negsuc, ◌+ℤ◌}
use mcsrv.Common.Outcome.{Outcome, ok, fault, ◌>>=◌}

-- `enum State`
pub data State : Type 0 where
  closed handshake status login config play : State

-- The decoders, handlers and encoders that the table names.
pub data Decoder : Type 0 where
  dummy handshake ping log_start enc_res : Decoder

pub data Handler : Type 0 where
  dummy handshake status ping log_start enc_res : Handler

pub data Encoder : Type 0 where
  dummy status ping enc_req compress log_success : Encoder

-- `PacketFunction`; `none` is NULL.
pub record PacketFunction : Type 0 where
  pub decoder : Option Decoder
  pub handler : Option Handler
  pub encoder : Option Encoder

abbrev no_function : PacketFunction
no_function = record { decoder = none; handler = none; encoder = none }

abbrev funcs : Decoder → Handler → Encoder → PacketFunction
funcs d h e = record { decoder = some d; handler = some h; encoder = some e }

-- `_PKT_TYPE_COUNT`
abbrev pub pkt_type_count : ℕ
pkt_type_count = 6

-- The row of a state; entries that the initialiser leaves out are NULL.
unfoldable pub function_table : State → ℕ → PacketFunction
function_table State.handshake id =
    if id == 0 then funcs Decoder.handshake Handler.handshake Encoder.dummy else no_function
function_table State.status id =
    if id == 0
    then funcs Decoder.dummy Handler.status Encoder.status
    else if id == 1
    then funcs Decoder.ping Handler.ping Encoder.ping
    else no_function
function_table State.login id =
    if id == 0
    then funcs Decoder.log_start Handler.log_start Encoder.dummy
    else if id == 1
    then funcs Decoder.enc_res Handler.enc_res Encoder.enc_req
    else if id == 2
    then record { decoder = none; handler = none; encoder = some Encoder.log_success }
    else if id == 3
    then funcs Decoder.dummy Handler.dummy Encoder.compress
    else no_function
function_table s id = no_function

-- The entries of the table in the order of their addresses: the rows follow one another.
unfoldable pub entry : ℕ → PacketFunction
entry i =
    if ltb i 6
    then function_table State.handshake i
    else if ltb i 12
    then function_table State.status (i - 6)
    else if ltb i 18
    then function_table State.login (i - 12)
    else no_function

-- `&function_table[state][type]` from the start of the table on, in entries: an id that is not of
-- the row leads to the entry of another state.
unfoldable pub entry_index : State → ℤ → ℤ
entry_index State.closed id = id +ℤ negsuc 5
entry_index State.handshake id = id
entry_index State.status id = id +ℤ pos 6
entry_index State.login id = id +ℤ pos 12
entry_index State.config id = id +ℤ pos 18
entry_index State.play id = id +ℤ pos 24

-- In front of the table and behind its 5 * 6 entries it is outside.
unfoldable pub get_pkt_funcs : State → ℤ → Outcome PacketFunction
get_pkt_funcs s id = elim (entry_index s id) [
  | negsuc n ↦ fault
  | pos i ↦ if ltb i 30 then ok (entry i) else fault
]

unfoldable pub get_pkt_handler : State → ℤ → Outcome (Option Handler)
get_pkt_handler s id = do f ← get_pkt_funcs s id; ok f.handler

unfoldable pub get_pkt_decoder : State → ℤ → Outcome (Option Decoder)
get_pkt_decoder s id = do f ← get_pkt_funcs s id; ok f.decoder

unfoldable pub get_pkt_encoder : State → ℤ → Outcome (Option Encoder)
get_pkt_encoder s id = do f ← get_pkt_funcs s id; ok f.encoder

-- The ids that lead behind the table from the row of a state.
abbrev pub behind_table : State → ℕ
behind_table State.closed = 36
behind_table State.handshake = 30
behind_table State.status = 24
behind_table State.login = 18
behind_table State.config = 12
behind_table State.play = 6

-- From there on the decoder is looked up outside the table.
pub get_pkt_decoder-fault :
    (s : State) (id : ℕ) → behind_table s ≤ id → get_pkt_decoder s (pos id) ≡ fault
unfolding get_pkt_decoder get_pkt_funcs entry_index ◌+ℤ◌
get_pkt_decoder-fault State.closed id h = ground arith
get_pkt_decoder-fault State.handshake id h = ground arith
get_pkt_decoder-fault State.status id h = ground arith
get_pkt_decoder-fault State.login id h = ground arith
get_pkt_decoder-fault State.config id h = ground arith
get_pkt_decoder-fault State.play id h = ground arith

-- With an id of its row a packet is served by that row; without a state, by nothing.
pub get_pkt_funcs-row :
    (s : State) (id : ℕ)
    → id < pkt_type_count
    → (s ≡ State.closed) ⊎ (get_pkt_funcs s (pos id) ≡ ok (function_table s id))
unfolding get_pkt_funcs entry_index entry ◌+ℤ◌ function_table
get_pkt_funcs-row State.closed id h = inl refl
get_pkt_funcs-row State.handshake id h = inr (ground arith)
get_pkt_funcs-row State.status id h = inr (ground arith)
get_pkt_funcs-row State.login id h = inr (ground arith)
get_pkt_funcs-row State.config id h = inr (ground arith)
get_pkt_funcs-row State.play id h = inr (ground arith)

pub closed-fault : (id : ℕ) → id < pkt_type_count → get_pkt_funcs State.closed (pos id) ≡ fault
unfolding get_pkt_funcs entry_index ◌+ℤ◌
closed-fault id h = ground arith

-- In the handshake the id 13 leads to the row of the login, to the answer to the encryption request.
handshake-enc_res : get_pkt_handler State.handshake (pos 13) ≡ ok (some Handler.enc_res)
unfolding get_pkt_handler get_pkt_funcs entry_index entry function_table
handshake-enc_res = refl
