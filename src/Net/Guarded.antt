-- ===== src/Net/Guarded.antt =====
-- What a packet may change of the protocol state and of the encryption.
use mcsrv.Common.{
  ℕ, zero, suc, ◌+◌, ◌≡◌, Bool, true, false, ◌&&◌, Option, none, some, ltb, if◌then◌else◌,
}
use mcsrv.Common.Outcome.{Outcome, ok, abort, fault, stuck, ◌>>=◌}
use mcsrv.ByteBuffer.{ByteBuffer, Heap, bytebuf_create_fixed}
use mcsrv.Varint.{bytebuf_write_varint, bytebuf_prepend_varint}
use mcsrv.Net.Encode.{encode, int_of}
use mcsrv.Arena.{Arena, arena_allocate, arena_save}
use mcsrv.Net.Table.{State, get_pkt_encoder}
use mcsrv.Net.Send.{
  Sender, SendEnv, OutPacket, send_packet, compress_packet, max_packet_size, queue_packet, flush,
  empty_rounds, is_okay, is_waiting,
}

-- The protocol state and the encryption flag of a connection.
abbrev pub Has : State → Bool → Sender → Type 0
Has st enc s = (s.state ≡ st) × (s.encryption ≡ enc)

-- Every result satisfies a predicate; an abort, a fault and an endless loop have none.
abbrev pub All {ℓ} : {A : Type ℓ} → (A → Type 0) → Outcome A → Type 0
All P (ok a) = P a
All P other = Unit

pub All-bind {ℓ κ} :
    {A : Type ℓ} {B : Type κ} (P : A → Type 0) (Q : B → Type 0) (m : Outcome A) (f : A → Outcome B)
    → All P m
    → ((a : A) → P a → All Q (f a))
    → All Q (m >>= f)
All-bind P Q (ok a) f h k = k a h
All-bind P Q abort f h k = tt
All-bind P Q fault f h k = tt
All-bind P Q stuck f h k = tt

pub All-after {ℓ κ} :
    {A : Type ℓ} {B : Type κ} (Q : B → Type 0) (m : Outcome A) (f : A → Outcome B)
    → ((a : A) → All Q (f a))
    → All Q (m >>= f)
All-after Q (ok a) f k = k a
All-after Q abort f k = tt
All-after Q fault f k = tt
All-after Q stuck f k = tt

pub All-if {ℓ} :
    {A : Type ℓ} (Q : A → Type 0) (c : Bool) (x y : Outcome A)
    → All Q x
    → All Q y
    → All Q (if c then x else y)
All-if Q true x y h k = h
All-if Q false x y h k = k

pub All-option {ℓ κ} :
    {A : Type ℓ} {B : Type κ} (Q : B → Type 0) (o : Option A) (x : Outcome B) (f : A → Outcome B)
    → All Q x
    → ((a : A) → All Q (f a))
    → All Q (elim o [ none ↦ x | some a ↦ f a ])
All-option Q none x f h k = h
All-option Q (some a) x f h k = k a

module _ (heap : Heap) (env : SendEnv) (st : State) (enc : Bool)
    (quiet : (s : Sender) → Has st enc s → Has st enc (env.empty_buffer s).1) where
  empty_rounds-Has :
      (fuel : ℕ) (s : Sender)
      → Has st enc s
      → All (λ r. Has st enc r.1) (empty_rounds heap env fuel s)
  unfolding empty_rounds
  empty_rounds-Has zero s h = tt
  empty_rounds-Has (suc fuel) s h =
      All-if (λ r. Has st enc r.1)
        (is_okay (env.empty_buffer s).0 && ltb 0 (env.empty_buffer s).1.send_buffer.size)
        (empty_rounds heap env fuel (env.empty_buffer s).1) (ok (env.empty_buffer s))
        (empty_rounds-Has fuel (env.empty_buffer s).1 (quiet s h)) (quiet s h)

  flush-Has : (s : Sender) → Has st enc s → All (Has st enc) (flush heap env s)
  unfolding flush
  flush-Has s h = All-if (Has st enc) s.pending_send (ok s) _ h (
      All-bind (λ r. Has st enc r.1) (Has st enc) (empty_rounds heap env (s.send_buffer.size + 1) s)
        _ (empty_rounds-Has (s.send_buffer.size + 1) s h) (λ r k. either (is_waiting r.0) r.1 k))
    where
      either :
          (c : Bool) (s : Sender)
          → Has st enc s
          → Has st enc (if c then record s { pending_send = true } else s)
      either true s k = k
      either false s k = k

  queue_packet-Has :
      (s : Sender) (a : Arena) (scratch : ByteBuffer)
      → Has st enc s
      → All (Has st enc) (queue_packet heap env s a scratch)
  unfolding queue_packet
  queue_packet-Has s a scratch h =
      All-option (Has st enc) (if s.encryption then env.cipher scratch else some scratch) _ _ h
        (λ bytes. All-after (Has st enc) _ _ (λ queue.
          All-bind (Has st enc) (Has st enc)
            (flush heap env (record s { send_buffer = queue; scratch_arena = a })) _
            (flush-Has (record s { send_buffer = queue; scratch_arena = a }) h) (λ s' k. k)))

  pub send_packet-Has :
      (pkt : OutPacket) (s : Sender) → Has st enc s → All (Has st enc) (send_packet heap env pkt s)
  unfolding send_packet
  send_packet-Has pkt s h = All-after (Has st enc) (get_pkt_encoder s.state pkt.id) _ (λ encoder.
      All-option (Has st enc) encoder _ _ h (λ e.
        All-after (Has st enc) (arena_allocate (arena_save s.scratch_arena) max_packet_size) _ (λ r.
          All-after (Has st enc)
            (bytebuf_write_varint heap
              (bytebuf_create_fixed (env.memory r.0 max_packet_size) max_packet_size) pkt.id)
            _
            (λ b. All-after (Has st enc) (encode heap e pkt.payload b) _ (λ c.
              All-after (Has st enc) (compress_packet heap env s c r.1) _ (λ d.
                All-after (Has st enc) (bytebuf_prepend_varint heap d.0 (int_of d.0.size)) _
                  (λ b. queue_packet-Has s d.1 b h)))))))
