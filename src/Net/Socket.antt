-- ===== src/Net/Socket.antt =====
-- platform/linux/network_linux.c: the bytes of the connection's queue are handed to its socket.
use mcsrv.Common.{
  ℕ, zero, suc, ◌+◌, ◌≤◌, ◌≡◌, Bool, true, false, List, [], ◌∷◌, ◌++◌, ◌==◌, if◌then◌else◌, length,
  take, load,
}
use mcsrv.Common.Int.{pos, to_u64}
use mcsrv.Common.Outcome.{Outcome, ok, stuck, ◌>>=◌}
use mcsrv.ByteBuffer.{ByteBuffer, BufferRegion, get_regions, bytebuf_register_read}
use mcsrv.Net.Receive.{IoCode}

-- What `sendmsg` returns: a count, or -1 with EAGAIN or EWOULDBLOCK, or -1 with another error.
pub data SendResult : Type 0 where
  sent : ℕ → SendResult
  would_block failed : SendResult

-- A socket and the world behind it, with the bytes that it has accepted so far: `sendmsg` accepts
-- the front of the vector's bytes, as many as it says, and nothing where it fails.
pub record Socket (W : Type 0) : Type 0 where
  pub send : W → List ℕ → SendResult × W
  pub accepted : W → List ℕ
  pub sends :
      (w w' : W) (xs : List ℕ) (n : ℕ)
      → send w xs ≡ (sent n, w')
      → (n ≤ length xs) × (accepted w' ≡ accepted w ++ take n xs)
  pub blocks : (w w' : W) (xs : List ℕ) → send w xs ≡ (would_block, w') → accepted w' ≡ accepted w
  pub fails : (w w' : W) (xs : List ℕ) → send w xs ≡ (failed, w') → accepted w' ≡ accepted w

-- The bytes that the vector of the regions refers to.
unfoldable pub gather : List ℕ → List BufferRegion → Outcome (List ℕ)
gather memory [] = ok []
gather memory (region ∷ regions) = do
  xs ← load memory (to_u64 region.start) region.size
  ys ← gather memory regions
  ok (xs ++ ys)

-- From the result of `sendmsg` on: the code, the world and the buffer.
unfoldable pub after_sendmsg :
    {W : Type 0} → ByteBuffer → SendResult × W → Outcome (IoCode × W × ByteBuffer)
after_sendmsg input (SendResult.would_block, w) = ok (IoCode.again, w, input)
after_sendmsg input (SendResult.failed, w) = ok (IoCode.error, w, input)
after_sendmsg input (SendResult.sent n, w) =
    if n == 0
    then ok (IoCode.closed, w, input)
    else do (b, count) ← bytebuf_register_read input n; ok (IoCode.okay, w, b)

module _ {W : Type 0} (socket : Socket W) where
  unfoldable pub sock_send_buf : W → ByteBuffer → Outcome (IoCode × W × ByteBuffer)
  sock_send_buf w input = if input.size == 0 then ok (IoCode.okay, w, input) else do
    (regions, total) ← get_regions input 2 false (pos 0)
    bytes ← gather input.buf regions
    after_sendmsg input (socket.send w bytes)

  -- The loop of `empty_buffer`; the flag is the connection's `pending_send`.
  unfoldable pub send_rounds : ℕ → W → ByteBuffer → Bool → Outcome (IoCode × W × ByteBuffer × Bool)
  send_rounds zero w buffer pending = stuck
  send_rounds (suc fuel) w buffer pending =
      if buffer.size == 0 then ok (IoCode.okay, w, buffer, pending) else do
        (code, w', b) ← sock_send_buf w buffer
        elim code [
          | IoCode.okay ↦ send_rounds fuel w' b pending
          | IoCode.again ↦ ok (IoCode.again, w', b, true)
          | other ↦ ok (other, w', b, pending)
        ]

  unfoldable pub empty_buffer : W → ByteBuffer → Bool → Outcome (IoCode × W × ByteBuffer × Bool)
  empty_buffer w buffer pending = send_rounds (buffer.size + 1) w buffer pending
