-- ===== src/Net/Drain.antt =====
-- Emptying the queue loses no byte, sends none twice, and ends.
use mcsrv.Common.{
  ℕ, zero, suc, ◌+◌, ◌-◌, ◌≤◌, ◌<◌, ◌≡◌, refl, ◌∙◌, ap, sym, min, Bool, true, false, List, [], ◌∷◌,
  ◌++◌, ltb, ◌==◌, if◌then◌else◌, take, arith, append_assoc, append-nil, load-ok, take-append-drop,
}
use mcsrv.Common.Int.{to_u64}
use mcsrv.Common.Outcome.{Outcome, ok}
use mcsrv.ByteBuffer.{ByteBuffer, BufferRegion}
use mcsrv.ByteBuffer.Fixed.{IsFixed, contents}
use mcsrv.ByteBuffer.Read.{
  advanced, advanced-IsFixed, register_read-fixed, contents-advanced, length-contents,
}
use mcsrv.ByteBuffer.Regions.{
  region_bytes, held_regions, AllInside, held_regions-AllInside, get_regions_lem,
  bytes-held_regions,
}
use mcsrv.Net.Receive.{IoCode}
use mcsrv.Net.Send.{is_okay}
use native.Mathlib.Decide.{ℕ_discrete}
use mcsrv.Net.Socket.{
  Socket, SendResult, gather, after_sendmsg, sock_send_buf, send_rounds, empty_buffer,
}

gather-inside :
    (memory : List ℕ) (gs : List BufferRegion)
    → AllInside memory gs
    → gather memory gs ≡ ok (region_bytes memory gs)
unfolding gather
gather-inside memory [] inside = refl
gather-inside memory (g ∷ gs) (here, inside) =
    rw (load-ok memory (to_u64 g.start) g.size here, gather-inside memory gs inside) refl

beyond : (b : ByteBuffer) → 0 < b.size → (b.size == 0) ≡ false
beyond b h = ground arith

module _ {W : Type 0} (socket : Socket W) where
  abbrev reply : ByteBuffer → ℕ → SendResult → W → IoCode × W × ByteBuffer
  reply b r SendResult.would_block w' = (IoCode.again, w', b)
  reply b r SendResult.failed w' = (IoCode.error, w', b)
  reply b r (SendResult.sent zero) w' = (IoCode.closed, w', b)
  reply b r (SendResult.sent (suc n)) w' = (IoCode.okay, w', advanced b r (suc n))

  sock_send_buf_lem :
      (w w' : W) (b : ByteBuffer) (r : ℕ) (res : SendResult)
      → IsFixed b r
      → (b.size ≡ b.capacity → r ≡ 0)
      → 0 < b.size
      → socket.send w (contents b r) ≡ (res, w')
      → sock_send_buf socket w b ≡ ok (reply b r res w')
  unfolding sock_send_buf after_sendmsg
  sock_send_buf_lem w w' b r res v unambiguous some_held e =
      rw
        (
          get_regions_lem b r v unambiguous,
          gather-inside b.buf (held_regions b r) (held_regions-AllInside b r v),
          given,
          beyond b some_held,
        )
        (taken res e)
    where
      given : socket.send w (region_bytes b.buf (held_regions b r)) ≡ (res, w')
      given = rw (bytes-held_regions b r v) e

      taken :
          (s : SendResult)
          → socket.send w (contents b r) ≡ (s, w')
          → after_sendmsg b (s, w') ≡ ok (reply b r s w')
      taken SendResult.would_block e = refl
      taken SendResult.failed e = refl
      taken (SendResult.sent zero) e = refl
      taken (SendResult.sent (suc n)) e =
          let bound = (socket.sends w w' (contents b r) (suc n) e).0 in
          let count : min (suc n) b.size ≡ suc n = omega (arith, bound, length-contents b r v) in
          rw (register_read-fixed b r (suc n) v, count) (ground arith)

  -- The call ends; the bytes accepted and those left are the bytes that there were, and its code
  -- is IOC_OK exactly when none are left.
  abbrev pub Drains : Outcome (IoCode × W × ByteBuffer × Bool) → W → List ℕ → Type 0
  Drains out w bytes =
      (code : IoCode) × (w' : W) × (b' : ByteBuffer) × (r' : ℕ) × (flag : Bool) × (out
        ≡ ok (code, w', b', flag))
      × IsFixed b' r'
      × (socket.accepted w' ++ contents b' r' ≡ socket.accepted w ++ bytes)
      × (is_okay code ≡ (b'.size == 0))

  after_send :
      (fuel : ℕ) (w w' : W) (b : ByteBuffer) (r : ℕ) (pending : Bool) (res : SendResult)
      → ((b' : ByteBuffer) (r' : ℕ)
          → IsFixed b' r'
          → (b'.size ≡ b'.capacity → r' ≡ 0)
          → b'.size < fuel
          → Drains (send_rounds socket fuel w' b' pending) w' (contents b' r'))
      → IsFixed b r
      → (b.size ≡ b.capacity → r ≡ 0)
      → 0 < b.size
      → b.size < suc fuel
      → socket.send w (contents b r) ≡ (res, w')
      → Drains (send_rounds socket (suc fuel) w b pending) w (contents b r)
  unfolding send_rounds
  after_send fuel w w' b r pending SendResult.would_block later v unambiguous some_held enough e = (
    IoCode.again,
    w',
    b,
    r,
    true,
    rw
        (
          beyond b some_held,
          sock_send_buf_lem w w' b r SendResult.would_block v unambiguous some_held e,
        )
        refl,
    v,
    ap (λ ys. ys ++ contents b r) (socket.blocks w w' (contents b r) e),
    sym (beyond b some_held),
  )
  after_send fuel w w' b r pending SendResult.failed later v unambiguous some_held enough e = (
    IoCode.error,
    w',
    b,
    r,
    pending,
    rw (beyond b some_held, sock_send_buf_lem w w' b r SendResult.failed v unambiguous some_held e)
        refl,
    v,
    ap (λ ys. ys ++ contents b r) (socket.fails w w' (contents b r) e),
    sym (beyond b some_held),
  )
  after_send fuel w w' b r pending (SendResult.sent zero) later v unambiguous some_held enough e = (
    IoCode.closed,
    w',
    b,
    r,
    pending,
    rw
        (
          beyond b some_held,
          sock_send_buf_lem w w' b r (SendResult.sent zero) v unambiguous some_held e,
        )
        refl,
    v,
    ap (λ ys. ys ++ contents b r)
        ((socket.sends w w' (contents b r) 0 e).1 ∙ append-nil (socket.accepted w)),
    sym (beyond b some_held),
  )
  after_send fuel w w' b r pending (SendResult.sent (suc n)) later v unambiguous some_held enough
        e =
      let (bound, took) = socket.sends w w' (contents b r) (suc n) e in
      let fits : suc n ≤ b.size = omega (arith, bound, length-contents b r v) in
      let r' = (if ltb (r + suc n) b.capacity then r + suc n else r + suc n - b.capacity) in
      let (code, w'', b'', r'', flag, done, v'', kept, last) =
        later (advanced b r (suc n)) r' (advanced-IsFixed b r (suc n) v fits)
          (λ full. absurd (omega (arith, v.size_in, full, fits))) (omega arith) in
      (
        code,
        w'',
        b'',
        r'',
        flag,
        rw
            (
              beyond b some_held,
              sock_send_buf_lem w w' b r (SendResult.sent (suc n)) v unambiguous some_held e,
            )
            done,
        v'',
        kept
            ∙ ap (λ ys. ys ++ contents (advanced b r (suc n)) r') took
            ∙ append_assoc (socket.accepted w) (take (suc n) (contents b r))
                (contents (advanced b r (suc n)) r')
            ∙ ap (λ ys. socket.accepted w ++ ys)
                (ap (λ ys. take (suc n) (contents b r) ++ ys) (contents-advanced b r (suc n) v fits)
                  ∙ take-append-drop (suc n) (contents b r)),
        last,
      )

  send_rounds-Drains :
      (fuel : ℕ) (w : W) (b : ByteBuffer) (r : ℕ) (pending : Bool)
      → IsFixed b r
      → (b.size ≡ b.capacity → r ≡ 0)
      → b.size < fuel
      → Drains (send_rounds socket fuel w b pending) w (contents b r)
  send_rounds-Drains zero w b r pending v unambiguous enough = absurd (omega arith)
  send_rounds-Drains (suc fuel) w b r pending v unambiguous enough = elim (ℕ_discrete b.size 0) [
    | yes none_held ↦
        (IoCode.okay, w, b, r, pending, unfold send_rounds in ground arith, v, refl, ground arith)
    | no more ↦
        after_send fuel w (socket.send w (contents b r)).1 b r pending
          (socket.send w (contents b r)).0
          (λ b' r' v' u' small.
            send_rounds-Drains fuel (socket.send w (contents b r)).1 b' r' pending v' u' small)
          v unambiguous (omega arith) enough refl
  ]

  -- Emptying a fixed buffer, unless it is full with its read head away from the front, ends on
  -- every socket. The bytes that the socket accepted meanwhile and those that are left in the
  -- buffer are, in order, the bytes that the buffer held, and the code is IOC_OK exactly when none
  -- are left.
  pub empty_buffer-Drains :
      (w : W) (b : ByteBuffer) (r : ℕ) (pending : Bool)
      → IsFixed b r
      → (b.size ≡ b.capacity → r ≡ 0)
      → Drains (empty_buffer socket w b pending) w (contents b r)
  unfolding empty_buffer
  empty_buffer-Drains w b r pending v unambiguous =
      send_rounds-Drains (b.size + 1) w b r pending v unambiguous (omega arith)
