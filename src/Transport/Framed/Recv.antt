-- ===== src/Transport/Framed/Recv.antt =====
-- `FramedTransport::recv`, `recv_pooled` and `recv_inner` (src/transport.rs).
pub mod Held
pub mod Ledger
pub mod Calls
pub mod Series
pub mod Flow
use nng_core.Prelude.{ℕ, List, [], length, Result, ok, err}
use nng_core.Message.Heap.{Message, from_parts}
use nng_core.Transport.Stream.{Stream}
use nng_core.Transport.Fill.{End, Filled, fill}
use nng_core.Transport.Framed.{
  FrameFormat, RecvPhase, idle, len, body, RecvBuf, FramedTransport, Outcome, finished, stopped,
  head_size, payload_len, TransportError,
}

-- `alloc_body` gives a buffer of the length that is asked for; `P` is what it draws on.
module _ {S P : Type 0} ⦃s : Stream S⦄ (alloc_body : P → ℕ → List ℕ × P) where
  after_body : End → Filled S → FramedTransport S → P → Outcome Message × FramedTransport S × P
  after_body End.full f t p = (
    finished (ok (from_parts [] f.buf)),
    record t {
      inner = f.stream;
      rx = record (t.rx) { phase = idle; body = []; body_filled = f.filled };
    },
    p,
  )
  after_body e f t p = (
    stopped e,
    record t { inner = f.stream; rx = record (t.rx) { body = f.buf; body_filled = f.filled } },
    p,
  )

  -- Phase 2: read the payload.
  pub recv_body : FramedTransport S → P → Outcome Message × FramedTransport S × P
  unfolding after_body
  recv_body t p =
      let (e, f) =
        fill (length t.rx.body)
          (record { stream = t.inner; buf = t.rx.body; filled = t.rx.body_filled }) in
      after_body e f t p

  pub after_head :
      Result ℕ TransportError → FramedTransport S → P → Outcome Message × FramedTransport S × P
  unfolding recv_body
  after_head (err e) t p = (finished (err e), record t { rx = record (t.rx) { phase = idle } }, p)
  after_head (ok n) t p =
      let (buf, p') = alloc_body p n in
      recv_body (record t { rx = record (t.rx) { phase = body; body = buf; body_filled = 0 } }) p'

  after_len : End → Filled S → FramedTransport S → P → Outcome Message × FramedTransport S × P
  unfolding after_head payload_len
  after_len e f t p =
      let t' : FramedTransport S = record t {
        inner = f.stream;
        rx = record (t.rx) { len_buf = f.buf; len_filled = f.filled };
      } in
      elim e [
        | End.full ↦ after_head (payload_len t.format f.buf) t' p
        | other ↦ (stopped other, t', p)
      ]

  -- Phase 1: read the frame header, check it, allocate the body.
  recv_len : FramedTransport S → P → Outcome Message × FramedTransport S × P
  unfolding after_len
  recv_len t p =
      let (e, f) =
        fill (head_size t.format)
          (record { stream = t.inner; buf = t.rx.len_buf; filled = t.rx.len_filled }) in
      after_len e f t p

  abbrev start : FramedTransport S → FramedTransport S
  start t = record t { rx = record (t.rx) { phase = len; len_filled = 0 } }

  recv_from : RecvPhase → FramedTransport S → P → Outcome Message × FramedTransport S × P
  unfolding recv_len recv_body
  recv_from idle t p = recv_len (start t) p
  recv_from len t p = recv_len t p
  recv_from body t p = recv_body t p

  unfoldable pub recv_inner : FramedTransport S → P → Outcome Message × FramedTransport S × P
  unfolding recv_from
  recv_inner t p = recv_from t.rx.phase t p
