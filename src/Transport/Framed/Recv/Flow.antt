-- ===== src/Transport/Framed/Recv/Flow.antt =====
-- Progress: on a stream that does not dry up, a call of `recv` returns.
use nng_core.Prelude.{
  ℕ, ◌==◌, List, [], ◌∷◌, length, ltb, if◌then◌else◌, Bool-cases, inl, inr, Result, ok, err,
}
use nng_core.Message.Heap.{Message}
use nng_core.Transport.Stream.{Stream}
use nng_core.Transport.Fill.{Filled, fill}
use nng_core.Transport.Fill.Flow.{Flows, fill-full}
use nng_core.Transport.Framed.{
  FrameFormat, tcp, ipc, max_frame_bytes, TransportError, bad_frame_type, frame_too_large,
  RecvPhase, idle, len, body, FramedTransport, Outcome, finished, head_size, parse_head,
  payload_len,
}
use nng_core.Transport.Framed.Recv.{
  after_body, recv_body, after_head, after_len, recv_len, start, recv_from, recv_inner,
}

-- The error is what a frame header is refused for.
abbrev pub Refuses : TransportError → Type 0
Refuses (bad_frame_type b) = Unit {0}
Refuses (frame_too_large n) = Unit {0}
Refuses _ = ⊥

-- The call returned a message, or refused a header.
abbrev pub IsAnswer : Outcome Message → Type 0
IsAnswer (finished (ok m)) = Unit {0}
IsAnswer (finished (err e)) = Refuses e
IsAnswer _ = ⊥

abbrev RefusesAll : Result ℕ TransportError → Type 0
RefusesAll (ok n) = Unit {0}
RefusesAll (err e) = Refuses e

limit-RefusesAll :
    (n : ℕ) → RefusesAll (if ltb max_frame_bytes n then err (frame_too_large n) else ok n)
limit-RefusesAll n = elim (Bool-cases (ltb max_frame_bytes n)) [
  | inl big ↦ rw big tt
  | inr small ↦ rw small tt
]

payload_len-RefusesAll : (format : FrameFormat) (buf : List ℕ) → RefusesAll (payload_len format buf)
unfolding payload_len parse_head
payload_len-RefusesAll tcp buf = limit-RefusesAll _
payload_len-RefusesAll ipc [] = tt
payload_len-RefusesAll ipc (b ∷ buf) = elim (Bool-cases (b == 1)) [
  | inl one ↦ rw (one, payload_len, parse_head) (limit-RefusesAll _)
  | inr other ↦ rw (other, payload_len, parse_head) tt
]

module _ {S P : Type 0} ⦃s : Stream S⦄ (flows : Flows s) (alloc_body : P → ℕ → List ℕ × P) where
  recv_body-IsAnswer : (t : FramedTransport S) (p : P) → IsAnswer (recv_body alloc_body t p).0
  unfolding recv_body after_body
  recv_body-IsAnswer t p =
      let f : Filled S = record { stream = t.inner; buf = t.rx.body; filled = t.rx.body_filled } in
      let g = fill (length t.rx.body) f in rw (fill-full flows (length t.rx.body) f) tt

  after_head-IsAnswer :
      (r : Result ℕ TransportError) (t : FramedTransport S) (p : P)
      → RefusesAll r
      → IsAnswer (after_head alloc_body r t p).0
  unfolding after_head
  after_head-IsAnswer (err e) t p h = h
  after_head-IsAnswer (ok n) t p h = recv_body-IsAnswer _ _

  recv_len-IsAnswer : (t : FramedTransport S) (p : P) → IsAnswer (recv_len alloc_body t p).0
  unfolding recv_len after_len
  recv_len-IsAnswer t p =
      let f : Filled S = record {
        stream = t.inner;
        buf = t.rx.len_buf;
        filled = t.rx.len_filled;
      } in
      let g = fill (head_size t.format) f in
      rw (fill-full flows (head_size t.format) f) (
        after_head-IsAnswer (payload_len t.format g.1.buf)
          (record t {
            inner = g.1.stream;
            rx = record (t.rx) { len_buf = g.1.buf; len_filled = g.1.filled };
          })
          p (payload_len-RefusesAll t.format g.1.buf))

  recv_from-IsAnswer :
      (ph : RecvPhase) (t : FramedTransport S) (p : P) → IsAnswer (recv_from alloc_body ph t p).0
  unfolding recv_from
  recv_from-IsAnswer idle t p = recv_len-IsAnswer (start alloc_body t) p
  recv_from-IsAnswer len t p = recv_len-IsAnswer t p
  recv_from-IsAnswer body t p = recv_body-IsAnswer t p

  pub recv_inner-IsAnswer : (t : FramedTransport S) (p : P) → IsAnswer (recv_inner alloc_body t p).0
  unfolding recv_inner
  recv_inner-IsAnswer t p = recv_from-IsAnswer t.rx.phase t p
