-- ===== src/Transport/Framed/Send/Connect.antt =====
-- The handshake of a new connection, from `connect`'s side of it.
use nng_core.Prelude.{
  ap₂, ℕ_discrete, ==_iff, ==_of_ne, subst, ℕ, ◌≡◌, ◌≢◌, refl, ap, sym, ◌∙◌, arith, List, ◌++◌, ◌<◌,
  length-take, append-nil, All, length, take_all, replicate, Result, ok, err,
}
use nng_core.Prelude.Bytes.{IsByte}
use nng_core.Codec.Protocol.{ProtocolId, expected_peer}
use nng_core.Codec.Handshake.{
  CodecError, incompatible_protocol, encode_handshake, decode_handshake, check_peer,
}
use nng_core.Codec.Handshake.Laws.{encode_handshake-decode_handshake}
use nng_core.Transport.Stream
use nng_core.Transport.Stream.{Stream}
use nng_core.Transport.Fill.{End, io_error, dropped, Filled}
use nng_core.Transport.Fill.Stops.{
  ReadStops, ReadStopped, WriteStops, WriteStopped, fill-ReadStopped, write_all-WriteStopped,
}
use nng_core.Transport.Fill.Laws.{Extends, fill-Extends}
use nng_core.Transport.Fill.Write.{Wrote, write_all-Wrote}
use nng_core.Transport.Framed.{
  FrameFormat, handshake, FramedTransport, Outcome, finished, stopped, empty_rx,
}
use nng_core.Transport.Framed.Send.{after_check, after_decode, after_hello, after_greeting, connect}

-- Why eight bytes are refused.
pub data Refuses (local : ProtocolId) (hello : List ℕ) : CodecError → Type 0 where
  malformed : (e : CodecError) → decode_handshake hello ≡ err e → Refuses local hello e
  wrong_peer :
      (remote : ProtocolId)
      → hello ≡ encode_handshake remote
      → remote ≢ expected_peer local
      → Refuses local hello (incompatible_protocol local remote)

module _ {S : Type 0} ⦃s : Stream S⦄ (l : Stream.IsLawful s) where
  -- How `connect` ends, having left the stream at `to`.
  pub data Greets (from : S) (local : ProtocolId) (format : FrameFormat) (to : S)
      : Outcome (FramedTransport S) → Type 0 where
    accepted :
        (remote : ProtocolId)
        → remote ≡ expected_peer local
        → l.written to ≡ l.written from ++ encode_handshake local
        → l.delivered to ≡ l.delivered from ++ encode_handshake remote
        → Greets from local format to
            (finished (ok (record { inner = to; format = format; rx = empty_rx })))
    refused :
        (hello : List ℕ) (e : CodecError)
        → Refuses local hello e
        → l.written to ≡ l.written from ++ encode_handshake local
        → l.delivered to ≡ l.delivered from ++ hello
        → Greets from local format to (finished (err (handshake e)))
    -- a write stopped: the peer got the first bytes of the handshake at most, nothing was read
    not_greeted :
        (e : End) (sent rest : List ℕ)
        → WriteStops e to
        → encode_handshake local ≡ sent ++ rest
        → l.written to ≡ l.written from ++ sent
        → l.delivered to ≡ l.delivered from
        → Greets from local format to (stopped e)
    -- a read stopped before the eighth byte
    not_answered :
        (e : End) (part : List ℕ)
        → ReadStops e to
        → length part < 8
        → l.written to ≡ l.written from ++ encode_handshake local
        → l.delivered to ≡ l.delivered from ++ part
        → Greets from local format to (stopped e)

  module _ (from : S) (local : ProtocolId) (format : FrameFormat) (to : S) (hello : List ℕ)
      (sized : length hello ≡ 8) (bytes : All IsByte hello)
      (w : l.written to ≡ l.written from ++ encode_handshake local)
      (d : l.delivered to ≡ l.delivered from ++ hello) where
    after_check-Greets :
        (remote : ProtocolId)
        → encode_handshake remote ≡ hello
        → Greets from local format to (after_check (check_peer local remote) format to)
    unfolding after_check check_peer
    after_check-Greets remote e = elim (ℕ_discrete remote (expected_peer local)) [
      | yes same ↦
          rw ((==_iff remote (expected_peer local)).1 same)
            (accepted remote same w (d ∙ ap (λ b. l.delivered from ++ b) (sym e)))
      | no other ↦
          rw (==_of_ne remote (expected_peer local) other)
            (refused hello _ (wrong_peer remote (sym e) other) w d)
    ]

    after_decode-Greets :
        (r : Result ProtocolId CodecError)
        → decode_handshake hello ≡ r
        → Greets from local format to (after_decode r format local to)
    unfolding after_decode
    after_decode-Greets (err e) h = refused hello e (malformed e h) w d
    after_decode-Greets (ok remote) h =
        after_check-Greets remote (encode_handshake-decode_handshake hello remote sized bytes h)

  module _ (from : S) (local : ProtocolId) (format : FrameFormat) where
    unanswered :
        (mid : S) (e : End) (f : Filled S)
        → l.written mid ≡ l.written from ++ encode_handshake local
        → l.delivered mid ≡ l.delivered from
        → Extends l 8 (record { stream = mid; buf = replicate 8 0; filled = 0 }) e f
        → ReadStops e f.stream
        → f.filled < 8
        → Greets from local format f.stream (stopped e)
    unanswered mid e f w d x r lt =
        not_answered e x.fresh r
          (omega (arith, ap length x.kept, length-take f.filled f.buf, x.sized))
          (x.kept_written ∙ w) (x.delivered ∙ ap (λ b. b ++ x.fresh) d)

    after_hello-Greets :
        (mid : S) (e : End) (f : Filled S)
        → l.written mid ≡ l.written from ++ encode_handshake local
        → l.delivered mid ≡ l.delivered from
        → Extends l 8 (record { stream = mid; buf = replicate 8 0; filled = 0 }) e f
        → ReadStopped e f.stream
        → Greets from local format (after_hello e f format local).1 (after_hello e f format local).0
    unfolding after_hello
    after_hello-Greets mid End.full f w d x r =
        let hello : f.buf ≡ x.fresh =
          sym (take_all f.filled f.buf (omega (arith, x.sized, x.stops))) ∙ x.kept in
        after_decode-Greets from local format f.stream f.buf (omega (arith, x.sized))
          (subst (All IsByte) (sym hello) x.bytes) (x.kept_written ∙ w)
          (x.delivered ∙ ap₂ ◌++◌ d (sym hello)) (decode_handshake f.buf) refl
    after_hello-Greets mid End.closed f w d x r = unanswered mid End.closed f w d x r x.stops
    after_hello-Greets mid (io_error e) f w d x r = unanswered mid (io_error e) f w d x r x.stops
    after_hello-Greets mid dropped f w d x r = unanswered mid dropped f w d x r x.stops
    after_hello-Greets mid End.stuck f w d x r = absurd x.stops

    after_greeting-Greets :
        (e : End) (mid : S)
        → Wrote l from (encode_handshake local) e mid
        → WriteStopped e mid
        → Greets from local format
            (after_greeting e mid format local).1
            (after_greeting e mid format local).0
    unfolding after_greeting
    after_greeting-Greets End.full mid x r =
        after_hello-Greets mid _ _
          (x.written
            ∙ ap (λ b. l.written from ++ b)
                (sym (x.split ∙ ap (λ b. x.sent ++ b) x.leaves ∙ append-nil x.sent)))
          x.kept_delivered
          (fill-Extends l 8 (record { stream = mid; buf = replicate 8 0; filled = 0 }) (omega arith)
            (omega arith))
          (fill-ReadStopped 8 (record { stream = mid; buf = replicate 8 0; filled = 0 }))
    after_greeting-Greets End.closed mid x r =
        not_greeted End.closed x.sent x.rest r x.split x.written x.kept_delivered
    after_greeting-Greets (io_error e) mid x r =
        not_greeted (io_error e) x.sent x.rest r x.split x.written x.kept_delivered
    after_greeting-Greets dropped mid x r =
        not_greeted dropped x.sent x.rest r x.split x.written x.kept_delivered
    after_greeting-Greets End.stuck mid x r = absurd x.leaves

    -- On a lawful stream connect gives a transport only when it wrote its handshake and read the
    -- eight bytes of the expected peer's, no byte more; it refuses other eight bytes with the error
    -- that says why. Otherwise a write stopped, with a prefix of the handshake written and nothing
    -- read, or a read did, before the eighth byte, and connect ends as this write or read says:
    -- closed for no byte, its error, or dropped while it waited.
    pub connect-Greets :
        Greets from local format (connect from local format).1 (connect from local format).0
    unfolding connect
    connect-Greets =
        after_greeting-Greets _ _ (write_all-Wrote l from (encode_handshake local))
          (write_all-WriteStopped from (encode_handshake local))
