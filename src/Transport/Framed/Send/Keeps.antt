-- ===== src/Transport/Framed/Send/Keeps.antt =====
-- What every read and write keeps of the stream, the connecting keeps too.
use nng_core.Prelude.{
  ℕ, zero, suc, ◌-◌, ◌≡◌, refl, List, [], ◌∷◌, length, ltb, ◌==◌, Bool-cases, inl, inr, Result, ok,
  err,
}
use nng_core.Codec.Protocol.{ProtocolId}
use nng_core.Codec.Handshake.{CodecError, decode_handshake, check_peer}
use nng_core.Transport.Stream.{Stream, ReadOutcome, got, WriteOutcome, took}
use nng_core.Transport.Fill.{
  End, io_error, dropped, Filled, after_read, fill_loop, fill, after_write, write_loop, write_all,
}
use nng_core.Transport.Framed.{FrameFormat, FramedTransport, Outcome, finished}
use nng_core.Transport.Framed.Send.{after_check, after_decode, after_hello, after_greeting, connect}

module _ {S : Type 0} ⦃s : Stream S⦄ (P : S → Type 0)
    (reads : (x : S) (n : ℕ) → P x → P (s.read x n).1)
    (writes : (x : S) (buf : List ℕ) → P x → P (s.write x buf).1) where
  after_read-keeps :
      (again : Filled S → End × Filled S) (f : Filled S) (outcome : ReadOutcome) (stream' : S)
      → P stream'
      → ((g : Filled S) → P g.stream → P (again g).1.stream)
      → P (after_read again f outcome stream').1.stream
  unfolding after_read
  after_read-keeps again f (got bs) stream' h next = elim (Bool-cases (length bs == 0)) [
    | inl e ↦ rw e h
    | inr e ↦ rw e (next _ h)
  ]
  after_read-keeps again f (ReadOutcome.failed e) stream' h next = h
  after_read-keeps again f ReadOutcome.pending stream' h next = h

  fill_loop-keeps :
      (fuel needed : ℕ) (f : Filled S) → P f.stream → P (fill_loop fuel needed f).1.stream
  unfolding fill_loop
  fill_loop-keeps zero needed f h = elim (Bool-cases (ltb f.filled needed)) [
    | inl e ↦ rw e h
    | inr e ↦ rw e h
  ]
  fill_loop-keeps (suc fuel) needed f h = elim (Bool-cases (ltb f.filled needed)) [
    | inl e ↦ rw e (
        after_read-keeps (fill_loop fuel needed) f _ _ (reads f.stream (needed - f.filled) h)
          (λ g k. fill_loop-keeps fuel needed g k))
    | inr e ↦ rw e h
  ]

  after_write-keeps :
      (again : S → List ℕ → End × S) (buf : List ℕ) (outcome : WriteOutcome) (stream' : S)
      → P stream'
      → ((x : S) (b : List ℕ) → P x → P (again x b).1)
      → P (after_write again buf outcome stream').1
  unfolding after_write
  after_write-keeps again buf (took n) stream' h next = elim (Bool-cases (n == 0)) [
    | inl e ↦ rw e h
    | inr e ↦ rw e (next _ _ h)
  ]
  after_write-keeps again buf (WriteOutcome.failed e) stream' h next = h
  after_write-keeps again buf WriteOutcome.pending stream' h next = h

  write_loop-keeps :
      (fuel : ℕ) (stream : S) (buf : List ℕ) → P stream → P (write_loop fuel stream buf).1
  unfolding write_loop
  write_loop-keeps zero stream [] h = h
  write_loop-keeps zero stream (x ∷ buf) h = h
  write_loop-keeps (suc fuel) stream [] h = h
  write_loop-keeps (suc fuel) stream (x ∷ buf) h =
      after_write-keeps (write_loop fuel) (x ∷ buf) _ _ (writes stream (x ∷ buf) h)
        (λ y b k. write_loop-keeps fuel y b k)

  -- The transport that a call gives, if it gives one.
  abbrev pub IsKept : FrameFormat → Outcome (FramedTransport S) → Type 0
  IsKept format (finished (ok t)) = P t.inner × (t.format ≡ format)
  IsKept format (finished (err e)) = Unit {0}
  IsKept format Outcome.cancelled = Unit {0}
  IsKept format Outcome.stuck = Unit {0}

  after_check-IsKept :
      (r : Result (Unit {0}) CodecError) (format : FrameFormat) (inner : S)
      → P inner
      → IsKept format (after_check r format inner)
  unfolding after_check
  after_check-IsKept (ok _) format inner h = (h, refl)
  after_check-IsKept (err e) format inner h = tt

  after_decode-IsKept :
      (r : Result ProtocolId CodecError) (format : FrameFormat) (local : ProtocolId) (inner : S)
      → P inner
      → IsKept format (after_decode r format local inner)
  unfolding after_decode
  after_decode-IsKept (ok remote) format local inner h =
      after_check-IsKept (check_peer local remote) format inner h
  after_decode-IsKept (err e) format local inner h = tt

  after_hello-IsKept :
      (e : End) (f : Filled S) (format : FrameFormat) (local : ProtocolId)
      → P f.stream
      → IsKept format (after_hello e f format local).0
  unfolding after_hello
  after_hello-IsKept End.full f format local h =
      after_decode-IsKept (decode_handshake f.buf) format local f.stream h
  after_hello-IsKept End.closed f format local h = tt
  after_hello-IsKept (io_error e) f format local h = tt
  after_hello-IsKept dropped f format local h = tt
  after_hello-IsKept End.stuck f format local h = tt

  after_greeting-IsKept :
      (e : End) (inner : S) (format : FrameFormat) (local : ProtocolId)
      → P inner
      → IsKept format (after_greeting e inner format local).0
  unfolding after_greeting fill
  after_greeting-IsKept End.full inner format local h =
      after_hello-IsKept _ _ format local (fill_loop-keeps _ 8 _ h)
  after_greeting-IsKept End.closed inner format local h = tt
  after_greeting-IsKept (io_error e) inner format local h = tt
  after_greeting-IsKept dropped inner format local h = tt
  after_greeting-IsKept End.stuck inner format local h = tt

  pub connect-IsKept :
      (inner : S) (local : ProtocolId) (format : FrameFormat)
      → P inner
      → IsKept format (connect inner local format).0
  unfolding connect write_all
  connect-IsKept inner local format h =
      after_greeting-IsKept _ _ format local (write_loop-keeps _ inner _ h)
