-- ===== src/Transport/Framed/Send.antt =====
-- `FramedTransport::connect` and `send` (src/transport.rs).
pub mod Laws
pub mod Connect
pub mod Keeps
use nng_core.Prelude.{ℕ, ◌+◌, List, [], ◌∷◌, ◌++◌, length, replicate, Result, ok, err}
use nng_core.Prelude.Bytes.{to_be_bytes}
use nng_core.Message.Heap.{Message}
use nng_core.Codec.Protocol.{ProtocolId}
use nng_core.Codec.Handshake.{CodecError, encode_handshake, decode_handshake, check_peer}
use nng_core.Transport.Stream.{Stream}
use nng_core.Transport.Fill.{End, Filled, fill, write_all}
use nng_core.Transport.Framed.{
  FrameFormat, tcp, ipc, TransportError, handshake, FramedTransport, Outcome, finished, stopped,
  empty_rx,
}

-- A part that is left out when it is empty.
abbrev pub unless_empty : List ℕ → List (List ℕ)
unless_empty [] = []
unless_empty (x ∷ xs) = (x ∷ xs) ∷ []

abbrev pub type_part : FrameFormat → List (List ℕ)
type_part tcp = []
type_part ipc = (0x01 ∷ []) ∷ []

module _ {S : Type 0} ⦃s : Stream S⦄ where
  -- One `write_all` after the other, each with `?`.
  after_part : (S → Outcome (Unit {0}) × S) → End → S → Outcome (Unit {0}) × S
  after_part next End.full inner = next inner
  after_part next e inner = (stopped e, inner)

  unfoldable pub write_parts : List (List ℕ) → S → Outcome (Unit {0}) × S
  unfolding after_part
  write_parts [] inner = (finished (ok tt), inner)
  write_parts (p ∷ ps) inner =
      let (e, inner') = write_all inner p in after_part (write_parts ps) e inner'

  unfoldable pub send : FramedTransport S → Message → Outcome (Unit {0}) × FramedTransport S
  send t msg =
      let total = length msg.header + length msg.body in
      let (o, inner') =
        write_parts
          (type_part t.format
            ++ (to_be_bytes 8 total ∷ (unless_empty msg.header ++ unless_empty msg.body)))
          t.inner in
      (o, record t { inner = inner' })

  after_check : Result (Unit {0}) CodecError → FrameFormat → S → Outcome (FramedTransport S)
  after_check (err e) format inner = finished (err (handshake e))
  after_check (ok _) format inner =
      finished (ok (record { inner = inner; format = format; rx = empty_rx }))

  -- What `connect` does with the eight bytes read, once decoded: check the peer.
  after_decode :
      Result ProtocolId CodecError → FrameFormat → ProtocolId → S → Outcome (FramedTransport S)
  unfolding after_check
  after_decode (err e) format local inner = finished (err (handshake e))
  after_decode (ok remote) format local inner = after_check (check_peer local remote) format inner

  after_hello : End → Filled S → FrameFormat → ProtocolId → Outcome (FramedTransport S) × S
  unfolding after_decode
  after_hello End.full f format local =
      (after_decode (decode_handshake f.buf) format local f.stream, f.stream)
  after_hello e f format local = (stopped e, f.stream)

  after_greeting : End → S → FrameFormat → ProtocolId → Outcome (FramedTransport S) × S
  unfolding after_hello
  after_greeting End.full inner format local =
      let (e, f) = fill 8 (record { stream = inner; buf = replicate 8 0; filled = 0 }) in
      after_hello e f format local
  after_greeting e inner format local = (stopped e, inner)

  -- The stream is returned beside the outcome: it is moved into the transport only at the end.
  unfoldable pub connect : S → ProtocolId → FrameFormat → Outcome (FramedTransport S) × S
  unfolding after_greeting
  connect inner local format =
      let (e, inner') = write_all inner (encode_handshake local) in
      after_greeting e inner' format local
