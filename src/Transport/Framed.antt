-- ===== src/Transport/Framed.antt =====
-- `FramedTransport` (src/transport.rs): its state, its errors and its frame header.
pub mod Send
pub mod Recv
pub mod Wire
pub mod Delivery
use nng_core.Prelude.{
  ℕ, ◌+◌, ◌^◌, List, [], ◌∷◌, ◌++◌, length, replicate, take, ltb, ◌==◌, if◌then◌else◌, Result, ok,
  err, get_or,
}
use nng_core.Prelude.Bytes.{to_be_bytes, from_be_bytes}
use nng_core.Prelude.Slices.{slice}
use nng_core.Message.Heap.{Message, from_parts}
use nng_core.Codec.Protocol.{ProtocolId}
use nng_core.Codec.Handshake.{CodecError, encode_handshake, decode_handshake, check_peer}
use nng_core.Transport.Stream.{Stream}
use nng_core.Transport.Fill.{End, io_error, dropped}
use Prim.Native.String.{String}

pub data FrameFormat : Type 0 where
  tcp ipc : FrameFormat

-- `1 << 30`
abbrev pub max_frame_bytes : ℕ
max_frame_bytes = 2 ^ 30

pub data TransportError : Type 0 where
  handshake : CodecError → TransportError
  io : String → TransportError
  closed : TransportError
  bad_frame_type : ℕ → TransportError
  frame_too_large : ℕ → TransportError

pub data RecvPhase : Type 0 where
  idle len body : RecvPhase

pub record RecvBuf : Type 0 where
  pub phase : RecvPhase
  pub len_buf : List ℕ
  pub len_filled : ℕ
  pub body : List ℕ
  pub body_filled : ℕ

-- `RecvBuf::default()`
abbrev pub empty_rx : RecvBuf
empty_rx = record {
  phase = idle;
  len_buf = replicate 9 0;
  len_filled = 0;
  body = [];
  body_filled = 0;
}

pub record FramedTransport (S : Type 0) : Type 0 where
  pub inner : S
  pub format : FrameFormat
  pub rx : RecvBuf

-- How a call of an async method ends: it returns, or its future is dropped before. `stuck` is no
-- outcome of the code: a loop's fuel ran out.
pub data Outcome (A : Type 0) : Type 0 where
  finished : Result A TransportError → Outcome A
  cancelled : Outcome A
  stuck : Outcome A

-- A loop that did not run to its end, as the outcome of the method around it.
abbrev pub stopped : {A : Type 0} → End → Outcome A
stopped End.full = Outcome.stuck
stopped End.closed = finished (err TransportError.closed)
stopped (io_error e) = finished (err (io e))
stopped dropped = cancelled
stopped End.stuck = Outcome.stuck

abbrev pub head_size : FrameFormat → ℕ
head_size tcp = 8
head_size ipc = 9

-- The declared length, from a complete frame header.
unfoldable pub parse_head : FrameFormat → List ℕ → Result ℕ TransportError
parse_head tcp len_buf = ok (from_be_bytes (take 8 len_buf))
parse_head ipc len_buf =
    if get_or len_buf 0 0 == 1
    then ok (from_be_bytes (slice len_buf 1 9))
    else err (bad_frame_type (get_or len_buf 0 0))

unfoldable pub payload_len : FrameFormat → List ℕ → Result ℕ TransportError
unfolding parse_head
payload_len format len_buf = elim (parse_head format len_buf) [
  | ok n ↦ if ltb max_frame_bytes n then err (frame_too_large n) else ok n
  | err e ↦ err e
]
