-- ===== src/Socket/Error.antt =====
-- `enum NngError` and its conversion from `TransportError` (src/error.rs).
use nng_core.Prelude.{ℕ}
use nng_core.Codec.Handshake.{CodecError}
use nng_core.Transport.Framed.{TransportError}
use Prim.Native.String.{String}

pub data NngError : Type 0 where
  io : String → NngError
  handshake_failed : CodecError → NngError
  connection_closed : NngError
  frame_too_large : ℕ → NngError
  bad_frame_type : ℕ → NngError
  no_peers : NngError
  reconnect_exhausted : NngError
  unsupported_scheme : String → NngError
  feature_not_enabled : String → NngError
  protocol_violation : String → NngError

unfoldable pub from_transport : TransportError → NngError
from_transport (TransportError.handshake c) = handshake_failed c
from_transport (TransportError.io s) = io s
from_transport TransportError.closed = connection_closed
from_transport (TransportError.bad_frame_type b) = bad_frame_type b
from_transport (TransportError.frame_too_large n) = frame_too_large n
