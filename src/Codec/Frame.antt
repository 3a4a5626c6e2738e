-- ===== src/Codec/Frame.antt =====
-- Message frames (src/codec.rs): the payload's length as a big-endian u64, header, body.
-- The target is 64 bits wide, so `as u64` and `as usize` change nothing.
pub mod Laws
use nng_core.Prelude.{ℕ, ◌+◌, ◌-◌, List, ◌++◌, length, take, ltb, if◌then◌else◌, Result, ok, err}
use nng_core.Prelude.Bytes.{to_be_bytes, from_be_bytes}
use nng_core.Prelude.Slices.{slice}
use nng_core.Message.Heap
use nng_core.Message.Heap.{Message}
use nng_core.Codec.Handshake.{CodecError, incomplete}

unfoldable pub encode_frame : Message → List ℕ
encode_frame msg =
    let total = length msg.header + length msg.body in
    to_be_bytes 8 total ++ (msg.header ++ msg.body)

-- `src.len() - 8` is reached only with eight bytes at least.
unfoldable pub decode_frame : List ℕ → Result (Message × ℕ) CodecError
decode_frame src =
    if ltb (length src) 8
    then err incomplete
    else let len = from_be_bytes (take 8 src) in
      if ltb (length src - 8) len
      then err incomplete
      else ok (Heap.push_back Heap.new (slice src 8 (8 + len)), 8 + len)
