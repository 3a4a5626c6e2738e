-- ===== src/Codec/Handshake.antt =====
-- The SP handshake (src/codec.rs): eight bytes each way, and the check of the peer's protocol.
pub mod Laws
use nng_core.Prelude.{
  ℕ, List, [], ◌∷◌, ◌++◌, Bool, not, ◌||◌, get_or, ◌==◌, if◌then◌else◌, Result, ok, err,
}
use nng_core.Prelude.Bytes.{to_be_bytes, from_be_bytes}
use nng_core.Codec.Protocol.{ProtocolId, expected_peer}

-- `enum CodecError`
pub data CodecError : Type 0 where
  invalid_magic : CodecError
  reserved_not_zero : CodecError
  incompatible_protocol : ProtocolId → ProtocolId → CodecError
  incomplete : CodecError

abbrev pub magic : List ℕ
magic = 0x00 ∷ b'S' ∷ b'P' ∷ 0x00 ∷ []

unfoldable pub encode_handshake : ProtocolId → List ℕ
encode_handshake local = magic ++ (to_be_bytes 2 local ++ (0 ∷ 0 ∷ []))

-- `buf[i]`; a `[u8; 8]` is a list of eight bytes, so no index is out of range.
abbrev pub byte_at : List ℕ → ℕ → ℕ
byte_at buf i = get_or buf i 0

abbrev pub ne : ℕ → ℕ → Bool
ne a b = not (a == b)

unfoldable pub decode_handshake : List ℕ → Result ProtocolId CodecError
decode_handshake buf =
    if ne (byte_at buf 0) 0x00
      || ne (byte_at buf 1) b'S'
      || ne (byte_at buf 2) b'P'
      || ne (byte_at buf 3) 0x00
    then err invalid_magic
    else if ne (byte_at buf 6) 0 || ne (byte_at buf 7) 0
    then err reserved_not_zero
    else ok (from_be_bytes (byte_at buf 4 ∷ byte_at buf 5 ∷ []))

unfoldable pub check_peer : ProtocolId → ProtocolId → Result (Unit {0}) CodecError
check_peer local remote =
    if ne remote (expected_peer local) then err (incompatible_protocol local remote) else ok tt
