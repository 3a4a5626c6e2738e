-- ===== src/Codec/Protocol/Laws.antt =====
-- The pairing of protocols.
use nng_core.Prelude.{◌≡◌, arith}
use nng_core.Codec.Protocol.{ProtocolId, IsU16, expected_peer}

-- The expected peer of the expected peer of a protocol is the protocol.
pub expected_peer-expected_peer : (p : ProtocolId) → expected_peer (expected_peer p) ≡ p
unfolding expected_peer
expected_peer-expected_peer p = ground arith

pub expected_peer-IsU16 : (p : ProtocolId) → IsU16 p → IsU16 (expected_peer p)
unfolding expected_peer
expected_peer-IsU16 p h = ground arith
