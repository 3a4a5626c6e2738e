-- ===== src/Codec.antt =====
-- The wire format (src/codec.rs): protocol ids, the SP handshake, message frames.
pub mod Protocol
pub mod Handshake
pub mod Frame
