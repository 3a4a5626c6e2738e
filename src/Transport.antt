-- ===== src/Transport.antt =====
-- The transport layer (src/transport.rs): the handshake and framing over any byte stream.
pub mod Stream
pub mod Fill
pub mod Framed
pub mod BufferPool
pub mod Ws
pub mod Udp
