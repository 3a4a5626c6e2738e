-- ===== src/Socket.antt =====
-- The sockets (src/socket.rs, src/socket/, src/error.rs): what they do around their transports.
pub mod Error
pub mod Call
pub mod Any
pub mod Reconnect
pub mod FanOut
pub mod Push0Fan
pub mod Pull0Fan
pub mod Request
pub mod Survey
pub mod Raw
pub mod Receivers
pub mod Peers
pub mod Members
