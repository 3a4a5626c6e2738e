-- ===== src/Tests.antt =====
-- Runs of the models at concrete inputs.
mod Pipe
mod Codec
mod Message
mod Protocols
mod Transport
mod Sockets
mod Links
mod Zeros
mod Delivery
mod Network
mod Any
mod Fan
mod Hub
