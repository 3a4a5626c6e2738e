-- ===== src/Message.antt =====
-- Messages (src/message.rs): the interface `MessageBuf`, the heap type `Message` and the
-- fixed-capacity `ZeroCopyMessage`.
pub mod Buf
pub mod Heap
pub mod ZeroCopy
