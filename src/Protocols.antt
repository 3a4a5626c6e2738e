-- ===== src/Protocols.antt =====
-- The protocol state machines (src/protocols/): they stamp and strip message headers, and do no I/O.
-- They are generic over `MessageBuf`.
pub mod Words
pub mod Req0
pub mod Rep0
pub mod ReqRep
pub mod Surveyor0
pub mod Respondent0
pub mod Survey
pub mod Pair1
pub mod Sub0
