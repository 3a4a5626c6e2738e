-- ===== src/Lib.antt =====
-- nng-core, a Rust implementation of the nanomsg/NNG scalability protocols, as a model.
--
-- The program: messages (src/message.rs) have a header and a body; the protocol state machines
-- (src/protocols/) stamp a word of four bytes into the header of what is sent and strip it from the
-- front of the body of what arrives; the codec (src/codec.rs) gives the bytes of handshakes and
-- frames; a framed transport (src/transport.rs) moves messages over a byte stream, and its receive
-- buffer keeps a half-read frame when the caller drops a call; the sockets (src/socket.rs,
-- src/socket/) run the machines over transports, redial, send again, fan out and collect. A URL's
-- scheme chooses the transport: a framed one over tcp, ipc, tls+tcp, quic, vsock or kcp, or one with
-- messages of its own, a WebSocket (src/transport/ws.rs) or datagrams (src/transport/udp.rs).
--
-- Files and what they model:
-- Prelude and below: tests, lists, Result, Exec (done or panic), bytes, bits, slices of vectors.
-- Message/Buf: the trait MessageBuf, with laws that both message types fill.
-- Message/Heap: Message. Message/ZeroCopy: ZeroCopyMessage<N>, with N as a parameter; Refine has its
--   specification, a Message with bounds.
-- Codec/Protocol, Codec/Handshake, Codec/Frame: src/codec.rs.
-- Protocols/Req0, Rep0, Surveyor0, Respondent0, Pair1, Sub0: one state machine each, over any
--   MessageBuf; ReqRep and Survey put two of them together; Words has the ids.
-- Transport/Stream: the byte stream, a parameter with laws. Transport/Fill: the loops of read_exact,
--   recv_inner and write_all. Transport/Framed: FramedTransport, its Send (send, connect) and Recv
--   (recv_inner, phase by phase). Transport/BufferPool: the pool, recv and recv_pooled.
--   Transport/Framed/Wire: the frames of several payloads and how they come apart; Delivery and below:
--   what a receiver gets of what a sender wrote; Flow and Recv/Flow: streams that go on.
-- Transport/Ws: WsTransport's send and recv; Ws/Upgrade: connect, accept and the check of the
--   subprotocol. Transport/Udp: UdpTransport. Both over parameters for the third-party streams.
-- Socket/Error: src/error.rs. Socket/Reconnect: reconnect_transport. Socket/FanOut: the loop of
--   Pub0::publish and Bus0::broadcast. Socket/Push0Fan: Push0Fan. Socket/Request: Req0::request.
--   Socket/Survey: Surveyor0::survey_with_timeout. Socket/Raw: Socket::send_raw and recv_raw.
--   Socket/Receivers: Sub0::next, Respondent0::receive and respond, Rep0::receive and reply.
--   Socket/Peers: wait_for_subscribers, drain_incoming, Bus0::recv_any. Socket/Pull0Fan: Pull0Fan,
--   its reader tasks and its channel, one constructor of Step per step of a task.
--   Socket/Members: the constructors of Bus0, Pub0 and Push0Fan, which bind a URL and accept.
-- Socket/Call: asynchronous calls that use the system, as a monad; a call returns, is dropped or goes
--   on past its fuel. Socket/Any: AnyTransport and AnyStream, over the record Links of the system's
--   streams; Address: prefixes and addresses; Os: the system's calls, AnyListener and RawConn; Connect
--   and Dial: connect_stream, connect_transport and the dialing constructors of Socket; Listen and
--   Bind: accepting, bind_listener and the listening constructors; Schemes and Agree: what the scheme
--   of a URL determines at both ends.
-- Tests: runs at concrete inputs, over a concrete stream in Tests/Pipe and a concrete system in
--   Tests/Network.
--
-- State is passed explicitly: a method that takes &mut self returns the new state. A panic is
-- Exec.panic. Bytes and machine words are natural numbers with their bounds as hypotheses and their
-- wrap-around written out; the target has 64 bits. Overflow
-- is not checked, as in a release build: ZeroCopyMessage::trim_front wraps around. A future that is dropped while it waits for the
-- stream is an outcome of the read or the write, so every interleaving of calls and drops is a
-- sequence of outcomes of the stream.
--
-- Fuel: the reading and writing loops get as much as there are bytes left, and never want more. The
-- loop of broadcast gets the number of peers, since each round drops one or goes on. The loops of
-- reconnect_transport, request, Sub0::next and the accepting and receiving loops need not end in the
-- code; what they return is stated for the fuel that the attempts or steps take. The passes of a
-- survey are those before its deadline. A WebSocket recv wants fuel for more items than it skips.
-- The steps of Pull0Fan are a relation, so that they need none.
--
-- Cargo features are Booleans that choose the arms that they compile in (Features), and Links has the
-- streams of all of them.
--
-- Not modelled: the operating system and the third-party streams behind the transports, which are
-- parameters; TLS configuration and the loading of PEM files; flush, but for KCP, and drop; the
-- accepting loop of Pull0Fan; the sockets of one connection that only forward to Socket; stream and
-- tower adapters; error texts of the system. Vec capacity is an argument where the code asks for it.
-- Durations are not bounded.
pub mod Prelude
pub mod Message
pub mod Codec
pub mod Protocols
pub mod Transport
pub mod Socket
pub mod Tests
