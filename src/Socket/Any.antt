-- ===== src/Socket/Any.antt =====
-- `AnyStream` and `AnyTransport` (src/socket.rs): one type for the streams and the transports that
-- the URL schemes name.

pub mod Address
pub mod Os
pub mod Schemes
pub mod Connect
pub mod Dial
pub mod Listen
pub mod Bind
pub mod Agree
use nng_core.Prelude.{ℕ, List, ◌++◌, Option, none, some, Result, ok, err, map_err}
use nng_core.Message.Heap.{Message}
use nng_core.Transport.Stream.{Stream, ReadOutcome, WriteOutcome, took}
use nng_core.Transport.Framed.{FrameFormat, FramedTransport, Outcome}
use nng_core.Transport.Framed.Send as Framed_send
use nng_core.Transport.Framed.Recv.{recv_inner}
use nng_core.Transport.BufferPool.{fresh_body}
use nng_core.Transport.Ws as Ws
use nng_core.Transport.Ws.{
  WsError, subprotocol_mismatch, invalid_header, tungstenite, tls, WsStream, WsInner, Looped, ends,
  loops_on,
}
use nng_core.Transport.Udp as Udp
use nng_core.Transport.Udp.{UdpSocket, UdpTransport}
use nng_core.Socket.Error.{NngError, io, connection_closed, protocol_violation}
use nng_core.Socket.Call.{Ended, returned, cancelled, runs_on, io_ended, transport_ended}
use Prim.Native.String.{String, ◌++◌ as ◌then◌}

-- The types of the systems below, with what the program reads, writes and sends through them.
pub record Links : Type 1 where
  pub Tcp : Type 0
  pub tcp_io : Stream Tcp
  pub Unix : Type 0
  pub unix_io : Stream Unix
  pub ClientTls : Type 0
  pub client_tls_io : Stream ClientTls
  pub ServerTls : Type 0
  pub server_tls_io : Stream ServerTls
  pub QuicConnection : Type 0
  pub QuicEndpoint : Type 0
  pub QuicRecv : Type 0
  pub quic_read : QuicRecv → ℕ → ReadOutcome × QuicRecv
  pub QuicSend : Type 0
  pub quic_write : QuicSend → List ℕ → WriteOutcome × QuicSend
  pub Vsock : Type 0
  pub vsock_io : Stream Vsock
  pub Kcp : Type 0
  pub kcp_io : Stream Kcp
  -- `none` where the future is dropped
  pub kcp_flush : Kcp → Option (Result (Unit {0}) String) × Kcp
  pub KcpListener : Type 0
  pub WsDial : Type 0
  pub ws_dial : WsStream WsDial
  pub WsAccept : Type 0
  pub ws_accept : WsStream WsAccept
  pub WsAcceptTls : Type 0
  pub ws_accept_tls : WsStream WsAcceptTls
  pub Udp : Type 0
  pub Addr : Type 0
  pub udp : UdpSocket Udp Addr

-- `TlsTcpStream` (src/transport/tls_tcp.rs)
pub data TlsTcpStream (k : Links) : Type 0 where
  client : k.ClientTls → TlsTcpStream k
  server : k.ServerTls → TlsTcpStream k

-- `QuicStream` (src/transport/quic.rs)
pub record QuicStream (k : Links) : Type 0 where
  pub conn : k.QuicConnection
  pub endpoint : Option k.QuicEndpoint
  pub send : k.QuicSend
  pub recv : k.QuicRecv

-- `TokioKcpStream` (src/transport/kcp.rs), with the listener that an accepted stream keeps alive.
pub record KcpStream (k : Links) : Type 0 where
  pub stream : k.Kcp
  pub keepalive : Option k.KcpListener

pub data AnyStream (k : Links) : Type 0 where
  tcp : k.Tcp → AnyStream k
  ipc : k.Unix → AnyStream k
  ipc2 : k.Unix → AnyStream k
  tls_tcp : TlsTcpStream k → AnyStream k
  quic : QuicStream k → AnyStream k
  vsock : k.Vsock → AnyStream k
  kcp : KcpStream k → AnyStream k

abbrev pub frame_format : {k : Links} → AnyStream k → FrameFormat
frame_format (tcp _) = FrameFormat.tcp
frame_format (ipc _) = FrameFormat.ipc
frame_format (ipc2 _) = FrameFormat.tcp
frame_format (tls_tcp _) = FrameFormat.tcp
frame_format (quic _) = FrameFormat.tcp
frame_format (vsock _) = FrameFormat.tcp
frame_format (kcp _) = FrameFormat.tcp

abbrev pub read_tls : (k : Links) → TlsTcpStream k → ℕ → ReadOutcome × TlsTcpStream k
read_tls k (client s) n = let (r, s') = k.client_tls_io.read s n in (r, client s')
read_tls k (server s) n = let (r, s') = k.server_tls_io.read s n in (r, server s')

abbrev pub write_tls : (k : Links) → TlsTcpStream k → List ℕ → WriteOutcome × TlsTcpStream k
write_tls k (client s) buf = let (r, s') = k.client_tls_io.write s buf in (r, client s')
write_tls k (server s) buf = let (r, s') = k.server_tls_io.write s buf in (r, server s')

-- The `flush_each_write` form of `adapt_async_io`: the count of a write whose flush fails is lost.
abbrev pub after_flush : ℕ → Option (Result (Unit {0}) String) → WriteOutcome
after_flush n (some (ok _)) = took n
after_flush n (some (err e)) = WriteOutcome.failed e
after_flush n none = WriteOutcome.pending

abbrev pub after_kcp_write : (k : Links) → WriteOutcome → k.Kcp → WriteOutcome × k.Kcp
after_kcp_write k (took n) c = let (f, c') = k.kcp_flush c in (after_flush n f, c')
after_kcp_write k (WriteOutcome.failed e) c = (WriteOutcome.failed e, c)
after_kcp_write k WriteOutcome.pending c = (WriteOutcome.pending, c)

abbrev pub write_kcp : (k : Links) → KcpStream k → List ℕ → WriteOutcome × KcpStream k
write_kcp k s buf =
    let (r, c) = k.kcp_io.write s.stream buf in
    let (r', c') = after_kcp_write k r c in (r', record s { stream = c' })

-- `EioRead for AnyStream`
abbrev pub read : (k : Links) → AnyStream k → ℕ → ReadOutcome × AnyStream k
read k (tcp s) n = let (r, s') = k.tcp_io.read s n in (r, tcp s')
read k (ipc s) n = let (r, s') = k.unix_io.read s n in (r, ipc s')
read k (ipc2 s) n = let (r, s') = k.unix_io.read s n in (r, ipc2 s')
read k (tls_tcp s) n = let (r, s') = read_tls k s n in (r, tls_tcp s')
read k (quic s) n = let (r, c) = k.quic_read s.recv n in (r, quic (record s { recv = c }))
read k (vsock s) n = let (r, s') = k.vsock_io.read s n in (r, vsock s')
read k (kcp s) n = let (r, c) = k.kcp_io.read s.stream n in (r, kcp (record s { stream = c }))

-- `EioWrite for AnyStream`
abbrev pub write : (k : Links) → AnyStream k → List ℕ → WriteOutcome × AnyStream k
write k (tcp s) buf = let (r, s') = k.tcp_io.write s buf in (r, tcp s')
write k (ipc s) buf = let (r, s') = k.unix_io.write s buf in (r, ipc s')
write k (ipc2 s) buf = let (r, s') = k.unix_io.write s buf in (r, ipc2 s')
write k (tls_tcp s) buf = let (r, s') = write_tls k s buf in (r, tls_tcp s')
write k (quic s) buf = let (r, c) = k.quic_write s.send buf in (r, quic (record s { send = c }))
write k (vsock s) buf = let (r, s') = k.vsock_io.write s buf in (r, vsock s')
write k (kcp s) buf = let (r, s') = write_kcp k s buf in (r, kcp s')

instance abbrev pub any_stream : {k : Links} → Stream (AnyStream k)
any_stream {k} = record { read = read k; write = write k }

pub data AnyTransport (k : Links) : Type 0 where
  framed : FramedTransport (AnyStream k) → AnyTransport k
  ws : WsInner k.WsDial k.WsAccept k.WsAcceptTls → AnyTransport k
  udp : UdpTransport k.Udp k.Addr → AnyTransport k

-- `debug` is the `{:?}` of a text, which lies outside.
unfoldable pub ws_err_to_nng : (debug : String → String) → WsError → NngError
ws_err_to_nng debug WsError.closed = connection_closed
ws_err_to_nng debug (subprotocol_mismatch expected got) = protocol_violation (
    "WebSocket subprotocol mismatch: expected "
    then (debug expected then (", got " then debug got)))
ws_err_to_nng debug (invalid_header s) = protocol_violation ("invalid WebSocket header: " then s)
ws_err_to_nng debug (tungstenite e) = io e
ws_err_to_nng debug (tls s) = io ("TLS error: " then s)

abbrev pub looped_ended :
    {A : Type 0} → (debug : String → String) → Looped (Result A WsError) → Ended A
looped_ended debug (ends r) = returned (map_err (ws_err_to_nng debug) r)
looped_ended debug loops_on = runs_on

module _ {k : Links} (debug : String → String) where
  unfoldable pub send : AnyTransport k → Message → Ended (Unit {0}) × AnyTransport k
  send (framed t) msg = let (o, t') = Framed_send.send t msg in (transport_ended o, framed t')
  send (ws t) msg =
      let (r, t') = Ws.send ⦃wd = k.ws_dial⦄ ⦃wa = k.ws_accept⦄ ⦃wt = k.ws_accept_tls⦄ t msg in
      (looped_ended debug (ends r), ws t')
  send (udp t) msg = let (r, t') = Udp.send ⦃u = k.udp⦄ t msg in (io_ended r, udp t')

  -- `fuel` is for the items that a WebSocket's `recv` skips.
  unfoldable pub recv : ℕ → AnyTransport k → Ended Message × AnyTransport k
  recv fuel (framed t) =
      let (o, t', p) = recv_inner fresh_body t tt in (transport_ended o, framed t')
  recv fuel (ws t) =
      let (r, t') = Ws.recv ⦃wd = k.ws_dial⦄ ⦃wa = k.ws_accept⦄ ⦃wt = k.ws_accept_tls⦄ fuel t in
      (looped_ended debug r, ws t')
  recv fuel (udp t) = let (r, t') = Udp.recv ⦃u = k.udp⦄ t in (io_ended r, udp t')
