-- ===== src/Socket/Any/Listen.antt =====
-- Binding a URL and accepting (src/socket.rs), with the listening helpers of
-- src/transport/quic.rs, kcp.rs and vsock.rs.
pub mod Laws
use nng_core.Prelude.{Option, none, some, Result, err}
use nng_core.Codec.Protocol.{ProtocolId}
use nng_core.Transport.Udp as Udp
use nng_core.Transport.Ws.Upgrade as Upgrade
use nng_core.Socket.Error.{io}
use nng_core.Socket.Call.{Call, give, fail, ◌>>=◌, system}
use nng_core.Socket.Any.{Links, AnyStream, server, QuicStream, AnyTransport}
use nng_core.Socket.Any.Os.{Os, AnyListener, RawConn}
use nng_core.Socket.Any.Connect.{worded, as_framed, as_ws}
use Prim.Native.String.{String}

module _ {k : Links} (os : Os k) (debug : String → String) where
  -- `let _ = remove_file(path)`, then the bind.
  unfoldable pub bind_unix : String → Call os.Net os.UnixListener
  bind_unix path = record { run = λ n. (system (os.unix_bind path)).run (os.remove_file path n) }

  unfoldable pub accept_tcp : os.TcpListener → Call os.Net (AnyStream k)
  accept_tcp l = do
    s ← system (os.tcp_accept l)
    s' ← system (os.set_nodelay s)
    give (AnyStream.tcp s')

  unfoldable pub closed_or :
      Option (Result k.QuicConnection String) → Result k.QuicConnection String
  closed_or (some r) = r
  closed_or none = err "QUIC endpoint closed"

  unfoldable pub accept_conn : k.QuicEndpoint → os.Net → Result k.QuicConnection String × os.Net
  accept_conn endpoint n = let (r, n') = os.quic_accept endpoint n in (closed_or r, n')

  -- `server_stream`
  unfoldable pub server_stream : k.QuicEndpoint → Call os.Net (QuicStream k)
  unfolding accept_conn closed_or
  server_stream endpoint = do
    conn ← system (accept_conn endpoint)
    halves ← system (os.accept_bi conn)
    give (record { conn = conn; endpoint = some endpoint; send = halves.0; recv = halves.1 })

  unfoldable pub accept_kcp : k.KcpListener → Call os.Net (AnyStream k)
  accept_kcp l = do
    s ← system (worded "kcp accept failed: " (os.kcp_accept l))
    give (AnyStream.kcp (record { stream = s; keepalive = some l }))

  unfoldable pub accept_tls_tcp : k.Tcp → os.TlsAcceptor → ProtocolId → Call os.Net (AnyTransport k)
  accept_tls_tcp tcp acceptor proto = do
    tls ← system (os.tls_accept acceptor tcp)
    as_framed os debug (AnyStream.tls_tcp (server tls)) proto

  unfoldable pub accept_ws : k.Tcp → ProtocolId → Call os.Net (AnyTransport k)
  accept_ws tcp proto = as_ws os debug (Upgrade.accept_tcp (os.http none) tcp proto)

  unfoldable pub accept_wss : k.Tcp → os.TlsAcceptor → ProtocolId → Call os.Net (AnyTransport k)
  accept_wss tcp acceptor proto =
      as_ws os debug (Upgrade.accept_tls_with_acceptor (os.http (some acceptor)) tcp proto)

  -- One connection of the kernel's queue, without any handshake.
  unfoldable pub accept_raw : AnyListener k os → Call os.Net (RawConn k os)
  unfolding accept_tcp accept_kcp
  accept_raw (AnyListener.tcp l) = do s ← accept_tcp l; give (RawConn.stream s)
  accept_raw (AnyListener.ipc l) = do
    s ← system (os.unix_accept l)
    give (RawConn.stream (AnyStream.ipc s))
  accept_raw (AnyListener.ipc2 l) = do
    s ← system (os.unix_accept l)
    give (RawConn.stream (AnyStream.ipc2 s))
  accept_raw (AnyListener.ws l) = do tcp ← system (os.tcp_accept l); give (RawConn.ws tcp)
  accept_raw (AnyListener.wss l acceptor) = do
    tcp ← system (os.tcp_accept l)
    give (RawConn.wss tcp acceptor)
  accept_raw (AnyListener.tls_tcp l acceptor) = do
    tcp ← system (os.tcp_accept l)
    give (RawConn.tls_tcp tcp acceptor)
  accept_raw (AnyListener.quic _) =
      fail (io "QUIC listeners do not support non-blocking accept; use accept_as_transport instead")
  accept_raw (AnyListener.vsock l) = do
    s ← system (os.vsock_accept l)
    give (RawConn.stream (AnyStream.vsock s))
  accept_raw (AnyListener.kcp l) = do s ← accept_kcp l; give (RawConn.stream s)

  -- The handshake or the upgrade of such a connection.
  unfoldable pub into_transport : RawConn k os → ProtocolId → Call os.Net (AnyTransport k)
  unfolding accept_ws accept_wss accept_tls_tcp
  into_transport (RawConn.stream s) proto = as_framed os debug s proto
  into_transport (RawConn.ws tcp) proto = accept_ws tcp proto
  into_transport (RawConn.wss tcp acceptor) proto = accept_wss tcp acceptor proto
  into_transport (RawConn.tls_tcp tcp acceptor) proto = accept_tls_tcp tcp acceptor proto

  unfoldable pub accept_as_transport : AnyListener k os → ProtocolId → Call os.Net (AnyTransport k)
  unfolding accept_tcp accept_kcp accept_ws accept_wss accept_tls_tcp
  accept_as_transport (AnyListener.tcp l) proto = do s ← accept_tcp l; as_framed os debug s proto
  accept_as_transport (AnyListener.ipc l) proto = do
    s ← system (os.unix_accept l)
    as_framed os debug (AnyStream.ipc s) proto
  accept_as_transport (AnyListener.ipc2 l) proto = do
    s ← system (os.unix_accept l)
    as_framed os debug (AnyStream.ipc2 s) proto
  accept_as_transport (AnyListener.ws l) proto = do
    tcp ← system (os.tcp_accept l)
    accept_ws tcp proto
  accept_as_transport (AnyListener.wss l acceptor) proto = do
    tcp ← system (os.tcp_accept l)
    accept_wss tcp acceptor proto
  accept_as_transport (AnyListener.tls_tcp l acceptor) proto = do
    tcp ← system (os.tcp_accept l)
    accept_tls_tcp tcp acceptor proto
  accept_as_transport (AnyListener.quic ep) proto = do
    qs ← server_stream ep
    as_framed os debug (AnyStream.quic qs) proto
  accept_as_transport (AnyListener.vsock l) proto = do
    s ← system (os.vsock_accept l)
    as_framed os debug (AnyStream.vsock s) proto
  accept_as_transport (AnyListener.kcp l) proto = do s ← accept_kcp l; as_framed os debug s proto
