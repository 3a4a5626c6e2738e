-- ===== src/Socket/Any/Connect.antt =====
-- Dialling a URL (src/socket.rs), with the dialling helpers of src/transport/quic.rs, kcp.rs and
-- vsock.rs.
use nng_core.Prelude.{
  List, [], ◌∷◌, Option, none, some, Bool, true, false, Result, ok, err, map_err,
}
use nng_core.Codec.Protocol.{ProtocolId}
use nng_core.Transport.Framed.{FramedTransport}
use nng_core.Transport.Framed.Send as Framed_send
use nng_core.Transport.Ws.{WsError, WsInner}
use nng_core.Socket.Error.{NngError, io, feature_not_enabled}
use nng_core.Socket.Call.{returned, Call, give, fail, ◌>>=◌, system, transport_ended}
use nng_core.Socket.Any.{
  Links, AnyStream, client, QuicStream, any_stream, frame_format, AnyTransport, ws_err_to_nng,
}
use nng_core.Socket.Any.Address.{before_slash, host_of, parse_vsock_addr}
use nng_core.Socket.Any.Os.{Os}
use Prim.Native.String.{String, ◌++◌}

-- Code under a Cargo feature, and what stands there without it.
abbrev pub when_feature : {N A : Type 0} → Bool → String → Call N A → Call N A
when_feature true name call = call
when_feature false name call = fail (feature_not_enabled name)

abbrev pub no_ipc : {N A : Type 0} → Call N A
no_ipc = fail (io "IPC (Unix domain sockets) is not supported on this platform")

-- `#[cfg(unix)]`, and the stub of the other platforms.
abbrev pub on_unix : {N A : Type 0} → Bool → Call N A → Call N A
on_unix true call = call
on_unix false call = no_ipc

-- `next().ok_or_else(…)` of the resolved addresses
abbrev pub first_or : {N A : Type 0} → String → List A → Call N A
first_or text [] = fail (io text)
first_or text (a ∷ _) = give a

-- An error that the program words itself.
abbrev pub worded : {N A : Type 0} → String → (N → Result A String × N) → (N → Result A String × N)
worded text op n = let (r, n') = op n in (map_err (λ e. text ++ e) r, n')

abbrev pub pure_result : {N A : Type 0} → Result A String → Call N A
pure_result (ok a) = give a
pure_result (err e) = fail (io e)

module _ {k : Links} (os : Os k) (debug : String → String) where
  unfoldable pub connect_framed :
      AnyStream k → ProtocolId → Call os.Net (FramedTransport (AnyStream k))
  connect_framed stream proto = record {
    run = λ n.
        let (o, stream') = Framed_send.connect stream proto (frame_format stream) in
        (transport_ended o, n);
  }

  unfoldable pub as_framed : AnyStream k → ProtocolId → Call os.Net (AnyTransport k)
  as_framed stream proto = do t ← connect_framed stream proto; give (AnyTransport.framed t)

  -- `.map(AnyTransport::Ws).map_err(ws_err_to_nng)`
  unfoldable pub as_ws_result :
      Result (WsInner k.WsDial k.WsAccept k.WsAcceptTls) WsError → Result (AnyTransport k) NngError
  as_ws_result (ok w) = ok (AnyTransport.ws w)
  as_ws_result (err e) = err (ws_err_to_nng debug e)

  unfoldable pub as_ws :
      (os.Net → Result (WsInner k.WsDial k.WsAccept k.WsAcceptTls) WsError × os.Net)
      → Call os.Net (AnyTransport k)
  as_ws op = record { run = λ n. let (r, n') = op n in (returned (as_ws_result r), n') }

  -- `client_stream`
  unfoldable pub client_stream : k.QuicEndpoint → k.Addr → String → Call os.Net (QuicStream k)
  client_stream endpoint peer sni = do
    conn ← system (os.quic_connect endpoint peer sni)
    halves ← system (os.open_bi conn)
    give (record { conn = conn; endpoint = some endpoint; send = halves.0; recv = halves.1 })

  unfoldable pub connect_quic_stream_with : String → os.QuicConfig → Call os.Net (AnyStream k)
  connect_quic_stream_with host_port client_config = do
    let addr = before_slash host_port
    addrs ← system (os.lookup_host addr)
    peer ← first_or ("could not resolve QUIC address: " ++ addr) addrs
    let host = host_of addr
    endpoint ← system (os.quic_client peer client_config)
    qs ← client_stream endpoint peer host
    give (AnyStream.quic qs)

  unfoldable pub connect_quic_stream : String → Call os.Net (AnyStream k)
  connect_quic_stream host_port = do
    client_config ← system os.native_config
    connect_quic_stream_with host_port client_config

  unfoldable pub connect_tls_tcp_stream_with : String → os.TlsConnector → Call os.Net (AnyStream k)
  connect_tls_tcp_stream_with host_port connector = do
    let addr = before_slash host_port
    let host = host_of addr
    server_name ← named host (os.server_name host)
    tcp ← system (os.tcp_connect addr)
    tls ← system (os.tls_connect connector server_name tcp)
    give (AnyStream.tls_tcp (client tls))
    where
      named : String → Option os.ServerName → Call os.Net os.ServerName
      named host (some name) = give name
      named host none = fail (io ("invalid TLS server name: " ++ host))

  unfoldable pub connect_tls_tcp_stream : String → Call os.Net (AnyStream k)
  connect_tls_tcp_stream host_port = do
    connector ← system os.build_tls_connector
    connect_tls_tcp_stream_with host_port connector

  unfoldable pub connect_vsock_stream : String → Call os.Net k.Vsock
  connect_vsock_stream addr = do
    parsed ← pure_result (parse_vsock_addr addr)
    system (os.vsock_connect parsed.0 parsed.1)

  unfoldable pub parse_kcp_addr : String → Call os.Net k.Addr
  parse_kcp_addr s = do
    let host_port = before_slash s
    addrs ← system (os.lookup_host host_port)
    first_or ("could not resolve KCP address: " ++ host_port) addrs

  unfoldable pub connect_kcp_stream_with : String → os.KcpConfig → Call os.Net k.Kcp
  connect_kcp_stream_with addr config = do
    socket_addr ← parse_kcp_addr addr
    system (worded "kcp connect failed: " (os.kcp_connect socket_addr config))
