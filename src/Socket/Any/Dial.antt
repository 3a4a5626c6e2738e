-- ===== src/Socket/Any/Dial.antt =====
-- `connect_stream`, `connect_transport`, `Socket::dial` and their kin (src/socket.rs).
use nng_core.Prelude.{none, Bool, true, false}
use nng_core.Codec.Protocol.{ProtocolId}
use nng_core.Transport.Udp as Udp
use nng_core.Transport.Ws.Upgrade as Upgrade
use nng_core.Socket.Error.{io, unsupported_scheme}
use nng_core.Socket.Reconnect.{ReconnectOptions, default}
use nng_core.Socket.Raw.{Socket, new, new_reconnecting}
use nng_core.Socket.Call.{Call, give, fail, ◌>>=◌, system}
use nng_core.Socket.Any.{Links, AnyStream, AnyTransport}
use nng_core.Socket.Any.Address.{on_prefix}
use nng_core.Socket.Any.Os.{Os, Features}
use nng_core.Socket.Any.Connect.{
  when_feature, on_unix, as_framed, as_ws, connect_quic_stream, connect_quic_stream_with,
  connect_tls_tcp_stream, connect_tls_tcp_stream_with, connect_vsock_stream,
  connect_kcp_stream_with,
}
use Prim.Native.String.{String}

-- Code under a Cargo feature that stands before the rest.
abbrev pub if_feature : {A : Type 0} → Bool → (A → A) → A → A
if_feature true f rest = f rest
if_feature false f rest = rest

module _ {k : Links} (os : Os k) (debug : String → String) (features : Features) where
  unfoldable pub connect_ipc : (k.Unix → AnyStream k) → String → Call os.Net (AnyStream k)
  connect_ipc make path =
      on_unix features.unix (do s ← system (os.unix_connect path); give (make s))

  unfoldable pub connect_tcp : String → Call os.Net (AnyStream k)
  connect_tcp addr = do
    s ← system (os.tcp_connect addr)
    s' ← system (os.set_nodelay s)
    give (AnyStream.tcp s')

  unfoldable pub connect_vsock : String → Call os.Net (AnyStream k)
  connect_vsock addr =
      when_feature features.vsock "vsock"
        (do s ← connect_vsock_stream os debug addr; give (AnyStream.vsock s))

  unfoldable pub connect_kcp : String → Call os.Net (AnyStream k)
  connect_kcp addr = when_feature features.kcp "kcp" (do
    s ← connect_kcp_stream_with os debug addr os.default_config
    give (AnyStream.kcp (record { stream = s; keepalive = none })))

  unfoldable pub connect_stream : String → Call os.Net (AnyStream k)
  unfolding connect_ipc connect_tcp connect_vsock connect_kcp
  connect_stream addr = on_prefix addr "tcp://" connect_tcp (
      on_prefix addr "ipc://" (connect_ipc AnyStream.ipc) (
        on_prefix addr "ipc2://" (connect_ipc AnyStream.ipc2) (
          on_prefix addr "tls+tcp://"
            (λ a. when_feature features.tls_tcp "tls-tcp" (connect_tls_tcp_stream os debug a))
            (on_prefix addr "vsock://" connect_vsock
              (on_prefix addr "kcp://" connect_kcp (fail (unsupported_scheme addr)))))))

  unfoldable pub connect_ws : String → ProtocolId → Call os.Net (AnyTransport k)
  connect_ws addr proto = as_ws os debug (Upgrade.connect (os.http none) addr proto)

  unfoldable pub connect_quic : ProtocolId → String → Call os.Net (AnyTransport k)
  connect_quic proto addr = do
    stream ← connect_quic_stream os debug addr
    as_framed os debug stream proto

  unfoldable pub connect_any : String → ProtocolId → Call os.Net (AnyTransport k)
  connect_any addr proto = do stream ← connect_stream addr; as_framed os debug stream proto

  unfoldable pub connect_transport : String → ProtocolId → Call os.Net (AnyTransport k)
  unfolding connect_ws connect_quic connect_any
  connect_transport addr proto =
      if_feature features.ws (on_prefix addr "ws://" (λ a. connect_ws addr proto)) (
        if_feature features.wss (on_prefix addr "wss://" (λ a. connect_ws addr proto)) (
          if_feature features.quic (on_prefix addr "quic://" (connect_quic proto))
            (connect_any addr proto)))

  unfoldable pub dial_udp : String → Call os.Net (Socket (AnyTransport k))
  dial_udp addr = do t ← system (Udp.connect os.udp_net addr); give (new (AnyTransport.udp t))

  unfoldable pub dial_other : String → ProtocolId → Call os.Net (Socket (AnyTransport k))
  dial_other addr proto = do t ← connect_transport addr proto; give (new t)

  unfoldable pub dial : String → ProtocolId → Call os.Net (Socket (AnyTransport k))
  unfolding dial_udp dial_other
  dial addr proto =
      if_feature features.udp (on_prefix addr "udp://" dial_udp) (dial_other addr proto)

  unfoldable pub dial_with_reconnect :
      String → ProtocolId → ReconnectOptions → Call os.Net (Socket (AnyTransport k))
  dial_with_reconnect addr proto opts = do
    t ← connect_transport addr proto
    give (new_reconnecting t opts)

  unfoldable pub dial_reconnecting : String → ProtocolId → Call os.Net (Socket (AnyTransport k))
  unfolding dial_with_reconnect
  dial_reconnecting addr proto = dial_with_reconnect addr proto default

  unfoldable pub dial_tls_tcp :
      String → ProtocolId → os.TlsConnector → Call os.Net (Socket (AnyTransport k))
  dial_tls_tcp addr proto connector =
      on_prefix addr "tls+tcp://"
        (λ host_port. do
          stream ← connect_tls_tcp_stream_with os debug host_port connector
          t ← as_framed os debug stream proto
          give (new t))
        (fail (io "dial_tls_tcp requires a tls+tcp:// URL"))

  -- `dial_quic`, with quinn's client configuration as `build_custom_client_config` makes it.
  unfoldable pub dial_quic :
      String → ProtocolId → os.QuicConfig → Call os.Net (Socket (AnyTransport k))
  dial_quic addr proto config =
      on_prefix addr "quic://"
        (λ host_port. do
          stream ← connect_quic_stream_with os debug host_port config
          t ← as_framed os debug stream proto
          give (new t))
        (fail (io "dial_quic requires a quic:// URL"))

  unfoldable pub dial_kcp_with :
      String → ProtocolId → os.KcpConfig → Call os.Net (Socket (AnyTransport k))
  dial_kcp_with addr proto config =
      on_prefix addr "kcp://"
        (λ kcp_addr. do
          s ← connect_kcp_stream_with os debug kcp_addr config
          t ← as_framed os debug (AnyStream.kcp (record { stream = s; keepalive = none })) proto
          give (new t))
        (fail (io "dial_kcp_with requires a kcp:// URL"))
