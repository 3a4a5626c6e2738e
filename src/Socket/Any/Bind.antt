-- ===== src/Socket/Any/Bind.antt =====
-- `bind_listener`, its kin for TLS and QUIC, `Socket::listen` and its kin (src/socket.rs).

use nng_core.Codec.Protocol.{ProtocolId}
use nng_core.Transport.Udp as Udp
use nng_core.Socket.Error.{io, unsupported_scheme, protocol_violation}
use nng_core.Socket.Raw.{Socket, new}
use nng_core.Socket.Call.{Call, give, fail, ◌>>=◌, system}
use nng_core.Socket.Any.{Links, AnyTransport}
use nng_core.Socket.Any.Address.{on_prefix, before_slash, parse_vsock_addr}
use nng_core.Socket.Any.Os.{Os, Features, AnyListener}
use nng_core.Socket.Any.Connect.{
  when_feature, on_unix, first_or, worded, pure_result, parse_kcp_addr,
}
use nng_core.Socket.Any.Dial.{if_feature}
use nng_core.Socket.Any.Listen.{bind_unix, accept_as_transport}
use Prim.Native.String.{String, ◌++◌}

module _ {k : Links} (os : Os k) (debug : String → String) (features : Features) where
  -- `if let Some(rest) = addr.strip_prefix(…) { … } else { … }`, the other way round: the branches
  -- that answer with an error whatever the rest is.
  abbrev refuse : Call os.Net (AnyListener k os) → String → Call os.Net (AnyListener k os)
  refuse call rest = call

  unfoldable pub bind_tcp :
      (os.TcpListener → AnyListener k os) → String → Call os.Net (AnyListener k os)
  bind_tcp make addr = do l ← system (os.tcp_bind addr); give (make l)

  unfoldable pub bind_ipc :
      (os.UnixListener → AnyListener k os) → String → Call os.Net (AnyListener k os)
  bind_ipc make path = on_unix features.unix (do l ← bind_unix os debug path; give (make l))

  unfoldable pub bind_ws : String → Call os.Net (AnyListener k os)
  unfolding bind_tcp
  bind_ws addr = when_feature features.ws "ws" (bind_tcp AnyListener.ws (before_slash addr))

  -- `bind_vsock_listener`
  unfoldable pub bind_vsock : String → Call os.Net (AnyListener k os)
  bind_vsock addr = when_feature features.vsock "vsock" (do
    parsed ← pure_result (parse_vsock_addr addr)
    l ← system (os.vsock_bind parsed.0 parsed.1)
    give (AnyListener.vsock l))

  unfoldable pub bind_kcp_listener_with : String → os.KcpConfig → Call os.Net k.KcpListener
  bind_kcp_listener_with addr config = do
    socket_addr ← parse_kcp_addr os debug addr
    system (worded "kcp bind failed: " (os.kcp_bind socket_addr config))

  unfoldable pub bind_kcp : String → Call os.Net (AnyListener k os)
  unfolding bind_kcp_listener_with
  bind_kcp addr =
      when_feature features.kcp "kcp"
        (do l ← bind_kcp_listener_with addr os.default_config; give (AnyListener.kcp l))

  unfoldable pub bind_listener : String → Call os.Net (AnyListener k os)
  unfolding bind_tcp bind_ipc bind_ws bind_vsock bind_kcp
  bind_listener addr = on_prefix addr "tcp://" (bind_tcp AnyListener.tcp) (
      on_prefix addr "ipc://" (bind_ipc AnyListener.ipc) (
        on_prefix addr "ipc2://" (bind_ipc AnyListener.ipc2) (
          on_prefix addr "ws://" bind_ws (
            on_prefix addr "wss://"
              (refuse (
                fail (
                  protocol_violation
                    "wss:// requires listen_tls — use listen_tls(addr, cert_pem, key_pem)")))
              (on_prefix addr "tls+tcp://"
                (refuse (
                  fail (
                    protocol_violation
                      "tls+tcp:// requires listen_tls_tcp — use listen_tls_tcp(addr, cert_pem, key_pem)")))
                (on_prefix addr "udp://"
                  (refuse (
                    fail
                      (unsupported_scheme "udp:// is not supported for multi-connection sockets")))
                  (on_prefix addr "quic://"
                    (refuse (
                      fail (
                        protocol_violation
                          "quic:// requires listen_quic — use listen_quic(addr, cert_pem, key_pem)")))
                    (on_prefix addr "vsock://" bind_vsock
                      (on_prefix addr "kcp://" bind_kcp (fail (unsupported_scheme addr)))))))))))

  -- The three that take a certificate. `strip_prefix` without the prefix is an error of theirs.
  unfoldable pub bind_listener_quic :
      String → (cert_pem key_pem : String) → Call os.Net (AnyListener k os)
  bind_listener_quic addr cert_pem key_pem =
      on_prefix addr "quic://"
        (λ rest. do
          let host_port = before_slash rest
          addrs ← system (os.lookup_host host_port)
          socket_addr ← first_or ("could not resolve QUIC bind address: " ++ host_port) addrs
          endpoint ← system (os.quic_server socket_addr cert_pem key_pem)
          give (AnyListener.quic endpoint))
        (fail (io "bind_listener_quic requires a quic:// URL"))

  unfoldable pub bind_listener_tls_tcp :
      String → (cert_pem key_pem : String) → Call os.Net (AnyListener k os)
  bind_listener_tls_tcp addr cert_pem key_pem =
      on_prefix addr "tls+tcp://"
        (λ rest. do
          acceptor ← system (os.build_tls_acceptor cert_pem key_pem)
          l ← system (os.tcp_bind (before_slash rest))
          give (AnyListener.tls_tcp l acceptor))
        (fail (io "bind_listener_tls_tcp requires a tls+tcp:// URL"))

  unfoldable pub bind_listener_tls :
      String → (cert_pem key_pem : String) → Call os.Net (AnyListener k os)
  bind_listener_tls addr cert_pem key_pem =
      on_prefix addr "wss://"
        (λ rest. do
          acceptor ← system (worded "TLS error: " (os.build_tls_acceptor cert_pem key_pem))
          l ← system (os.tcp_bind (before_slash rest))
          give (AnyListener.wss l acceptor))
        (fail (io "bind_listener_tls requires a wss:// URL"))

  -- Bind, accept one connection, and drop the listener.
  unfoldable pub listen_by :
      Call os.Net (AnyListener k os) → ProtocolId → Call os.Net (Socket (AnyTransport k))
  listen_by bind proto = do l ← bind; t ← accept_as_transport os debug l proto; give (new t)

  unfoldable pub listen_udp : String → Call os.Net (Socket (AnyTransport k))
  listen_udp addr = do t ← system (Udp.bind os.udp_net addr); give (new (AnyTransport.udp t))

  unfoldable pub listen : String → ProtocolId → Call os.Net (Socket (AnyTransport k))
  unfolding listen_udp
  listen addr proto =
      if_feature features.udp (on_prefix addr "udp://" listen_udp)
        (listen_by (bind_listener addr) proto)

  unfoldable pub listen_tls_tcp :
      String → ProtocolId → (cert_pem key_pem : String) → Call os.Net (Socket (AnyTransport k))
  listen_tls_tcp addr proto cert_pem key_pem =
      listen_by (bind_listener_tls_tcp addr cert_pem key_pem) proto

  unfoldable pub listen_tls :
      String → ProtocolId → (cert_pem key_pem : String) → Call os.Net (Socket (AnyTransport k))
  listen_tls addr proto cert_pem key_pem = listen_by (bind_listener_tls addr cert_pem key_pem) proto

  unfoldable pub listen_quic :
      String → ProtocolId → (cert_pem key_pem : String) → Call os.Net (Socket (AnyTransport k))
  listen_quic addr proto cert_pem key_pem =
      listen_by (bind_listener_quic addr cert_pem key_pem) proto

  unfoldable pub listen_kcp_with :
      String → ProtocolId → os.KcpConfig → Call os.Net (Socket (AnyTransport k))
  listen_kcp_with addr proto config =
      on_prefix addr "kcp://"
        (λ kcp_addr.
          listen_by (do l ← bind_kcp_listener_with kcp_addr config; give (AnyListener.kcp l)) proto)
        (fail (io "listen_kcp_with requires a kcp:// URL"))
