-- ===== src/Socket/Any/Agree/Accepted.antt =====
-- What listening on a URL gives.
use nng_core.Prelude.{refl, ◌≡◌, some}
use nng_core.Codec.Protocol.{ProtocolId}
use nng_core.Socket.Raw.{Socket, new}
use nng_core.Socket.Call.{Call}
use nng_core.Socket.Call.Laws.{Gives, >>=-Gives, then-Gives, give-Gives, fail-Gives}
use nng_core.Socket.Any.{Links, AnyStream, server, AnyTransport}
use nng_core.Socket.Any.Address.{strip_prefix, on_prefix}
use nng_core.Socket.Any.Os.{Os, Features, AnyListener}
use nng_core.Socket.Any.Listen.{
  accept_tcp, accept_kcp, accept_tls_tcp, accept_ws, accept_wss, accept_as_transport,
}
use nng_core.Socket.Any.Bind.{
  bind_tcp, bind_ipc, bind_ws, bind_vsock, bind_kcp, bind_listener, listen_by, listen_udp, listen,
}
use nng_core.Socket.Any.Schemes.{
  Scheme, tcp, ipc, ipc2, ws, wss, tls_tcp, udp, quic, vsock, kcp, HasScheme,
}
use nng_core.Socket.Any.Agree.{
  IsStreamOf, IsTransportOf, IsFor, as_framed-Gives, as_ws-Gives, on_prefix-Gives,
  when_feature-Gives, on_unix-Gives, feature_prefix-Gives,
}
use Prim.Native.String.{String}

abbrev pub scheme_of : {k : Links} {os : Os k} → AnyListener k os → Scheme
scheme_of (AnyListener.tcp _) = tcp
scheme_of (AnyListener.ipc _) = ipc
scheme_of (AnyListener.ipc2 _) = ipc2
scheme_of (AnyListener.ws _) = ws
scheme_of (AnyListener.wss _ _) = wss
scheme_of (AnyListener.tls_tcp _ _) = tls_tcp
scheme_of (AnyListener.quic _) = quic
scheme_of (AnyListener.vsock _) = vsock
scheme_of (AnyListener.kcp _) = kcp

-- The listener is for the scheme of the URL.
abbrev pub IsListenerFor : {k : Links} {os : Os k} → String → AnyListener k os → Type 0
IsListenerFor addr l = HasScheme addr (scheme_of l)

module _ {k : Links} (os : Os k) (debug : String → String) where
  pub accept_tcp-Gives :
      (l : os.TcpListener) → Gives (accept_tcp os debug l) (IsStreamOf {k = k} tcp)
  unfolding accept_tcp
  accept_tcp-Gives l = then-Gives (IsStreamOf {k = k} tcp) _ _ (λ s.
      then-Gives (IsStreamOf {k = k} tcp) _ _
        (λ s'. give-Gives (IsStreamOf {k = k} tcp) (AnyStream.tcp s') (refl, refl)))

  pub accept_kcp-Gives :
      (l : k.KcpListener) → Gives (accept_kcp os debug l) (IsStreamOf {k = k} kcp)
  unfolding accept_kcp
  accept_kcp-Gives l = then-Gives (IsStreamOf {k = k} kcp) _ _ (λ s.
      give-Gives (IsStreamOf {k = k} kcp)
        (AnyStream.kcp (record { stream = s; keepalive = some l })) (refl, refl))

  pub accept_ws-Gives :
      (c : k.Tcp) (proto : ProtocolId)
      → Gives (accept_ws os debug c proto) (IsTransportOf {k = k} ws)
  unfolding accept_ws
  accept_ws-Gives c proto = as_ws-Gives os debug ws refl refl _

  pub accept_wss-Gives :
      (c : k.Tcp) (acceptor : os.TlsAcceptor) (proto : ProtocolId)
      → Gives (accept_wss os debug c acceptor proto) (IsTransportOf {k = k} wss)
  unfolding accept_wss
  accept_wss-Gives c acceptor proto = as_ws-Gives os debug wss refl refl _

  pub accept_tls_tcp-Gives :
      (c : k.Tcp) (acceptor : os.TlsAcceptor) (proto : ProtocolId)
      → Gives (accept_tls_tcp os debug c acceptor proto) (IsTransportOf {k = k} tls_tcp)
  unfolding accept_tls_tcp
  accept_tls_tcp-Gives c acceptor proto =
      then-Gives (IsTransportOf {k = k} tls_tcp) _ _ (λ tls.
        as_framed-Gives os debug tls_tcp (AnyStream.tls_tcp (server tls)) proto (refl, refl))

  pub accept_as_transport-Gives :
      (l : AnyListener k os) (proto : ProtocolId)
      → Gives (accept_as_transport os debug l proto) (IsTransportOf {k = k} (scheme_of l))
  unfolding accept_as_transport
  accept_as_transport-Gives (AnyListener.tcp l) proto =
      >>=-Gives (IsStreamOf {k = k} tcp) (IsTransportOf {k = k} tcp) _ _ (accept_tcp-Gives l)
        (λ s h. as_framed-Gives os debug tcp s proto h)
  accept_as_transport-Gives (AnyListener.ipc l) proto =
      then-Gives (IsTransportOf {k = k} ipc) _ _
        (λ s. as_framed-Gives os debug ipc (AnyStream.ipc s) proto (refl, refl))
  accept_as_transport-Gives (AnyListener.ipc2 l) proto =
      then-Gives (IsTransportOf {k = k} ipc2) _ _
        (λ s. as_framed-Gives os debug ipc2 (AnyStream.ipc2 s) proto (refl, refl))
  accept_as_transport-Gives (AnyListener.ws l) proto =
      then-Gives (IsTransportOf {k = k} ws) _ _ (λ c. accept_ws-Gives c proto)
  accept_as_transport-Gives (AnyListener.wss l acceptor) proto =
      then-Gives (IsTransportOf {k = k} wss) _ _ (λ c. accept_wss-Gives c acceptor proto)
  accept_as_transport-Gives (AnyListener.tls_tcp l acceptor) proto =
      then-Gives (IsTransportOf {k = k} tls_tcp) _ _ (λ c. accept_tls_tcp-Gives c acceptor proto)
  accept_as_transport-Gives (AnyListener.quic ep) proto =
      then-Gives (IsTransportOf {k = k} quic) _ _
        (λ qs. as_framed-Gives os debug quic (AnyStream.quic qs) proto (refl, refl))
  accept_as_transport-Gives (AnyListener.vsock l) proto =
      then-Gives (IsTransportOf {k = k} vsock) _ _
        (λ s. as_framed-Gives os debug vsock (AnyStream.vsock s) proto (refl, refl))
  accept_as_transport-Gives (AnyListener.kcp l) proto =
      >>=-Gives (IsStreamOf {k = k} kcp) (IsTransportOf {k = k} kcp) _ _ (accept_kcp-Gives l)
        (λ s h. as_framed-Gives os debug kcp s proto h)

  module _ (features : Features) (addr rest : String) where
    bind_tcp-Gives :
        (make : os.TcpListener → AnyListener k os) (a : String)
        → ((l : os.TcpListener) → IsListenerFor {os = os} addr (make l))
        → Gives (bind_tcp os debug features make a) (IsListenerFor {os = os} addr)
    unfolding bind_tcp
    bind_tcp-Gives make a h =
        then-Gives (IsListenerFor {os = os} addr) _ _
          (λ l. give-Gives (IsListenerFor {os = os} addr) (make l) (h l))

    bind_ipc-Gives :
        (make : os.UnixListener → AnyListener k os) (a : String)
        → ((l : os.UnixListener) → IsListenerFor {os = os} addr (make l))
        → Gives (bind_ipc os debug features make a) (IsListenerFor {os = os} addr)
    unfolding bind_ipc
    bind_ipc-Gives make a h = on_unix-Gives (IsListenerFor {os = os} addr) features.unix _ (
        then-Gives (IsListenerFor {os = os} addr) _ _
          (λ l. give-Gives (IsListenerFor {os = os} addr) (make l) (h l)))

    bind_ws-Gives :
        strip_prefix addr "ws://" ≡ some rest
        → Gives (bind_ws os debug features rest) (IsListenerFor {os = os} addr)
    unfolding bind_ws
    bind_ws-Gives e =
        when_feature-Gives (IsListenerFor {os = os} addr) features.ws "ws" _
          (bind_tcp-Gives AnyListener.ws _ (λ l. (rest, e)))

    bind_vsock-Gives :
        strip_prefix addr "vsock://" ≡ some rest
        → Gives (bind_vsock os debug features rest) (IsListenerFor {os = os} addr)
    unfolding bind_vsock
    bind_vsock-Gives e =
        when_feature-Gives (IsListenerFor {os = os} addr) features.vsock "vsock" _ (
          then-Gives (IsListenerFor {os = os} addr) _ _ (λ parsed.
            then-Gives (IsListenerFor {os = os} addr) _ _
              (λ l. give-Gives (IsListenerFor {os = os} addr) (AnyListener.vsock l) (rest, e))))

    bind_kcp-Gives :
        strip_prefix addr "kcp://" ≡ some rest
        → Gives (bind_kcp os debug features rest) (IsListenerFor {os = os} addr)
    unfolding bind_kcp
    bind_kcp-Gives e = when_feature-Gives (IsListenerFor {os = os} addr) features.kcp "kcp" _ (
        then-Gives (IsListenerFor {os = os} addr) _ _
          (λ l. give-Gives (IsListenerFor {os = os} addr) (AnyListener.kcp l) (rest, e)))

module _ {k : Links} (os : Os k) (debug : String → String) (features : Features) where
  on-Gives :
      (addr prefix : String) (f : String → Call os.Net (AnyListener k os))
      (other : Call os.Net (AnyListener k os))
      → ((r : String) → strip_prefix addr prefix ≡ some r → Gives (f r) (IsListenerFor addr))
      → Gives other (IsListenerFor addr)
      → Gives (on_prefix addr prefix f other) (IsListenerFor addr)
  on-Gives addr prefix f other h g = on_prefix-Gives (IsListenerFor addr) addr prefix f other h g

  pub bind_listener-Gives :
      (addr : String) → Gives (bind_listener os debug features addr) (IsListenerFor addr)
  unfolding bind_listener
  bind_listener-Gives addr =
      on-Gives addr "tcp://" _ _
        (λ r e. bind_tcp-Gives os debug features addr r AnyListener.tcp r (λ l. (r, e)))
        (on-Gives addr "ipc://" _ _
          (λ r e. bind_ipc-Gives os debug features addr r AnyListener.ipc r (λ l. (r, e)))
          (on-Gives addr "ipc2://" _ _
            (λ r e. bind_ipc-Gives os debug features addr r AnyListener.ipc2 r (λ l. (r, e)))
            (on-Gives addr "ws://" _ _ (bind_ws-Gives os debug features addr) (
              on-Gives addr "wss://" _ _ (λ r e. fail-Gives (IsListenerFor addr) _)
                (on-Gives addr "tls+tcp://" _ _ (λ r e. fail-Gives (IsListenerFor addr) _)
                  (on-Gives addr "udp://" _ _ (λ r e. fail-Gives (IsListenerFor addr) _)
                    (on-Gives addr "quic://" _ _ (λ r e. fail-Gives (IsListenerFor addr) _)
                      (on-Gives addr "vsock://" _ _ (bind_vsock-Gives os debug features addr) (
                        on-Gives addr "kcp://" _ _ (bind_kcp-Gives os debug features addr)
                          (fail-Gives (IsListenerFor addr) _))))))))))

  -- What a listener for the URL accepts.
  listen_by-Gives :
      (addr : String) (bind : Call os.Net (AnyListener k os)) (proto : ProtocolId)
      → Gives bind (IsListenerFor addr)
      → Gives (listen_by os debug features bind proto) (λ s. IsFor addr s.transport)
  unfolding listen_by
  listen_by-Gives addr bind proto g =
      >>=-Gives (IsListenerFor {os = os} addr)
        (λ (s : Socket (AnyTransport k)). IsFor addr s.transport) _ _ g
        (λ l h.
          >>=-Gives (IsTransportOf {k = k} (scheme_of l))
            (λ (s : Socket (AnyTransport k)). IsFor addr s.transport) _ _
            (accept_as_transport-Gives os debug l proto)
            (λ t i.
              give-Gives (λ (s : Socket (AnyTransport k)). IsFor addr s.transport) (new t)
                (scheme_of l, h, i)))

  listen_udp-Gives :
      (addr rest : String)
      → strip_prefix addr "udp://" ≡ some rest
      → Gives (listen_udp os debug features rest) (λ s. IsFor addr s.transport)
  unfolding listen_udp
  listen_udp-Gives addr rest e =
      then-Gives (λ (s : Socket (AnyTransport k)). IsFor addr s.transport) _ _
        (λ t.
          give-Gives (λ (s : Socket (AnyTransport k)). IsFor addr s.transport)
            (new (AnyTransport.udp t)) (udp, (rest, e), (refl, refl)))

  pub listen-Gives :
      (addr : String) (proto : ProtocolId)
      → Gives (listen os debug features addr proto) (λ s. IsFor addr s.transport)
  unfolding listen
  listen-Gives addr proto =
      feature_prefix-Gives (λ (s : Socket (AnyTransport k)). IsFor addr s.transport) features.udp
        addr "udp://" _ _ (listen_udp-Gives addr)
        (listen_by-Gives addr _ proto (bind_listener-Gives addr))
