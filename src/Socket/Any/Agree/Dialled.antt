-- ===== src/Socket/Any/Agree/Dialled.antt =====
-- What dialling a URL gives.
use nng_core.Prelude.{refl, ◌≡◌, none, some}
use nng_core.Codec.Protocol.{ProtocolId}
use nng_core.Socket.Raw.{Socket, new}
use nng_core.Socket.Call.{Call}
use nng_core.Socket.Call.Laws.{Gives, >>=-Gives, then-Gives, give-Gives, fail-Gives, weaken-Gives}
use nng_core.Socket.Any.{Links, client, AnyStream, AnyTransport}
use nng_core.Socket.Any.Address.{strip_prefix}
use nng_core.Socket.Any.Os.{Os, Features}
use nng_core.Socket.Any.Connect.{
  connect_quic_stream, connect_quic_stream_with, connect_tls_tcp_stream,
  connect_tls_tcp_stream_with,
}
use nng_core.Socket.Any.Dial.{
  connect_ipc, connect_tcp, connect_vsock, connect_kcp, connect_stream, connect_ws, connect_quic,
  connect_any, connect_transport, dial_udp, dial_other, dial,
}
use nng_core.Socket.Any.Schemes.{
  Scheme, tcp, ipc, ipc2, ws, wss, tls_tcp, udp, quic, vsock, kcp, HasScheme, over_ws, kind_for,
  format_for,
}
use nng_core.Socket.Any.Agree.{
  IsStreamOf, IsTransportOf, IsFor, as_framed-Gives, as_ws-Gives, on_prefix-Gives,
  when_feature-Gives, on_unix-Gives, feature_prefix-Gives,
}
use Prim.Native.String.{String}

module _ {k : Links} (os : Os k) (debug : String → String) (features : Features) where
  connect_tls-Gives :
      (addr : String) → Gives (connect_tls_tcp_stream os debug addr) (IsStreamOf {k = k} tls_tcp)
  unfolding connect_tls_tcp_stream connect_tls_tcp_stream_with
  connect_tls-Gives addr = then-Gives (IsStreamOf {k = k} tls_tcp) _ _ (λ connector.
      then-Gives (IsStreamOf {k = k} tls_tcp) _ _ (λ name.
        then-Gives (IsStreamOf {k = k} tls_tcp) _ _ (λ t.
          then-Gives (IsStreamOf {k = k} tls_tcp) _ _ (λ tls.
            give-Gives (IsStreamOf {k = k} tls_tcp) (AnyStream.tls_tcp (client tls))
              (refl, refl)))))

  connect_quic-Gives :
      (addr : String) → Gives (connect_quic_stream os debug addr) (IsStreamOf {k = k} quic)
  unfolding connect_quic_stream connect_quic_stream_with
  connect_quic-Gives addr = then-Gives (IsStreamOf {k = k} quic) _ _ (λ config.
      then-Gives (IsStreamOf {k = k} quic) _ _ (λ addrs.
        then-Gives (IsStreamOf {k = k} quic) _ _ (λ peer.
          then-Gives (IsStreamOf {k = k} quic) _ _ (λ endpoint.
            then-Gives (IsStreamOf {k = k} quic) _ _
              (λ qs. give-Gives (IsStreamOf {k = k} quic) (AnyStream.quic qs) (refl, refl))))))

  connect_tcp-Gives :
      (addr : String) → Gives (connect_tcp os debug features addr) (IsStreamOf {k = k} tcp)
  unfolding connect_tcp
  connect_tcp-Gives addr = then-Gives (IsStreamOf {k = k} tcp) _ _ (λ s.
      then-Gives (IsStreamOf {k = k} tcp) _ _
        (λ s'. give-Gives (IsStreamOf {k = k} tcp) (AnyStream.tcp s') (refl, refl)))

  connect_ipc-Gives :
      (scheme : Scheme) (make : k.Unix → AnyStream k) (path : String)
      → ((s : k.Unix) → IsStreamOf {k = k} scheme (make s))
      → Gives (connect_ipc os debug features make path) (IsStreamOf {k = k} scheme)
  unfolding connect_ipc
  connect_ipc-Gives scheme make path h = on_unix-Gives (IsStreamOf {k = k} scheme) features.unix _ (
      then-Gives (IsStreamOf {k = k} scheme) _ _
        (λ s. give-Gives (IsStreamOf {k = k} scheme) (make s) (h s)))

  connect_vsock-Gives :
      (addr : String) → Gives (connect_vsock os debug features addr) (IsStreamOf {k = k} vsock)
  unfolding connect_vsock
  connect_vsock-Gives addr =
      when_feature-Gives (IsStreamOf {k = k} vsock) features.vsock "vsock" _ (
        then-Gives (IsStreamOf {k = k} vsock) _ _
          (λ s. give-Gives (IsStreamOf {k = k} vsock) (AnyStream.vsock s) (refl, refl)))

  connect_kcp-Gives :
      (addr : String) → Gives (connect_kcp os debug features addr) (IsStreamOf {k = k} kcp)
  unfolding connect_kcp
  connect_kcp-Gives addr = when_feature-Gives (IsStreamOf {k = k} kcp) features.kcp "kcp" _ (
      then-Gives (IsStreamOf {k = k} kcp) _ _ (λ s.
        give-Gives (IsStreamOf {k = k} kcp)
          (AnyStream.kcp (record { stream = s; keepalive = none })) (refl, refl)))

  -- The stream is what the URL's scheme names.
  abbrev IsStreamFor : String → AnyStream k → Type 0
  IsStreamFor addr x = (s : Scheme) × HasScheme addr s × IsStreamOf {k = k} s x

  named-Gives :
      (addr : String) (s : Scheme) (c : Call os.Net (AnyStream k))
      → HasScheme addr s
      → Gives c (IsStreamOf {k = k} s)
      → Gives c (IsStreamFor addr)
  named-Gives addr s c e g = weaken-Gives _ _ c g (λ x h. (s, e, h))

  connect_stream-Gives :
      (addr : String) → Gives (connect_stream os debug features addr) (IsStreamFor addr)
  unfolding connect_stream
  connect_stream-Gives addr =
      on_prefix-Gives (IsStreamFor addr) addr "tcp://" _ _
        (λ r e. named-Gives addr tcp _ (r, e) (connect_tcp-Gives r))
        (on_prefix-Gives (IsStreamFor addr) addr "ipc://" _ _
          (λ r e.
            named-Gives addr ipc _ (r, e)
              (connect_ipc-Gives ipc AnyStream.ipc r (λ s. (refl, refl))))
          (on_prefix-Gives (IsStreamFor addr) addr "ipc2://" _ _
            (λ r e.
              named-Gives addr ipc2 _ (r, e)
                (connect_ipc-Gives ipc2 AnyStream.ipc2 r (λ s. (refl, refl))))
            (on_prefix-Gives (IsStreamFor addr) addr "tls+tcp://" _ _
              (λ r e.
                named-Gives addr tls_tcp _ (r, e)
                  (when_feature-Gives (IsStreamOf {k = k} tls_tcp) features.tls_tcp "tls-tcp" _
                    (connect_tls-Gives r)))
              (on_prefix-Gives (IsStreamFor addr) addr "vsock://" _ _
                (λ r e. named-Gives addr vsock _ (r, e) (connect_vsock-Gives r))
                (on_prefix-Gives (IsStreamFor addr) addr "kcp://" _ _
                  (λ r e. named-Gives addr kcp _ (r, e) (connect_kcp-Gives r))
                  (fail-Gives (IsStreamFor addr) _))))))

  IsFor-Gives :
      (addr : String) (s : Scheme) (c : Call os.Net (AnyTransport k))
      → HasScheme addr s
      → Gives c (IsTransportOf {k = k} s)
      → Gives c (IsFor {k = k} addr)
  IsFor-Gives addr s c e g = weaken-Gives _ _ c g (λ x h. (s, e, h))

  connect_any-Gives :
      (addr : String) (proto : ProtocolId)
      → Gives (connect_any os debug features addr proto) (IsFor {k = k} addr)
  unfolding connect_any
  connect_any-Gives addr proto =
      >>=-Gives (IsStreamFor addr) (IsFor {k = k} addr) _ _ (connect_stream-Gives addr)
        (λ x h. IsFor-Gives addr h.0 _ h.1 (as_framed-Gives os debug h.0 x proto h.2))

  connect_ws-Gives :
      (s : Scheme) (addr : String) (proto : ProtocolId)
      → over_ws ≡ kind_for s
      → none ≡ format_for s
      → Gives (connect_ws os debug features addr proto) (IsTransportOf {k = k} s)
  unfolding connect_ws
  connect_ws-Gives s addr proto e f = as_ws-Gives os debug s e f _

  connect_over_quic-Gives :
      (proto : ProtocolId) (addr : String)
      → Gives (connect_quic os debug features proto addr) (IsTransportOf {k = k} quic)
  unfolding connect_quic
  connect_over_quic-Gives proto addr =
      >>=-Gives (IsStreamOf {k = k} quic) (IsTransportOf {k = k} quic) _ _ (connect_quic-Gives addr)
        (λ x h. as_framed-Gives os debug quic x proto h)

  pub connect_transport-Gives :
      (addr : String) (proto : ProtocolId)
      → Gives (connect_transport os debug features addr proto) (IsFor {k = k} addr)
  unfolding connect_transport
  connect_transport-Gives addr proto =
      feature_prefix-Gives (IsFor {k = k} addr) features.ws addr "ws://" _ _
        (λ r e. IsFor-Gives addr ws _ (r, e) (connect_ws-Gives ws addr proto refl refl))
        (feature_prefix-Gives (IsFor {k = k} addr) features.wss addr "wss://" _ _
          (λ r e. IsFor-Gives addr wss _ (r, e) (connect_ws-Gives wss addr proto refl refl))
          (feature_prefix-Gives (IsFor {k = k} addr) features.quic addr "quic://" _ _
            (λ r e. IsFor-Gives addr quic _ (r, e) (connect_over_quic-Gives proto r))
            (connect_any-Gives addr proto)))

  dial_udp-Gives :
      (addr rest : String)
      → strip_prefix addr "udp://" ≡ some rest
      → Gives (dial_udp os debug features rest) (λ s. IsFor addr s.transport)
  unfolding dial_udp
  dial_udp-Gives addr rest e =
      then-Gives (λ (s : Socket (AnyTransport k)). IsFor addr s.transport) _ _
        (λ t.
          give-Gives (λ (s : Socket (AnyTransport k)). IsFor addr s.transport)
            (new (AnyTransport.udp t)) (udp, (rest, e), (refl, refl)))

  pub dial-Gives :
      (addr : String) (proto : ProtocolId)
      → Gives (dial os debug features addr proto) (λ s. IsFor addr s.transport)
  unfolding dial dial_other
  dial-Gives addr proto =
      feature_prefix-Gives (λ (s : Socket (AnyTransport k)). IsFor addr s.transport) features.udp
        addr "udp://" _ _ (dial_udp-Gives addr)
        (>>=-Gives (IsFor {k = k} addr) (λ (s : Socket (AnyTransport k)). IsFor addr s.transport) _
          _ (connect_transport-Gives addr proto)
          (λ t h. give-Gives (λ (s : Socket (AnyTransport k)). IsFor addr s.transport) (new t) h))
