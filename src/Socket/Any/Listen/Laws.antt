-- ===== src/Socket/Any/Listen/Laws.antt =====
-- The two ways to accept a connection.
use nng_core.Prelude.{◌≡◌}
use nng_core.Codec.Protocol.{ProtocolId}
use nng_core.Socket.Call.{◌>>=◌, system}
use nng_core.Socket.Call.Laws.{>>=_assoc}
use nng_core.Socket.Any.{Links}
use nng_core.Socket.Any.Os.{Os, AnyListener}
use nng_core.Socket.Any.Connect.{as_framed}
use nng_core.Socket.Any.Listen.{
  accept_tcp, accept_kcp, accept_raw, into_transport, accept_as_transport,
}
use Prim.Native.String.{String}

-- Any listener but one for QUIC.
abbrev pub IsRawListener : {k : Links} {os : Os k} → AnyListener k os → Type 0
IsRawListener (AnyListener.quic ep) = ⊥
IsRawListener _ = Unit {0}

-- For every listener but a QUIC one, accept_raw followed by into_transport runs as
-- accept_as_transport does: the same outcome and the same effect on the network.
pub accept_raw-into_transport :
    {k : Links} (os : Os k) (debug : String → String) (l : AnyListener k os) (proto : ProtocolId)
    (n : os.Net)
    → IsRawListener l
    → (accept_raw os debug l >>= (λ raw. into_transport os debug raw proto)).run n
      ≡ (accept_as_transport os debug l proto).run n
unfolding accept_raw into_transport accept_as_transport accept_tcp accept_kcp as_framed ◌>>=◌
accept_raw-into_transport os debug (AnyListener.tcp l) proto n h =
    >>=_assoc (accept_tcp os debug l) _ _ n
accept_raw-into_transport os debug (AnyListener.ipc l) proto n h =
    >>=_assoc (system (os.unix_accept l)) _ _ n
accept_raw-into_transport os debug (AnyListener.ipc2 l) proto n h =
    >>=_assoc (system (os.unix_accept l)) _ _ n
accept_raw-into_transport os debug (AnyListener.ws l) proto n h =
    >>=_assoc (system (os.tcp_accept l)) _ _ n
accept_raw-into_transport os debug (AnyListener.wss l acceptor) proto n h =
    >>=_assoc (system (os.tcp_accept l)) _ _ n
accept_raw-into_transport os debug (AnyListener.tls_tcp l acceptor) proto n h =
    >>=_assoc (system (os.tcp_accept l)) _ _ n
accept_raw-into_transport os debug (AnyListener.quic ep) proto n h = absurd h
accept_raw-into_transport os debug (AnyListener.vsock l) proto n h =
    >>=_assoc (system (os.vsock_accept l)) _ _ n
accept_raw-into_transport os debug (AnyListener.kcp l) proto n h =
    >>=_assoc (accept_kcp os debug l) _ _ n
