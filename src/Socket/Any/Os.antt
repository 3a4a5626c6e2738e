-- ===== src/Socket/Any/Os.antt =====
-- What the URL dispatch (src/socket.rs) takes from outside the repository: the sockets of tokio,
-- the resolver, TLS, QUIC, VSOCK and KCP. Each operation uses the network and may fail with a text.
use nng_core.Prelude.{ℕ, List, Bool, Option, Result}
use nng_core.Transport.Ws.Upgrade.{Http}
use nng_core.Transport.Udp.{UdpNet}
use nng_core.Socket.Any.{Links, AnyStream}
use Prim.Native.String.{String}

-- The Cargo features, and whether the target is a Unix.
pub record Features : Type 0 where
  pub unix : Bool
  pub ws : Bool
  pub wss : Bool
  pub tls_tcp : Bool
  pub udp : Bool
  pub quic : Bool
  pub vsock : Bool
  pub kcp : Bool

pub record Os (k : Links) : Type 1 where
  pub Net : Type 0
  pub TcpListener : Type 0
  pub tcp_bind : String → Net → Result TcpListener String × Net
  pub tcp_accept : TcpListener → Net → Result k.Tcp String × Net
  pub tcp_connect : String → Net → Result k.Tcp String × Net
  pub set_nodelay : k.Tcp → Net → Result k.Tcp String × Net
  pub UnixListener : Type 0
  pub remove_file : String → Net → Net
  pub unix_bind : String → Net → Result UnixListener String × Net
  pub unix_accept : UnixListener → Net → Result k.Unix String × Net
  pub unix_connect : String → Net → Result k.Unix String × Net
  pub lookup_host : String → Net → Result (List k.Addr) String × Net
  pub TlsAcceptor : Type 0
  pub build_tls_acceptor : (cert_pem key_pem : String) → Net → Result TlsAcceptor String × Net
  pub tls_accept : TlsAcceptor → k.Tcp → Net → Result k.ServerTls String × Net
  pub TlsConnector : Type 0
  pub build_tls_connector : Net → Result TlsConnector String × Net
  pub ServerName : Type 0
  pub server_name : String → Option ServerName
  pub tls_connect : TlsConnector → ServerName → k.Tcp → Net → Result k.ClientTls String × Net
  pub QuicConfig : Type 0
  pub native_config : Net → Result QuicConfig String × Net
  pub quic_client : k.Addr → QuicConfig → Net → Result k.QuicEndpoint String × Net
  pub quic_server : k.Addr → (cert_pem key_pem : String) → Net → Result k.QuicEndpoint String × Net
  pub quic_connect : k.QuicEndpoint → k.Addr → String → Net → Result k.QuicConnection String × Net
  pub quic_accept : k.QuicEndpoint → Net → Option (Result k.QuicConnection String) × Net
  pub open_bi : k.QuicConnection → Net → Result (k.QuicSend × k.QuicRecv) String × Net
  pub accept_bi : k.QuicConnection → Net → Result (k.QuicSend × k.QuicRecv) String × Net
  pub VsockListener : Type 0
  pub vsock_bind : (cid port : ℕ) → Net → Result VsockListener String × Net
  pub vsock_accept : VsockListener → Net → Result k.Vsock String × Net
  pub vsock_connect : (cid port : ℕ) → Net → Result k.Vsock String × Net
  pub KcpConfig : Type 0
  pub default_config : KcpConfig
  pub kcp_bind : k.Addr → KcpConfig → Net → Result k.KcpListener String × Net
  pub kcp_accept : k.KcpListener → Net → Result k.Kcp String × Net
  pub kcp_connect : k.Addr → KcpConfig → Net → Result k.Kcp String × Net
  pub Request : Type 0
  -- The upgrade of an accepted connection through TLS uses this acceptor.
  pub http :
      Option TlsAcceptor → Http Net Request k.WsDial k.Tcp k.ServerTls k.WsAccept k.WsAcceptTls
  pub udp_net : UdpNet Net k.Udp k.Addr

pub data AnyListener (k : Links) (os : Os k) : Type 0 where
  tcp : os.TcpListener → AnyListener k os
  ipc : os.UnixListener → AnyListener k os
  ipc2 : os.UnixListener → AnyListener k os
  ws : os.TcpListener → AnyListener k os
  wss : os.TcpListener → os.TlsAcceptor → AnyListener k os
  tls_tcp : os.TcpListener → os.TlsAcceptor → AnyListener k os
  quic : k.QuicEndpoint → AnyListener k os
  vsock : os.VsockListener → AnyListener k os
  kcp : k.KcpListener → AnyListener k os

-- A connection that was accepted, before any handshake.
pub data RawConn (k : Links) (os : Os k) : Type 0 where
  stream : AnyStream k → RawConn k os
  ws : k.Tcp → RawConn k os
  wss : k.Tcp → os.TlsAcceptor → RawConn k os
  tls_tcp : k.Tcp → os.TlsAcceptor → RawConn k os
