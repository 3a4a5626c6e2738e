-- ===== src/Tests/Network.antt =====
-- A concrete network: streams of bytes, a script of datagrams, a script of WebSocket messages, and
-- a system whose operations on TCP and UDP succeed.
use nng_core.Prelude.{
  ℕ, ◌≡◌, refl, sym, append-nil, List, [], ◌∷◌, ◌++◌, Option, none, some, true, false, Result, ok,
  err,
}
use nng_core.Transport.Ws.{WsMessage, WsStream}
use nng_core.Transport.Ws.Upgrade.{Http}
use nng_core.Transport.Udp.{UdpSocket}
use nng_core.Transport.Udp.Laws as Laws
use nng_core.Socket.Any.{Links}
use nng_core.Socket.Any.Os.{Os, Features}
use nng_core.Tests.Pipe.{Pipe, pipe_stream, pipe}
use Prim.Native.String.{String}

-- The datagrams to come, each with its sender, and what passed so far.
pub record Datagrams : Type 0 where
  pub incoming : List (List ℕ × ℕ)
  pub sent : List (ℕ × List ℕ)
  pub heard : List ℕ

abbrev receive : Datagrams → List (List ℕ × ℕ) → Result (List ℕ × ℕ) String × Datagrams
receive s [] = (err "no datagram", s)
receive s ((bytes, from) ∷ rest) =
    (ok (bytes, from), record s { incoming = rest; heard = s.heard ++ (from ∷ []) })

instance abbrev pub datagrams : UdpSocket Datagrams ℕ
datagrams = record {
  send = λ s bytes. (ok tt, s);
  send_to = λ s bytes a. (ok tt, record s { sent = s.sent ++ ((a, bytes) ∷ []) });
  recv_from = λ s n. receive s s.incoming;
}

receive_heard :
    (s : Datagrams) (incoming : List (List ℕ × ℕ))
    → (receive s incoming).1.heard ≡ s.heard ++ Laws.heard_by (receive s incoming).0
receive_heard s [] = sym (append-nil s.heard)
receive_heard s (x ∷ rest) = refl

receive_sent : (s : Datagrams) (incoming : List (List ℕ × ℕ)) → (receive s incoming).1.sent ≡ s.sent
receive_sent s [] = refl
receive_sent s (x ∷ rest) = refl

unfoldable pub datagrams_laws : Laws.IsLawful datagrams
unfolding receive_heard receive_sent
datagrams_laws = record {
  sent = λ s. s.sent;
  heard = λ s. s.heard;
  send_to_sent = λ s bytes a. refl;
  send_to_heard = λ s bytes a. refl;
  recv_from_heard = λ s n. receive_heard s s.incoming;
  recv_from_sent = λ s n. receive_sent s s.incoming;
}

abbrev pub two_senders : Datagrams
two_senders = record { incoming = (5 ∷ [], 80) ∷ (6 ∷ [], 81) ∷ []; sent = []; heard = [] }

-- The messages to come on a WebSocket, then its end.
abbrev next_of : List WsMessage → Option (Result WsMessage String) × List WsMessage
next_of [] = (none, [])
next_of (m ∷ ms) = (some (ok m), ms)

instance abbrev pub script_ws : WsStream (List WsMessage)
script_ws = record { send = λ w m. (ok tt, w); next = next_of }

abbrev pub links : Links
links = record {
  Tcp = Pipe;
  tcp_io = pipe_stream;
  Unix = Pipe;
  unix_io = pipe_stream;
  ClientTls = Pipe;
  client_tls_io = pipe_stream;
  ServerTls = Pipe;
  server_tls_io = pipe_stream;
  QuicConnection = ℕ;
  QuicEndpoint = ℕ;
  QuicRecv = Pipe;
  quic_read = pipe_stream.read;
  QuicSend = Pipe;
  quic_write = pipe_stream.write;
  Vsock = Pipe;
  vsock_io = pipe_stream;
  Kcp = Pipe;
  kcp_io = pipe_stream;
  kcp_flush = λ c. (some (ok tt), c);
  KcpListener = ℕ;
  WsDial = List WsMessage;
  ws_dial = script_ws;
  WsAccept = List WsMessage;
  ws_accept = script_ws;
  WsAcceptTls = List WsMessage;
  ws_accept_tls = script_ws;
  Udp = Datagrams;
  Addr = ℕ;
  udp = datagrams;
}

-- An operation that fails.
abbrev fails : {A : Type 0} → ℕ → Result A String × ℕ
fails n = (err "refused", n)

abbrev http : Http ℕ String (List WsMessage) Pipe Pipe (List WsMessage) (List WsMessage)
http = record {
  into_client_request = λ url. ok url;
  from_str = λ s. ok s;
  connect = λ n request header. (ok ([], some header), n);
  connect_with_tls = λ n request header. (ok ([], some header), n);
  accept = λ n tcp callback. (ok [], n);
  accept_tls = λ n tcp. (ok tcp, n);
  accept_over_tls = λ n tls callback. (ok [], n);
}

-- Every TCP connection is at its other end the peer of this protocol.
abbrev pub os : (peer : ℕ) → Os links
os peer =
    let hello : Pipe = pipe (0 ∷ b'S' ∷ b'P' ∷ 0 ∷ 0 ∷ peer ∷ 0 ∷ 0 ∷ []) [] in
    record {
      Net = ℕ;
      TcpListener = Unit {0};
      tcp_bind = λ addr n. (ok tt, n);
      tcp_accept = λ l n. (ok hello, n);
      tcp_connect = λ addr n. (ok hello, n);
      set_nodelay = λ s n. (ok s, n);
      UnixListener = Unit {0};
      remove_file = λ path n. n;
      unix_bind = λ path n. (ok tt, n);
      unix_accept = λ l n. (ok hello, n);
      unix_connect = λ path n. (ok hello, n);
      lookup_host = λ host n. (ok (1 ∷ []), n);
      TlsAcceptor = Unit {0};
      build_tls_acceptor = λ cert key n. fails n;
      tls_accept = λ acceptor tcp n. fails n;
      TlsConnector = Unit {0};
      build_tls_connector = fails;
      ServerName = Unit {0};
      server_name = λ s. none;
      tls_connect = λ connector name tcp n. fails n;
      QuicConfig = Unit {0};
      native_config = fails;
      quic_client = λ addr config n. fails n;
      quic_server = λ addr cert key n. fails n;
      quic_connect = λ endpoint addr name n. fails n;
      quic_accept = λ endpoint n. (none, n);
      open_bi = λ conn n. fails n;
      accept_bi = λ conn n. fails n;
      VsockListener = Unit {0};
      vsock_bind = λ cid port n. fails n;
      vsock_accept = λ l n. fails n;
      vsock_connect = λ cid port n. fails n;
      KcpConfig = Unit {0};
      default_config = tt;
      kcp_bind = λ addr config n. fails n;
      kcp_accept = λ l n. fails n;
      kcp_connect = λ addr config n. fails n;
      Request = String;
      http = λ acceptor. http;
      udp_net = record {
        lookup_host = λ n host. (ok (1 ∷ []), n);
        is_ipv6 = λ a. false;
        bind = λ n addr. (ok two_senders, n);
        connect = λ n s a. (ok s, n);
      };
    }

abbrev pub no_features : Features
no_features = record {
  unix = true;
  ws = false;
  wss = false;
  tls_tcp = false;
  udp = false;
  quic = false;
  vsock = false;
  kcp = false;
}
