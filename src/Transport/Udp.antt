-- ===== src/Transport/Udp.antt =====
-- `UdpTransport` (src/transport/udp.rs): one datagram for each SP message. The sockets and the
-- resolver are tokio's, and parameters.
pub mod Laws
use nng_core.Prelude.{
  ℕ, List, [], ◌∷◌, ◌++◌, Bool, true, false, Option, none, some, if◌then◌else◌, Result, ok, err,
}
use nng_core.Message.Heap
use nng_core.Message.Heap.{Message}
use Prim.Native.String.{String, ◌++◌ as ◌then◌}

abbrev pub max_udp_payload : ℕ
max_udp_payload = 65507

-- `UdpSocket`. A datagram that is longer than the buffer offered is cut to it.
pub record UdpSocket (S Addr : Type 0) : Type 0 where
  pub send : S → List ℕ → Result (Unit {0}) String × S
  pub send_to : S → List ℕ → Addr → Result (Unit {0}) String × S
  pub recv_from : S → ℕ → Result (List ℕ × Addr) String × S

pub record UdpTransport (S Addr : Type 0) : Type 0 where
  pub socket : S
  pub peer : Option Addr
  pub connected : Bool

abbrev pub from_socket : {S Addr : Type 0} → S → UdpTransport S Addr
from_socket socket = record { socket = socket; peer = none; connected = false }

abbrev pub peer_addr : {S Addr : Type 0} → UdpTransport S Addr → Option Addr
peer_addr t = t.peer

abbrev pub unknown_peer : String
unknown_peer = "UDP send: peer address unknown — call recv() first on a listener"

module _ {S Addr : Type 0} ⦃u : UdpSocket S Addr⦄ where
  send_known :
      Option Addr → UdpTransport S Addr → List ℕ → Result (Unit {0}) String × UdpTransport S Addr
  send_known (some peer) t payload =
      let (r, s) = u.send_to t.socket payload peer in (r, record t { socket = s })
  send_known none t payload = (err unknown_peer, t)

  send_by : Bool → UdpTransport S Addr → List ℕ → Result (Unit {0}) String × UdpTransport S Addr
  unfolding send_known
  send_by true t payload = let (r, s) = u.send t.socket payload in (r, record t { socket = s })
  send_by false t payload = send_known t.peer t payload

  unfoldable pub send :
      UdpTransport S Addr → Message → Result (Unit {0}) String × UdpTransport S Addr
  unfolding send_by
  send t msg = send_by t.connected t (msg.header ++ msg.body)

  unfoldable pub after_datagram :
      Result (List ℕ × Addr) String
      → UdpTransport S Addr
      → Result Message String × UdpTransport S Addr
  after_datagram (ok (bytes, from)) t =
      (ok (Heap.push_back Heap.new bytes), record t { peer = some from })
  after_datagram (err e) t = (err e, t)

  unfoldable pub recv : UdpTransport S Addr → Result Message String × UdpTransport S Addr
  unfolding after_datagram
  recv t =
      let (r, s) = u.recv_from t.socket max_udp_payload in
      after_datagram r (record t { socket = s })

-- `lookup_host`, `UdpSocket::bind` and `UdpSocket::connect`, in the network `N`.
pub record UdpNet (N S Addr : Type 0) : Type 0 where
  pub lookup_host : N → String → Result (List Addr) String × N
  pub is_ipv6 : Addr → Bool
  pub bind : N → String → Result S String × N
  pub connect : N → S → Addr → Result S String × N

module _ {N S Addr : Type 0} (net : UdpNet N S Addr) where
  unfoldable pub bind : String → N → Result (UdpTransport S Addr) String × N
  bind addr n =
      let (r, n') = net.bind n addr in
      elim r [ ok s ↦ (ok (from_socket s), n') | err e ↦ (err e, n') ]

  after_connect : Addr → Result S String → Result (UdpTransport S Addr) String
  after_connect peer (ok s) = ok (record { socket = s; peer = some peer; connected = true })
  after_connect peer (err e) = err e

  after_bind : Addr → Result S String → N → Result (UdpTransport S Addr) String × N
  unfolding after_connect
  after_bind peer (err e) n = (err e, n)
  after_bind peer (ok s) n = let (r, n') = net.connect n s peer in (after_connect peer r, n')

  after_lookup : String → Result (List Addr) String → N → Result (UdpTransport S Addr) String × N
  unfolding after_bind
  after_lookup remote (err e) n = (err e, n)
  after_lookup remote (ok []) n = (err ("could not resolve UDP remote: " then remote), n)
  after_lookup remote (ok (peer ∷ _)) n =
      let (r, n') = net.bind n (if net.is_ipv6 peer then "[::]:0" else "0.0.0.0:0") in
      after_bind peer r n'

  unfoldable pub connect : String → N → Result (UdpTransport S Addr) String × N
  unfolding after_lookup
  connect remote n = let (r, n') = net.lookup_host n remote in after_lookup remote r n'
