-- ===== src/Transport/Ws/Upgrade.antt =====
-- The HTTP upgrade of `WsTransport` (src/transport/ws.rs) and its subprotocol check.
pub mod Laws
use nng_core.Prelude.{ℕ, Option, none, some, if◌then◌else◌, Result, ok, err, map_err}
use nng_core.Codec.Protocol.{ProtocolId, expected_peer, ws_subprotocol}
use nng_core.Transport.Ws.{
  WsError, tungstenite, subprotocol_mismatch, invalid_header, tls, WsInner, dial, accept,
  accept_tls,
}
use Prim.Native.String.{String}
use text.Mathlib.Text.{◌==◌}

-- `headers().get(…).and_then(to_str).unwrap_or("")`; `none` is a missing or unreadable header.
abbrev pub header_or_empty : Option String → String
header_or_empty (some s) = s
header_or_empty none = ""

-- The check of the server's response in `connect`.
unfoldable pub check_response : ProtocolId → Option String → Result (Unit {0}) WsError
check_response local_proto header =
    let peer_subproto = ws_subprotocol (expected_peer local_proto) in
    if header_or_empty header == peer_subproto
    then ok tt
    else err (subprotocol_mismatch peer_subproto (header_or_empty header))

-- The callback of `ws_upgrade` and `ws_upgrade_tls`: the header to answer with, or the HTTP status.
unfoldable pub upgrade_callback : ProtocolId → Option String → Result String ℕ
upgrade_callback local_proto header =
    let expected = ws_subprotocol local_proto in
    if header_or_empty header == expected then ok expected else err 400

-- What lies outside: the URL's parser, `HeaderValue::from_str`, and the two ends of the upgrade.
-- `connect` gives the stream with the response's header.
pub record Http (N Request D Tcp Tls A T : Type 0) : Type 0 where
  pub into_client_request : String → Result Request String
  pub from_str : String → Result String String
  pub connect : N → Request → String → Result (D × Option String) String × N
  pub connect_with_tls : N → Request → String → Result (D × Option String) String × N
  pub accept : N → Tcp → (Option String → Result String ℕ) → Result A String × N
  pub accept_tls : N → Tcp → Result Tls String × N
  pub accept_over_tls : N → Tls → (Option String → Result String ℕ) → Result T String × N

module _ {N Request D Tcp Tls A T : Type 0} (http : Http N Request D Tcp Tls A T) where
  after_response : ProtocolId → Result (D × Option String) String → Result (WsInner D A T) WsError
  unfolding check_response
  after_response local_proto (err e) = err (tungstenite e)
  after_response local_proto (ok (ws, header)) = elim (check_response local_proto header) [
    | ok _ ↦ ok (dial ws)
    | err e ↦ err e
  ]

  -- The request's header, and the connection by `connect_by`: `connect_async`, or the same with TLS.
  after_header :
      (N → Request → String → Result (D × Option String) String × N)
      → ProtocolId
      → Request
      → Result String String
      → N
      → Result (WsInner D A T) WsError × N
  unfolding after_response
  after_header connect_by local_proto request (err e) n = (err (invalid_header e), n)
  after_header connect_by local_proto request (ok value) n =
      let (r, n') = connect_by n request value in (after_response local_proto r, n')

  after_request :
      (N → Request → String → Result (D × Option String) String × N)
      → ProtocolId
      → Result Request String
      → N
      → Result (WsInner D A T) WsError × N
  unfolding after_header
  after_request connect_by local_proto (err e) n = (err (tungstenite e), n)
  after_request connect_by local_proto (ok request) n =
      after_header connect_by local_proto request
        (http.from_str (ws_subprotocol (expected_peer local_proto))) n

  unfoldable pub connect : String → ProtocolId → N → Result (WsInner D A T) WsError × N
  unfolding after_request
  connect url local_proto n =
      after_request http.connect local_proto (http.into_client_request url) n

  unfoldable pub connect_with_tls : String → ProtocolId → N → Result (WsInner D A T) WsError × N
  unfolding after_request
  connect_with_tls url local_proto n =
      after_request http.connect_with_tls local_proto (http.into_client_request url) n

  wrapped : {W : Type 0} → (W → WsInner D A T) → Result W String → Result (WsInner D A T) WsError
  wrapped make (ok ws) = ok (make ws)
  wrapped make (err e) = err (tungstenite e)

  -- `accept`, with `ws_upgrade`
  unfoldable pub accept_tcp : Tcp → ProtocolId → N → Result (WsInner D A T) WsError × N
  unfolding wrapped
  accept_tcp tcp local_proto n =
      let (r, n') = http.accept n tcp (upgrade_callback local_proto) in (wrapped accept r, n')

  after_tls : ProtocolId → Result Tls String → N → Result (WsInner D A T) WsError × N
  unfolding wrapped
  after_tls local_proto (err e) n = (err (tls e), n)
  after_tls local_proto (ok stream) n =
      let (r, n') = http.accept_over_tls n stream (upgrade_callback local_proto) in
      (wrapped accept_tls r, n')

  -- `accept_tls_with_acceptor`, with `ws_upgrade_tls`
  unfoldable pub accept_tls_with_acceptor :
      Tcp → ProtocolId → N → Result (WsInner D A T) WsError × N
  unfolding after_tls
  accept_tls_with_acceptor tcp local_proto n =
      let (r, n') = http.accept_tls n tcp in after_tls local_proto r n'
