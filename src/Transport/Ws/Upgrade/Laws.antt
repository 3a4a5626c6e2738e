-- ===== src/Transport/Ws/Upgrade/Laws.antt =====
-- Which dialers and acceptors agree.
use nng_core.Prelude.{
  ◌≡◌, refl, sym, All, all, all-All, All-imp, Bool, true, false, not, ◌&&◌, ◌||◌, ◌==◌, some, is_ok,
  ok, err, arith,
}
use nng_core.Codec.Protocol.{
  ProtocolId, pair0, pair1, expected_peer, ws_protocol_name, ws_subprotocol, named,
}
use nng_core.Codec.Handshake.{check_peer}
use nng_core.Transport.Ws.Upgrade.{check_response, upgrade_callback}
use Prim.Native.String.{String}
use text.Mathlib.TextEquality.{eq_iff}
use text.Mathlib.TextPositions.{eq_refl}

callback_ok :
    (l : ProtocolId) (offered answer : String)
    → upgrade_callback l (some offered) ≡ ok answer
    → answer ≡ offered
unfolding upgrade_callback
callback_ok l offered answer e = ground (arith, eq_iff offered (ws_subprotocol l), e)

-- When the acceptor's callback takes the header that a dialer sends, the dialer's check of the
-- response passes, whatever the two protocols.
pub check_response-upgrade_callback :
    (d l : ProtocolId) (answer : String)
    → upgrade_callback l (some (ws_subprotocol (expected_peer d))) ≡ ok answer
    → check_response d (some answer) ≡ ok tt
unfolding check_response
check_response-upgrade_callback d l answer e =
    rw
      (
        callback_ok l (ws_subprotocol (expected_peer d)) answer e,
        eq_refl (ws_subprotocol (expected_peer d)),
      )
      refl

-- The dialer and the acceptor both go on.
unfoldable pub agrees : ProtocolId → ProtocolId → Bool
agrees d l = elim (upgrade_callback l (some (ws_subprotocol (expected_peer d)))) [
  | ok answer ↦ is_ok (check_response d (some answer))
  | err status ↦ false
]

-- The two have the one name "pair".
abbrev pub is_pair : ProtocolId → Bool
is_pair p = p == pair0 || p == pair1

same : Bool → Bool → Bool
same true b = b
same false b = not b

same-≡ : (a b : Bool) → same a b ≡ true → a ≡ b
unfolding same
same-≡ true b e = sym e
same-≡ false b e = ground arith

abbrev expected : ProtocolId → ProtocolId → Bool
expected d l = is_ok (check_peer d l) || is_pair d && is_pair l

abbrev row : ProtocolId → ProtocolId → Bool
row d l = same (agrees d l) (expected d l)

table : all (λ d. all (row d) named) named ≡ true
unfolding same agrees upgrade_callback check_response check_peer ws_subprotocol ws_protocol_name
    expected_peer
table = refl

-- For any two of the eleven named protocols, the WebSocket upgrade succeeds exactly when the
-- handshake's check would accept the acceptor as the dialer's peer, or both are pair protocols,
-- whatever their version.
pub agrees-check_peer :
    All
      (λ d. All (λ l. agrees d l ≡ (is_ok (check_peer d l) || is_pair d && is_pair l)) named)
      named
agrees-check_peer =
    All-imp
      (λ d e. All-imp (λ l. same-≡ (agrees d l) (expected d l)) named (all-All (row d) named e))
      named (all-All (λ d. all (row d) named) named table)
