-- ===== src/Codec/Protocol.antt =====
-- `ProtocolId` (src/codec.rs): a 16-bit number, its named values, the peer each one expects.
pub mod Laws
use nng_core.Prelude.{ℕ, ◌<◌, ◌^◌, ◌==◌, if◌then◌else◌, List, [], ◌∷◌}
use Prim.Native.String.{String, ◌++◌}
use text.Mathlib.Text

-- `ProtocolId(pub u16)`, as its number.
abbrev pub ProtocolId : Type 0
ProtocolId = ℕ

-- The number is a `u16`.
abbrev pub IsU16 : ProtocolId → Type 0
IsU16 p = p < 2 ^ 16

abbrev pub pair0 : ProtocolId
pair0 = 0x10

abbrev pub pair1 : ProtocolId
pair1 = 0x11

abbrev pub pub0 : ProtocolId
pub0 = 0x20

abbrev pub sub0 : ProtocolId
sub0 = 0x21

abbrev pub req0 : ProtocolId
req0 = 0x30

abbrev pub rep0 : ProtocolId
rep0 = 0x31

abbrev pub push0 : ProtocolId
push0 = 0x50

abbrev pub pull0 : ProtocolId
pull0 = 0x51

abbrev pub surveyor0 : ProtocolId
surveyor0 = 0x62

abbrev pub respondent0 : ProtocolId
respondent0 = 0x63

abbrev pub bus0 : ProtocolId
bus0 = 0x70

unfoldable pub expected_peer : ProtocolId → ProtocolId
expected_peer p =
    if p == req0
    then rep0
    else if p == rep0
    then req0
    else if p == pub0
    then sub0
    else if p == sub0
    then pub0
    else if p == push0
    then pull0
    else if p == pull0
    then push0
    else if p == pair0
    then pair0
    else if p == pair1
    then pair1
    else if p == surveyor0
    then respondent0
    else if p == respondent0
    then surveyor0
    else if p == bus0
    then bus0
    else p

-- The name in the WebSocket subprotocol token.
unfoldable pub ws_protocol_name : ProtocolId → String
ws_protocol_name p =
    if p == req0
    then "req"
    else if p == rep0
    then "rep"
    else if p == pub0
    then "pub"
    else if p == sub0
    then "sub"
    else if p == push0
    then "push"
    else if p == pull0
    then "pull"
    else if p == pair0
    then "pair"
    else if p == pair1
    then "pair"
    else if p == surveyor0
    then "surveyor"
    else if p == respondent0
    then "respondent"
    else if p == bus0
    then "bus"
    else "unknown"

-- The whole token of the `Sec-WebSocket-Protocol` header.
unfoldable pub ws_subprotocol : ProtocolId → String
ws_subprotocol p = ws_protocol_name p ++ ".sp.nanomsg.org"

-- The eleven protocols that have a name.
abbrev pub named : List ProtocolId
named =
    pair0 ∷ pair1 ∷ pub0 ∷ sub0 ∷ req0 ∷ rep0 ∷ push0 ∷ pull0 ∷ surveyor0 ∷ respondent0 ∷ bus0 ∷ []
