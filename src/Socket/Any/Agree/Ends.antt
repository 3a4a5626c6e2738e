-- ===== src/Socket/Any/Agree/Ends.antt =====
-- The two ends of one URL.
use nng_core.Prelude.{◌≡◌, ap, subst, sym, ◌∙◌, ok}
use nng_core.Codec.Protocol.{ProtocolId}
use nng_core.Socket.Raw.{Socket}
use nng_core.Socket.Call.{returned}
use nng_core.Socket.Call.Laws.{IsGood}
use nng_core.Socket.Any.{Links, AnyTransport}
use nng_core.Socket.Any.Os.{Os, Features}
use nng_core.Socket.Any.Dial.{dial}
use nng_core.Socket.Any.Bind.{listen}
use nng_core.Socket.Any.Schemes.{kind_for, format_for, HasScheme-unique}
use nng_core.Socket.Any.Agree.{transport_kind, wire_format, IsFor}
use nng_core.Socket.Any.Agree.Dialled.{dial-Gives}
use nng_core.Socket.Any.Agree.Accepted.{listen-Gives}
use Prim.Native.String.{String}

-- The two transports speak alike.
abbrev pub Alike : {j k : Links} → AnyTransport j → AnyTransport k → Type 0
Alike a b = (transport_kind a ≡ transport_kind b) × (wire_format a ≡ wire_format b)

IsFor-Alike :
    {j k : Links} (addr : String) (a : AnyTransport j) (b : AnyTransport k)
    → IsFor addr a
    → IsFor addr b
    → Alike a b
IsFor-Alike addr a b (s, h, (ka, fa)) (t, i, (kb, fb)) =
    let e = HasScheme-unique addr s t h i in
    (ka ∙ ap kind_for e ∙ sym kb, fa ∙ ap format_for e ∙ sym fb)

-- When listen and dial of one URL both succeed, on any two systems, with any Cargo features and any
-- protocols, the two sockets have transports of one kind and, where these have frames, of one frame
-- format.
pub listen-dial :
    {j k : Links} (os : Os j) (os' : Os k) (debug : String → String) (features features' : Features)
    (addr : String) (proto proto' : ProtocolId) (n : os.Net) (n' : os'.Net)
    (a : Socket (AnyTransport j)) (b : Socket (AnyTransport k))
    → ((listen os debug features addr proto).run n).0 ≡ returned (ok a)
    → ((dial os' debug features' addr proto').run n').0 ≡ returned (ok b)
    → Alike a.transport b.transport
listen-dial os os' debug features features' addr proto proto' n n' a b e f =
    IsFor-Alike addr a.transport b.transport
      (subst (IsGood (λ s. IsFor addr s.transport)) e
        ((listen-Gives os debug features addr proto).good n))
      (subst (IsGood (λ s. IsFor addr s.transport)) f
        ((dial-Gives os' debug features' addr proto').good n'))
