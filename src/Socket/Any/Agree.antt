-- ===== src/Socket/Any/Agree.antt =====
-- What a URL's scheme says of the transport that a call gives.
pub mod Dialled
pub mod Accepted
pub mod Ends
use nng_core.Prelude.{
  ◌≡◌, refl, ap, sym, ◌∙◌, Option, some, none, Bool, true, false, Result, ok, err,
}
use nng_core.Codec.Protocol.{ProtocolId}
use nng_core.Transport.Framed.{FrameFormat, FramedTransport, Outcome, finished}
use nng_core.Transport.Framed.Send.Keeps.{IsKept, connect-IsKept}
use nng_core.Socket.Call.{
  Ended, returned, cancelled, runs_on, Call, fail, transport_ended, give, ◌>>=◌, system,
}
use nng_core.Socket.Call.Laws.{
  IsGood, Gives, give-Gives, fail-Gives, >>=-Gives, then-Gives, Any-Gives,
}
use nng_core.Socket.Any.{
  Links, TlsTcpStream, client, server, AnyStream, any_stream, read, write, frame_format,
  AnyTransport,
}
use nng_core.Socket.Any.Address.{strip_prefix, on_prefix}
use nng_core.Socket.Any.Os.{Os}
use nng_core.Socket.Any.Connect.{
  when_feature, on_unix, connect_framed, as_framed, as_ws_result, as_ws,
}
use nng_core.Socket.Any.Dial.{if_feature}
use nng_core.Socket.Any.Schemes.{
  Scheme, tcp, ipc, ipc2, ws, wss, tls_tcp, udp, quic, vsock, kcp, prefix_of, HasScheme, Kind,
  over_tcp, over_ipc, over_tls, over_quic, over_vsock, over_kcp, over_ws, over_udp, kind_for,
  format_for,
}
use nng_core.Transport.Ws.{WsError, WsInner}
use Prim.Native.String.{String}

module _ {k : Links} where
  abbrev pub stream_kind : AnyStream k → Kind
  stream_kind (AnyStream.tcp _) = over_tcp
  stream_kind (AnyStream.ipc _) = over_ipc
  stream_kind (AnyStream.ipc2 _) = over_ipc
  stream_kind (AnyStream.tls_tcp _) = over_tls
  stream_kind (AnyStream.quic _) = over_quic
  stream_kind (AnyStream.vsock _) = over_vsock
  stream_kind (AnyStream.kcp _) = over_kcp

  abbrev pub transport_kind : AnyTransport k → Kind
  transport_kind (AnyTransport.framed t) = stream_kind t.inner
  transport_kind (AnyTransport.ws t) = over_ws
  transport_kind (AnyTransport.udp t) = over_udp

  abbrev pub wire_format : AnyTransport k → Option FrameFormat
  wire_format (AnyTransport.framed t) = some t.format
  wire_format (AnyTransport.ws t) = none
  wire_format (AnyTransport.udp t) = none

  -- The stream is what the scheme names.
  abbrev pub IsStreamOf : Scheme → AnyStream k → Type 0
  IsStreamOf s x = (stream_kind x ≡ kind_for s) × (some (frame_format x) ≡ format_for s)

  -- The transport is what the scheme names.
  abbrev pub IsTransportOf : Scheme → AnyTransport k → Type 0
  IsTransportOf s t = (transport_kind t ≡ kind_for s) × (wire_format t ≡ format_for s)

  read-kind :
      (x : AnyStream k) (κ : Kind) → stream_kind x ≡ κ → (n : _) → stream_kind (read k x n).1 ≡ κ
  read-kind (AnyStream.tcp _) κ e n = e
  read-kind (AnyStream.ipc _) κ e n = e
  read-kind (AnyStream.ipc2 _) κ e n = e
  read-kind (AnyStream.tls_tcp (client s)) κ e n = e
  read-kind (AnyStream.tls_tcp (server s)) κ e n = e
  read-kind (AnyStream.quic _) κ e n = e
  read-kind (AnyStream.vsock _) κ e n = e
  read-kind (AnyStream.kcp _) κ e n = e

  write-kind :
      (x : AnyStream k) (κ : Kind) → stream_kind x ≡ κ → (b : _) → stream_kind (write k x b).1 ≡ κ
  write-kind (AnyStream.tcp _) κ e n = e
  write-kind (AnyStream.ipc _) κ e n = e
  write-kind (AnyStream.ipc2 _) κ e n = e
  write-kind (AnyStream.tls_tcp (client s)) κ e n = e
  write-kind (AnyStream.tls_tcp (server s)) κ e n = e
  write-kind (AnyStream.quic _) κ e n = e
  write-kind (AnyStream.vsock _) κ e n = e
  write-kind (AnyStream.kcp _) κ e n = e

  transport_ended-IsGood :
      (s : Scheme) (format : FrameFormat) (o : Outcome (FramedTransport (AnyStream k)))
      → some format ≡ format_for s
      → IsKept
          (λ x. stream_kind x ≡ kind_for s)
          (λ x n e. read-kind x (kind_for s) e n)
          (λ x b e. write-kind x (kind_for s) e b)
          format
          o
      → IsGood (λ t. IsTransportOf s (AnyTransport.framed t)) (transport_ended o)
  transport_ended-IsGood s format (finished (ok t)) f h = (h.0, ap some h.1 ∙ f)
  transport_ended-IsGood s format (finished (err e)) f h = tt
  transport_ended-IsGood s format Outcome.cancelled f h = tt
  transport_ended-IsGood s format Outcome.stuck f h = tt

  module _ (os : Os k) (debug : String → String) where
    pub connect_framed-Gives :
        (s : Scheme) (x : AnyStream k) (proto : ProtocolId)
        → IsStreamOf s x
        → Gives (connect_framed os debug x proto) (λ t. IsTransportOf s (AnyTransport.framed t))
    unfolding connect_framed
    connect_framed-Gives s x proto (e, f) = record {
      good = λ n. transport_ended-IsGood s (frame_format x) _ f (
          connect-IsKept (λ y. stream_kind y ≡ kind_for s) (λ y m h. read-kind y (kind_for s) h m)
            (λ y b h. write-kind y (kind_for s) h b) x proto (frame_format x) e);
    }

    pub as_framed-Gives :
        (s : Scheme) (x : AnyStream k) (proto : ProtocolId)
        → IsStreamOf s x
        → Gives (as_framed os debug x proto) (IsTransportOf s)
    unfolding as_framed
    as_framed-Gives s x proto h =
        >>=-Gives (λ t. IsTransportOf s (AnyTransport.framed t)) (IsTransportOf s)
          (connect_framed os debug x proto) _ (connect_framed-Gives s x proto h)
          (λ t g. give-Gives (IsTransportOf s) (AnyTransport.framed t) g)

    as_ws_result-IsGood :
        (s : Scheme)
        → over_ws ≡ kind_for s
        → none ≡ format_for s
        → (r : Result (WsInner k.WsDial k.WsAccept k.WsAcceptTls) WsError)
        → IsGood (IsTransportOf s) (returned (as_ws_result os debug r))
    unfolding as_ws_result
    as_ws_result-IsGood s e f (ok w) = (e, f)
    as_ws_result-IsGood s e f (err x) = tt

    pub as_ws-Gives :
        (s : Scheme)
        → over_ws ≡ kind_for s
        → none ≡ format_for s
        → (op : os.Net → Result (WsInner k.WsDial k.WsAccept k.WsAcceptTls) WsError × os.Net)
        → Gives (as_ws os debug op) (IsTransportOf s)
    unfolding as_ws
    as_ws-Gives s e f op = record { good = λ n. as_ws_result-IsGood s e f (op n).0 }

-- The URL has a scheme that names what the transport is.
abbrev pub IsFor : {k : Links} → String → AnyTransport k → Type 0
IsFor addr t = (s : Scheme) × HasScheme addr s × IsTransportOf s t

-- What holds of every branch of a chain of tests for a prefix holds of the chain.
pub on_prefix-Gives :
    {N A : Type 0} (Q : A → Type 0) (addr prefix : String) (f : String → Call N A)
    (other : Call N A)
    → ((rest : String) → strip_prefix addr prefix ≡ some rest → Gives (f rest) Q)
    → Gives other Q
    → Gives (on_prefix addr prefix f other) Q
unfolding on_prefix
on_prefix-Gives Q addr prefix f other h g = go (strip_prefix addr prefix) refl
  where
    go :
        (o : Option String)
        → strip_prefix addr prefix ≡ o
        → Gives (elim o [ some rest ↦ f rest | none ↦ other ]) Q
    go (some rest) e = h rest e
    go none e = g

pub when_feature-Gives :
    {N A : Type 0} (Q : A → Type 0) (b : Bool) (name : String) (c : Call N A)
    → Gives c Q
    → Gives (when_feature b name c) Q
when_feature-Gives Q true name c h = h
when_feature-Gives Q false name c h = fail-Gives Q _

pub on_unix-Gives :
    {N A : Type 0} (Q : A → Type 0) (b : Bool) (c : Call N A) → Gives c Q → Gives (on_unix b c) Q
on_unix-Gives Q true c h = h
on_unix-Gives Q false c h = fail-Gives Q _

pub feature_prefix-Gives :
    {N A : Type 0} (Q : A → Type 0) (b : Bool) (addr prefix : String) (f : String → Call N A)
    (rest : Call N A)
    → ((r : String) → strip_prefix addr prefix ≡ some r → Gives (f r) Q)
    → Gives rest Q
    → Gives (if_feature b (on_prefix addr prefix f) rest) Q
feature_prefix-Gives Q true addr prefix f rest h g = on_prefix-Gives Q addr prefix f rest h g
feature_prefix-Gives Q false addr prefix f rest h g = g
