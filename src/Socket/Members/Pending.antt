-- ===== src/Socket/Members/Pending.antt =====
-- Who joins a hub later on.
use nng_core.Prelude.{
  ℕ, zero, suc, ◌≡◌, refl, subst, List, All, if◌then◌else◌, Bool, true, false, none, some, Option,
  Result, ok, err,
}
use nng_core.Codec.Protocol.{ProtocolId, bus0}
use nng_core.Socket.Error.{NngError}
use nng_core.Socket.Peers.{admit}
use nng_core.Socket.Call.{Ended, returned, Call}
use nng_core.Socket.Call.Laws.{
  IsGood, Gives, >>=-Gives, then-Gives, give-Gives, fail-Gives, weaken-Gives,
}
use nng_core.Socket.Any.{Links, AnyStream, AnyTransport}
use nng_core.Socket.Any.Os.{Os, Features, AnyListener, RawConn}
use nng_core.Socket.Any.Schemes.{Scheme, ws, wss, tls_tcp, kcp, tcp}
use nng_core.Socket.Any.Listen.{accept_raw, into_transport}
use nng_core.Socket.Any.Agree.{IsFor, IsStreamOf, IsTransportOf, as_framed-Gives}
use nng_core.Socket.Any.Agree.Accepted.{
  IsListenerFor, scheme_of, accept_tcp-Gives, accept_kcp-Gives, accept_ws-Gives, accept_wss-Gives,
  accept_tls_tcp-Gives,
}
use nng_core.Socket.Members.{Bus0, after_raw, drain, drain_hub, accept_pending}
use nng_core.Socket.Members.Laws.{attempt-Gives, no_fuel-Gives, admit-All}
use Prim.Native.String.{String}

-- A connection of a listener for the scheme.
abbrev IsRawOf : {k : Links} {os : Os k} → Scheme → RawConn k os → Type 0
IsRawOf s (RawConn.stream x) = IsStreamOf s x
IsRawOf s (RawConn.ws c) = ws ≡ s
IsRawOf s (RawConn.wss c acceptor) = wss ≡ s
IsRawOf s (RawConn.tls_tcp c acceptor) = tls_tcp ≡ s

moved-Gives :
    {N : Type 0} {k : Links} {s z : Scheme} (c : Call N (AnyTransport k))
    → s ≡ z
    → Gives c (IsTransportOf {k = k} s)
    → Gives c (IsTransportOf {k = k} z)
moved-Gives {k = k} c e = subst (λ w. Gives c (IsTransportOf {k = k} w)) e

-- Either way the outcome of a loop that may stop here is good.
either-IsGood :
    {N A : Type 0} (P : A → Type 0) (b : Bool) (go : Ended A × N) (stop : A × N)
    → IsGood P go.0
    → P stop.0
    → IsGood P (if b then go else (returned (ok stop.0), stop.1)).0
either-IsGood P true go stop h g = h
either-IsGood P false go stop h g = g

-- A listener for the URL, or none.
abbrev pub IsOpenFor : {k : Links} {os : Os k} → String → Option (AnyListener k os) → Type 0
IsOpenFor addr none = Unit {0}
IsOpenFor addr (some l) = IsListenerFor addr l

module _ {k : Links} (os : Os k) (debug : String → String) where
  accept_raw-Gives :
      (l : AnyListener k os)
      → Gives (accept_raw os debug l) (IsRawOf {k = k} {os = os} (scheme_of l))
  unfolding accept_raw
  accept_raw-Gives (AnyListener.tcp l) =
      >>=-Gives (IsStreamOf {k = k} tcp) (IsRawOf {k = k} {os = os} tcp) _ _
        (accept_tcp-Gives os debug l)
        (λ s h. give-Gives (IsRawOf {k = k} {os = os} tcp) (RawConn.stream s) h)
  accept_raw-Gives (AnyListener.ipc l) = then-Gives (IsRawOf {k = k} {os = os} Scheme.ipc) _ _ (λ s.
      give-Gives (IsRawOf {k = k} {os = os} Scheme.ipc) (RawConn.stream (AnyStream.ipc s))
        (refl, refl))
  accept_raw-Gives (AnyListener.ipc2 l) =
      then-Gives (IsRawOf {k = k} {os = os} Scheme.ipc2) _ _ (λ s.
        give-Gives (IsRawOf {k = k} {os = os} Scheme.ipc2) (RawConn.stream (AnyStream.ipc2 s))
          (refl, refl))
  accept_raw-Gives (AnyListener.ws l) =
      then-Gives (IsRawOf {k = k} {os = os} ws) _ _
        (λ c. give-Gives (IsRawOf {k = k} {os = os} ws) (RawConn.ws c) refl)
  accept_raw-Gives (AnyListener.wss l acceptor) =
      then-Gives (IsRawOf {k = k} {os = os} wss) _ _
        (λ c. give-Gives (IsRawOf {k = k} {os = os} wss) (RawConn.wss c acceptor) refl)
  accept_raw-Gives (AnyListener.tls_tcp l acceptor) =
      then-Gives (IsRawOf {k = k} {os = os} tls_tcp) _ _
        (λ c. give-Gives (IsRawOf {k = k} {os = os} tls_tcp) (RawConn.tls_tcp c acceptor) refl)
  accept_raw-Gives (AnyListener.quic ep) = fail-Gives (IsRawOf {k = k} {os = os} Scheme.quic) _
  accept_raw-Gives (AnyListener.vsock l) =
      then-Gives (IsRawOf {k = k} {os = os} Scheme.vsock) _ _ (λ s.
        give-Gives (IsRawOf {k = k} {os = os} Scheme.vsock) (RawConn.stream (AnyStream.vsock s))
          (refl, refl))
  accept_raw-Gives (AnyListener.kcp l) =
      >>=-Gives (IsStreamOf {k = k} kcp) (IsRawOf {k = k} {os = os} kcp) _ _
        (accept_kcp-Gives os debug l)
        (λ s h. give-Gives (IsRawOf {k = k} {os = os} kcp) (RawConn.stream s) h)

  into_transport-Gives :
      (s : Scheme) (raw : RawConn k os) (proto : ProtocolId)
      → IsRawOf s raw
      → Gives (into_transport os debug raw proto) (IsTransportOf {k = k} s)
  unfolding into_transport
  into_transport-Gives s (RawConn.stream x) proto h = as_framed-Gives os debug s x proto h
  into_transport-Gives s (RawConn.ws c) proto h = moved-Gives _ h (accept_ws-Gives os debug c proto)
  into_transport-Gives s (RawConn.wss c acceptor) proto h =
      moved-Gives _ h (accept_wss-Gives os debug c acceptor proto)
  into_transport-Gives s (RawConn.tls_tcp c acceptor) proto h =
      moved-Gives _ h (accept_tls_tcp-Gives os debug c acceptor proto)

module _ {k : Links} (os : Os k) (debug : String → String) (features : Features) where
  module _ (ready : AnyListener k os → os.Net → Bool) (addr : String) (l : AnyListener k os)
      (from : IsListenerFor addr l) (proto : ProtocolId) where
    joined-Gives :
        (raw : RawConn k os)
        → IsRawOf (scheme_of l) raw
        → Gives (into_transport os debug raw proto) (IsFor addr)
    joined-Gives raw h =
        weaken-Gives (IsTransportOf {k = k} (scheme_of l)) (IsFor addr) _
          (into_transport-Gives os debug (scheme_of l) raw proto h) (λ t i. (scheme_of l, from, i))

    after_raw-Gives :
        (again : List (AnyTransport k) → Call os.Net (List (AnyTransport k)))
        (peers : List (AnyTransport k)) (r : Result (RawConn k os) NngError)
        → ((ts : List (AnyTransport k)) → All (IsFor addr) ts → Gives (again ts) (All (IsFor addr)))
        → All (IsFor addr) peers
        → IsGood (IsRawOf {k = k} {os = os} (scheme_of l)) (returned r)
        → Gives (after_raw os debug features ready l proto again peers r) (All (IsFor addr))
    unfolding after_raw
    after_raw-Gives again peers (ok raw) next a h =
        >>=-Gives (λ r. IsGood (IsFor addr) (returned r)) (All (IsFor addr)) _ _
          (attempt-Gives (IsFor addr) _ (joined-Gives raw h))
          (λ r g. next (admit peers r) (admit-All os debug features addr l from proto peers r a g))
    after_raw-Gives again peers (err e) next a h = give-Gives (All (IsFor addr)) peers a

    drain-Gives :
        (fuel : ℕ) (peers : List (AnyTransport k))
        → All (IsFor addr) peers
        → Gives (drain os debug features ready l proto fuel peers) (All (IsFor addr))
    unfolding drain
    drain-Gives zero peers a = no_fuel-Gives (All (IsFor addr))
    drain-Gives (suc fuel) peers a =
        let more =
          >>=-Gives (λ r. IsGood (IsRawOf {k = k} {os = os} (scheme_of l)) (returned r))
            (All (IsFor addr)) _
            (after_raw os debug features ready l proto (drain os debug features ready l proto fuel)
              peers)
            (attempt-Gives (IsRawOf {k = k} {os = os} (scheme_of l)) _
              (accept_raw-Gives os debug l))
            (λ r g. after_raw-Gives _ peers r (drain-Gives fuel) a g) in
        record { good = λ n. either-IsGood (All (IsFor addr)) (ready l n) _ _ (more.good n) a }

  -- A hub for the URL: its listener, if it has one, and all of its peers.
  abbrev pub IsHubFor : String → Bus0 k os → Type 0
  IsHubFor addr hub = IsOpenFor addr hub.listener × All (IsFor addr) hub.peers

  drain_hub-Gives :
      (ready : AnyListener k os → os.Net → Bool) (fuel : ℕ) (addr : String) (hub : Bus0 k os)
      (o : Option (AnyListener k os))
      → hub.listener ≡ o
      → IsHubFor addr hub
      → Gives (drain_hub os debug features ready fuel hub o) (IsHubFor addr)
  unfolding drain_hub
  drain_hub-Gives ready fuel addr hub none e h = give-Gives (IsHubFor addr) hub h
  drain_hub-Gives ready fuel addr hub (some l) e h =
      >>=-Gives (All (IsFor addr)) (IsHubFor addr) _ _
        (drain-Gives ready addr l (subst (IsOpenFor addr) e h.0) bus0 fuel hub.peers h.1)
        (λ peers a. give-Gives (IsHubFor addr) _ (h.0, a))

  -- For a hub whose listener, if it has one, and whose peers are for one URL, Bus0::accept_pending
  -- leaves a hub of which this still holds, whichever connections were waiting and failed.
  pub accept_pending-IsHubFor :
      (ready : AnyListener k os → os.Net → Bool) (fuel : ℕ) (addr : String) (hub hub' : Bus0 k os)
      (net : os.Net)
      → IsHubFor addr hub
      → ((accept_pending os debug features ready fuel hub).run net).0 ≡ returned (ok hub')
      → IsHubFor addr hub'
  unfolding accept_pending
  accept_pending-IsHubFor ready fuel addr hub hub' net h e =
      subst (IsGood (IsHubFor addr)) e
        ((drain_hub-Gives ready fuel addr hub hub.listener refl h).good net)
