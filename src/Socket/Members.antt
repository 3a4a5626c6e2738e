-- ===== src/Socket/Members.antt =====
-- Sockets with many peers and the URLs that they bind: `Bus0`'s constructors and accept stream
-- (src/socket/bus0.rs), `Pub0::listen` and `wait_for_subscribers` (src/socket/pubsub0.rs), and
-- `Push0Fan::listen_and_accept` (src/socket/pipeline0.rs).
pub mod Laws
pub mod Collects
pub mod Pending
use nng_core.Prelude.{
  ℕ, zero, suc, List, [], ◌∷◌, ◌++◌, Option, none, some, length, get_elem?, ltb, if◌then◌else◌,
  Bool, Result, ok, err,
}
use nng_core.Message.Heap.{Message}
use nng_core.Codec.Protocol.{ProtocolId, pub0, push0, bus0}
use nng_core.Socket.Error.{NngError, no_peers}
use nng_core.Socket.Call.{Ended, returned, cancelled, runs_on, Call, give, ◌>>=◌}
use nng_core.Socket.FanOut.{set}
use nng_core.Socket.Peers.{admit}
use nng_core.Socket.Push0Fan as Push0Fan
use nng_core.Socket.Any as Any
use nng_core.Socket.Any.{Links, AnyTransport}
use nng_core.Socket.Any.Os.{Os, Features, AnyListener, RawConn}
use nng_core.Socket.Any.Dial.{connect_transport}
use nng_core.Socket.Any.Listen.{accept_raw, into_transport, accept_as_transport}
use nng_core.Socket.Any.Bind.{bind_listener}
use Prim.Native.String.{String}

-- A call whose error is looked at, without `?`.
abbrev pub caught : {A : Type 0} → Ended A → Ended (Result A NngError)
caught (returned r) = returned (ok r)
caught cancelled = cancelled
caught runs_on = runs_on

abbrev pub attempt : {N A : Type 0} → Call N A → Call N (Result A NngError)
attempt c = record { run = λ n. let (e, n') = c.run n in (caught e, n') }

abbrev pub no_fuel : {N A : Type 0} → Call N A
no_fuel = record { run = λ n. (runs_on, n) }

pub record Bus0 (k : Links) (os : Os k) : Type 0 where
  pub listener : Option (AnyListener k os)
  pub peers : List (AnyTransport k)

pub record Pub0 (k : Links) (os : Os k) : Type 0 where
  pub listener : AnyListener k os
  pub subscribers : List (AnyTransport k)

abbrev pub peer_count : {k : Links} {os : Os k} → Bus0 k os → ℕ
peer_count hub = length hub.peers

abbrev pub add_peer : {k : Links} {os : Os k} → Bus0 k os → AnyTransport k → Bus0 k os
add_peer hub peer = record hub { peers = hub.peers ++ (peer ∷ []) }

module _ {k : Links} (os : Os k) (debug : String → String) (features : Features) where
  -- `while peers.len() < n { if let Ok(t) = … { peers.push(t) } }`; each connection is one unit of
  -- fuel.
  unfoldable pub accept_until :
      ℕ
      → ℕ
      → AnyListener k os
      → ProtocolId
      → List (AnyTransport k)
      → Call os.Net (List (AnyTransport k))
  accept_until zero n l proto peers = if ltb (length peers) n then no_fuel else give peers
  accept_until (suc fuel) n l proto peers =
      let more : Call os.Net (List (AnyTransport k)) =
        attempt (accept_as_transport os debug l proto)
        >>= (λ r. accept_until fuel n l proto (admit peers r)) in
      if ltb (length peers) n then more else give peers

  unfoldable pub listen_and_accept : ℕ → String → ℕ → Call os.Net (Bus0 k os)
  listen_and_accept fuel addr n = do
    l ← bind_listener os debug features addr
    peers ← accept_until fuel n l bus0 []
    give (record { listener = some l; peers = peers })

  -- Whether the kernel has a connection for a listener, so that the first poll of `accept_raw`
  -- answers, is a parameter.
  module _ (ready : AnyListener k os → os.Net → Bool) (l : AnyListener k os)
      (proto : ProtocolId) where
    unfoldable pub after_raw :
        (List (AnyTransport k) → Call os.Net (List (AnyTransport k)))
        → List (AnyTransport k)
        → Result (RawConn k os) NngError
        → Call os.Net (List (AnyTransport k))
    after_raw again peers (ok raw) =
        attempt (into_transport os debug raw proto) >>= (λ r. again (admit peers r))
    after_raw again peers (err e) = give peers

    -- The loop of `accept_pending` and `drain_incoming`; each connection is one unit of fuel.
    unfoldable pub drain : ℕ → List (AnyTransport k) → Call os.Net (List (AnyTransport k))
    unfolding after_raw
    drain zero peers = no_fuel
    drain (suc fuel) peers =
        let more : Call os.Net (List (AnyTransport k)) =
          attempt (accept_raw os debug l) >>= after_raw (drain fuel) peers in
        record { run = λ n. if ready l n then more.run n else (returned (ok peers), n) }

  unfoldable pub drain_hub :
      (AnyListener k os → os.Net → Bool)
      → ℕ
      → Bus0 k os
      → Option (AnyListener k os)
      → Call os.Net (Bus0 k os)
  drain_hub ready fuel hub none = give hub
  drain_hub ready fuel hub (some l) = do
    peers ← drain ready l bus0 fuel hub.peers
    give (record hub { peers = peers })

  unfoldable pub accept_pending :
      (AnyListener k os → os.Net → Bool) → ℕ → Bus0 k os → Call os.Net (Bus0 k os)
  unfolding drain_hub
  accept_pending ready fuel hub = drain_hub ready fuel hub hub.listener

  unfoldable pub drain_incoming :
      (AnyListener k os → os.Net → Bool) → ℕ → Pub0 k os → Call os.Net (Pub0 k os)
  drain_incoming ready fuel p = do
    subscribers ← drain ready p.listener pub0 fuel p.subscribers
    give (record p { subscribers = subscribers })

  unfoldable pub listen : ℕ → String → Call os.Net (Bus0 k os)
  listen fuel addr = listen_and_accept fuel addr 1

  unfoldable pub dial : String → Call os.Net (Bus0 k os)
  dial addr = do
    t ← connect_transport os debug features addr bus0
    give (record { listener = none; peers = t ∷ [] })

  -- An empty hub, and the listener of its `AcceptStream`.
  unfoldable pub bind : String → Call os.Net (Bus0 k os × AnyListener k os)
  bind addr = do
    l ← bind_listener os debug features addr
    give (record { listener = none; peers = [] }, l)

  unfoldable pub accept : AnyListener k os → Call os.Net (AnyTransport k)
  accept l = accept_as_transport os debug l bus0

  recv_at : ℕ → Bus0 k os → ℕ → Option (AnyTransport k) → Ended Message × Bus0 k os
  recv_at fuel hub i none = (returned (err no_peers), hub)
  recv_at fuel hub i (some t) =
      let (r, t') = Any.recv debug fuel t in (r, record hub { peers = set hub.peers i t' })

  unfoldable pub recv_from : ℕ → Bus0 k os → ℕ → Ended Message × Bus0 k os
  unfolding recv_at
  recv_from fuel hub peer_idx = recv_at fuel hub peer_idx (get_elem? hub.peers peer_idx)

  unfoldable pub pub_listen : String → Call os.Net (Pub0 k os)
  pub_listen addr = do
    l ← bind_listener os debug features addr
    give (record { listener = l; subscribers = [] })

  unfoldable pub wait_for_subscribers : ℕ → Pub0 k os → ℕ → Call os.Net (Pub0 k os)
  wait_for_subscribers fuel p n = do
    subscribers ← accept_until fuel n p.listener pub0 p.subscribers
    give (record p { subscribers = subscribers })

  unfoldable pub push_listen_and_accept :
      ℕ → String → ℕ → Call os.Net (Push0Fan.Push0Fan (AnyTransport k))
  push_listen_and_accept fuel addr n = do
    l ← bind_listener os debug features addr
    workers ← accept_until fuel n l push0 []
    give (Push0Fan.new workers)
