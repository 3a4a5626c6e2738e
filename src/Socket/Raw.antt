-- ===== src/Socket/Raw.antt =====
-- `Socket` (src/socket.rs): sending and receiving with one reconnect.
pub mod Laws
use nng_core.Prelude.{ℕ, List, Option, none, some, Result, ok, err}
use nng_core.Message.Heap.{Message}
use nng_core.Socket.Error.{NngError, io}
use nng_core.Socket.Reconnect.{
  ReconnectOptions, Redialled, connected, exhausted, still_trying, reconnect_transport,
}

-- `AnyTransport`: what its `send` and `recv` do is a parameter.
pub record Link (T : Type 0) : Type 0 where
  pub send : T → Message → Result (Unit {0}) NngError × T
  pub recv : T → Result Message NngError × T

-- `reconnect` is set together with the address that was dialled.
pub record Socket (T : Type 0) : Type 0 where
  pub transport : T
  pub reconnect : Option ReconnectOptions

abbrev pub new : {T : Type 0} → T → Socket T
new transport = record { transport = transport; reconnect = none }

abbrev pub new_reconnecting : {T : Type 0} → T → ReconnectOptions → Socket T
new_reconnecting transport opts = record { transport = transport; reconnect = some opts }

-- What a call returns; `runs_on` where the reconnecting had no fuel left.
pub data Returns (A : Type 0) : Type 0 where
  returned : Result A NngError → Returns A
  runs_on : Returns A

-- `fuel` bounds the attempts of a reconnect, in the network `W`.
module _ {T W : Type 0} ⦃link : Link T⦄ (connect_transport : W → Option T × W) (fuel : ℕ) where
  unfoldable pub after_reconnect : Redialled T → Socket T → W → Returns (Unit {0}) × Socket T × W
  after_reconnect (connected t) s w = (returned (ok tt), record s { transport = t }, w)
  after_reconnect exhausted s w = (returned (err NngError.reconnect_exhausted), s, w)
  after_reconnect still_trying s w = (runs_on, s, w)

  unfoldable pub do_reconnect : Socket T → W → Returns (Unit {0}) × Socket T × W
  do_reconnect s w = elim s.reconnect [
    | none ↦ (returned (err (io "reconnect not configured")), s, w)
    | some opts ↦
        let (o, slept, w') = reconnect_transport connect_transport opts fuel w in
        after_reconnect o s w'
  ]

  unfoldable pub after_redial :
      {A : Type 0}
      → (T → Result A NngError × T)
      → NngError
      → Returns (Unit {0})
      → Socket T
      → W
      → Returns A × Socket T × W
  after_redial attempt e (returned (ok _)) s w =
      let (r, t) = attempt s.transport in (returned r, record s { transport = t }, w)
  after_redial attempt e (returned (err _)) s w = (returned (err e), s, w)
  after_redial attempt e runs_on s w = (runs_on, s, w)

  -- The first use of the transport failed with `e`: reconnect and use the new one once, or return
  -- `e` itself.
  unfoldable pub retry :
      {A : Type 0}
      → (T → Result A NngError × T)
      → NngError
      → Socket T
      → W
      → Returns A × Socket T × W
  retry attempt e s w = let (o, s', w') = do_reconnect s w in after_redial attempt e o s' w'

  unfoldable pub after_attempt :
      {A : Type 0}
      → (T → Result A NngError × T)
      → Result A NngError
      → Socket T
      → W
      → Returns A × Socket T × W
  after_attempt attempt (ok a) s w = (returned (ok a), s, w)
  after_attempt attempt (err e) s w = elim s.reconnect [
    | none ↦ (returned (err e), s, w)
    | some _ ↦ retry attempt e s w
  ]

  unfoldable pub send_raw : Socket T → Message → W → Returns (Unit {0}) × Socket T × W
  send_raw s msg w =
      let (r, t) = link.send s.transport msg in
      after_attempt (λ t'. link.send t' msg) r (record s { transport = t }) w

  unfoldable pub recv_raw : Socket T → W → Returns Message × Socket T × W
  recv_raw s w =
      let (r, t) = link.recv s.transport in after_attempt link.recv r (record s { transport = t }) w
