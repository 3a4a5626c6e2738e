-- ===== src/Socket/Receivers.antt =====
-- The receiving loops of `Sub0::next` (src/socket/pubsub0.rs), `Respondent0::receive`
-- (src/socket/survey0.rs) and `Rep0::receive` (src/socket/reqrep0.rs), and what answers a message.
pub mod Laws
use nng_core.Prelude.{
  ℕ, zero, suc, Option, none, some, Bool, if◌then◌else◌, Exec, done, panic, ◌>>=◌, Result, ok, err,
}
use nng_core.Message.Heap.{Message, message_buf}
use nng_core.Protocols.Sub0
use nng_core.Protocols.Sub0.{Sub0State}
use nng_core.Protocols.Rep0
use nng_core.Protocols.Rep0.{RoutingInfo}
use nng_core.Protocols.Respondent0
use nng_core.Protocols.Respondent0.{SurveyRoutingInfo}
use Prim.Native.String.{String}
use nng_core.Socket.Error.{NngError, protocol_violation}
use nng_core.Socket.Reconnect.{ReconnectOptions}
use nng_core.Socket.Raw.{Link, Socket, Returns, returned, runs_on, do_reconnect, send_raw, recv_raw}

module _ {T W : Type 0} ⦃link : Link T⦄ (connect_transport : W → Option T × W) (attempts : ℕ) where
  unfoldable pub resume :
      {A : Type 0}
      → (Socket T → W → Returns A × Socket T × W)
      → Returns (Unit {0})
      → Socket T
      → W
      → Returns A × Socket T × W
  resume again (returned (ok _)) s w = again s w
  resume again (returned (err e)) s w = (returned (err e), s, w)
  resume again runs_on s w = (runs_on, s, w)

  -- A transport that failed: reconnect and go on with `again`, or return the error.
  unfoldable pub after_failure :
      {A : Type 0}
      → (Socket T → W → Returns A × Socket T × W)
      → NngError
      → Option ReconnectOptions
      → Socket T
      → W
      → Returns A × Socket T × W
  after_failure again e none s w = (returned (err e), s, w)
  after_failure again e (some _) s w =
      let (o, s', w') = do_reconnect connect_transport attempts s w in resume again o s' w'

  -- One round of `Sub0::next`.
  unfoldable pub after_recv :
      (Socket T → W → Returns Message × Socket T × W)
      → Sub0State
      → Result Message NngError
      → Socket T
      → W
      → Returns Message × Socket T × W
  after_recv again subs (ok msg) s w =
      let rest = again s w in if Sub0.matches subs msg then (returned (ok msg), s, w) else rest
  after_recv again subs (err e) s w = after_failure again e s.reconnect s w

  -- `Sub0::next`; each message and each failure is one unit of fuel.
  unfoldable pub next : ℕ → Sub0State → Socket T → W → Returns Message × Socket T × W
  next zero subs s w = (runs_on, s, w)
  next (suc fuel) subs s w =
      let (r, t) = link.recv s.transport in
      after_recv (next fuel subs) subs r (record s { transport = t }) w

  -- `Respondent0::receive`, up to the message that it processes.
  unfoldable pub after_survey_recv :
      (Socket T → W → Returns Message × Socket T × W)
      → Result Message NngError
      → Socket T
      → W
      → Returns Message × Socket T × W
  after_survey_recv again (ok msg) s w = (returned (ok msg), s, w)
  after_survey_recv again (err e) s w = after_failure again e s.reconnect s w

  unfoldable pub receive_survey : ℕ → Socket T → W → Returns Message × Socket T × W
  receive_survey zero s w = (runs_on, s, w)
  receive_survey (suc fuel) s w =
      let (r, t) = link.recv s.transport in
      after_survey_recv (receive_survey fuel) r (record s { transport = t }) w

  -- `process_incoming` has one error, of which `text` is the text: the message and its routing, or what the call returns instead.
  unfoldable pub routed :
      {E : Type 0}
      → String
      → Exec (Message × Result RoutingInfo E)
      → Exec (Returns (Message × RoutingInfo))
  routed text p = do
    (msg, routing) ← p
    elim routing [
      | ok r ↦ done (returned (ok (msg, r)))
      | err _ ↦ done (returned (err (protocol_violation text)))
    ]

  unfoldable pub after_wait :
      {E : Type 0}
      → String
      → (Message → Exec (Message × Result RoutingInfo E))
      → Returns Message
      → Exec (Returns (Message × RoutingInfo))
  after_wait text process (returned (ok msg)) = routed text (process msg)
  after_wait text process (returned (err e)) = done (returned (err e))
  after_wait text process runs_on = done runs_on

  unfoldable pub respondent_receive :
      ℕ → Socket T → W → Exec (Returns (Message × RoutingInfo) × Socket T × W)
  respondent_receive fuel s w = do
    let (o, s', w') = receive_survey fuel s w
    r ← after_wait "message too short to contain survey ID" Respondent0.process_incoming o
    done (r, s', w')

  -- `SurveyHandle::respond`: on the transport itself, with no reconnect.
  unfoldable pub respond :
      Socket T → SurveyRoutingInfo → Message → Exec (Result (Unit {0}) NngError × Socket T)
  respond s routing msg = do
    outgoing ← Respondent0.prepare_response msg routing
    let (r, t) = link.send s.transport outgoing
    done (r, record s { transport = t })

  -- `Rep0::receive` and `Responder::reply`.
  unfoldable pub rep_receive : Socket T → W → Exec (Returns (Message × RoutingInfo) × Socket T × W)
  rep_receive s w = do
    let (o, s', w') = recv_raw connect_transport attempts s w
    r ← after_wait "message too short to contain request ID" Rep0.process_incoming o
    done (r, s', w')

  unfoldable pub reply :
      Socket T → RoutingInfo → Message → W → Exec (Returns (Unit {0}) × Socket T × W)
  reply s routing msg w = do
    outgoing ← Rep0.prepare_reply msg routing
    done (send_raw connect_transport attempts s outgoing w)
