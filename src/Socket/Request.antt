-- ===== src/Socket/Request.antt =====
-- `Req0::request` (src/socket/reqrep0.rs): send, wait for the reply, send again when it is late.
pub mod Laws
use nng_core.Prelude.{ℕ, zero, suc, Option, none, some, Exec, done, panic, ◌>>=◌, Result, ok, err}
use nng_core.Message.Heap.{Message, message_buf}
use nng_core.Protocols.Req0
use nng_core.Protocols.Req0.{ReqRepError, id_mismatch, message_too_short, Req0State}
use nng_core.Socket.Error.{NngError, protocol_violation}

-- `self.inner`, a `Socket<Req0>`, as what its methods do. A receive that ends with `none` was
-- still waiting when the resend time was over; with no resend time that does not happen.
pub record Inner (I : Type 0) : Type 0 where
  pub send_raw : I → Message → Result (Unit {0}) NngError × I
  pub recv_raw : I → Option (Result Message NngError) × I

-- Where the two loops are: before the send, or waiting for a reply.
pub data Phase : Type 0 where
  sending waiting : Phase

-- How the call ends: it returns or panics; or the fuel ran out.
pub data Ends : Type 0 where
  returns : Result Message NngError → Ends
  panics : Ends
  runs_on : Ends

module _ {I : Type 0} ⦃inner : Inner I⦄ (outgoing : Message) (sent_id : ℕ) where
  unfoldable pub after_send : (Phase → I → Ends × I) → Result (Unit {0}) NngError → I → Ends × I
  after_send again (ok _) i = again waiting i
  after_send again (err e) i = (returns (err e), i)

  unfoldable pub after_process :
      (Phase → I → Ends × I) → Exec (Message × Result (Unit {0}) ReqRepError) → I → Ends × I
  after_process again (done (reply, ok _)) i = (returns (ok reply), i)
  after_process again (done (reply, err (id_mismatch got expected))) i = again waiting i
  after_process again (done (reply, err message_too_short)) i =
      (returns (err (protocol_violation "message too short to contain request ID")), i)
  after_process again panic i = (panics, i)

  unfoldable pub after_recv :
      (Phase → I → Ends × I) → Option (Result Message NngError) → I → Ends × I
  after_recv again (some (ok raw)) i = after_process again (Req0.process_incoming raw sent_id) i
  after_recv again (some (err e)) i = (returns (err e), i)
  after_recv again none i = again sending i

  -- Each round of either loop is one unit of fuel.
  unfoldable pub request_loop : ℕ → Phase → I → Ends × I
  request_loop zero phase i = (runs_on, i)
  request_loop (suc fuel) sending i =
      let (r, i') = inner.send_raw i outgoing in after_send (request_loop fuel) r i'
  request_loop (suc fuel) waiting i =
      let (r, i') = inner.recv_raw i in after_recv (request_loop fuel) r i'

-- The id is stamped once, the loops run with it.
unfoldable pub request :
    {I : Type 0} ⦃inner : Inner I⦄ → ℕ → Req0State → Message → I → Exec (Req0State × Ends × I)
request fuel s msg i = do
  (s', outgoing, sent_id) ← Req0.prepare_outgoing s msg
  let (ends, i') = request_loop outgoing sent_id fuel sending i
  done (s', ends, i')
