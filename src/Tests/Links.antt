-- ===== src/Tests/Links.antt =====
-- Sockets over a transport whose receives are given one after the other.
use nng_core.Prelude.{
  ℕ, zero, suc, ◌≡◌, refl, arith, List, [], ◌∷◌, Option, none, some, Result, ok, err,
}
use nng_core.Message.Heap.{Message, from_parts}
use nng_core.Protocols.Sub0
use nng_core.Protocols.Sub0.{Sub0State}
use nng_core.Protocols.Sub0.Topics.{any, starts_with, range_to}
use nng_core.Socket.Error.{NngError, connection_closed}
use nng_core.Socket.Reconnect.{ReconnectOptions}
use nng_core.Socket.Raw.{Link, new, new_reconnecting, returned, send_raw, recv_raw}
use nng_core.Socket.Raw.Laws.{send_raw-resends, recv_raw-keeps_error}
use nng_core.Socket.Receivers.{next}
use nng_core.Socket.Receivers.Laws.{next-delivers}

-- The receives to come, and what was sent.
record Script : Type 0 where
  receives : List (Result Message NngError)
  sent : List Message

abbrev recv_next : List (Result Message NngError) → Result Message NngError
recv_next [] = err connection_closed
recv_next (r ∷ rs) = r

abbrev recv_rest : List (Result Message NngError) → List (Result Message NngError)
recv_rest [] = []
recv_rest (r ∷ rs) = rs

-- A transport with nothing left to receive is closed: its sends fail too.
abbrev send_result : List (Result Message NngError) → Result (Unit {0}) NngError
send_result [] = err connection_closed
send_result (r ∷ rs) = ok tt

instance abbrev script_link : Link Script
script_link = record {
  send = λ t m. (send_result t.receives, record t { sent = m ∷ t.sent });
  recv = λ t. (recv_next t.receives, record t { receives = recv_rest t.receives });
}

abbrev msg : Message
msg = from_parts [] (5 ∷ [])

abbrev script : List (Result Message NngError) → Script
script receives = record { receives = receives; sent = [] }

-- The attempt at 0 gives an open transport.
abbrev connect : ℕ → Option Script × ℕ
connect zero = (some (script (ok msg ∷ [])), 0)
connect (suc n) = (none, n)

abbrev opts : ReconnectOptions
opts = record { min_backoff = 1; max_backoff = 8; max_attempts = some 2 }

send_raw-resends_example : send_raw connect 5 (new_reconnecting (script []) opts) msg 1 ≡ (
  returned (ok tt),
  new_reconnecting (record { receives = ok msg ∷ []; sent = msg ∷ [] }) opts,
  0,
)
send_raw-resends_example =
    send_raw-resends connect opts 1 5 (script []) (script (ok msg ∷ [])) msg 1 connection_closed
      refl (refl, tt) refl (omega arith) (omega arith)

recv_raw-keeps_error_example :
    recv_raw connect 5 (new_reconnecting (script []) opts) 4
    ≡ (returned (err connection_closed), new_reconnecting (script []) opts, 2)
recv_raw-keeps_error_example =
    recv_raw-keeps_error connect opts 1 5 2 (script []) 4 connection_closed refl refl (omega arith)
      refl (refl, (refl, tt)) (omega arith)

abbrev fives : Sub0State
fives = record { subscriptions = (5 ∷ []) ∷ [] }

abbrev feed : Script
feed = script (ok (from_parts [] (6 ∷ [])) ∷ ok msg ∷ [])

next-delivers_example :
    next connect 3 9 fives (new feed) 0 ≡ (returned (ok msg), new (script []), 0)
unfolding Sub0.matches any starts_with range_to nng_core.Protocols.Sub0.Order.cmp
    nng_core.Message.Heap.message_buf
next-delivers_example =
    next-delivers connect 3 fives 1 9 (new feed) 0 msg ((from_parts [] (6 ∷ []), refl, refl), tt)
      refl refl (omega arith)

-- A request that came through another router keeps its word.
abbrev asked : Script
asked = script (ok (from_parts [] (1 ∷ 2 ∷ 3 ∷ 4 ∷ 9 ∷ [])) ∷ [])
