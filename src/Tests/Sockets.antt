-- ===== src/Tests/Sockets.antt =====
-- The sockets' loops over given peers.
use nng_core.Prelude.{
  ℕ, zero, suc, ◌+◌, ◌^◌, ◌≤◌, ◌≡◌, ◌≢◌, ◌↔◌, refl, arith, List, [], ◌∷◌, All, length, Bool, true,
  false, Option, none, some, done, Result, ok, err,
}
use nng_core.Message.Heap.{Message, from_parts, message_buf, trim_front, drain_front}
use nng_core.Prelude.Bytes.{from_be_bytes}
use nng_core.Protocols.Req0
use nng_core.Protocols.Req0.{Req0State}
use nng_core.Protocols.Surveyor0
use nng_core.Protocols.Surveyor0.{Surveyor0State}
use nng_core.Socket.Error.{NngError, connection_closed}
use nng_core.Socket.Reconnect.{ReconnectOptions, connected, exhausted, reconnect_transport}
use nng_core.Socket.Reconnect.Laws.{reconnect_transport-connects, reconnect_transport-exhausts}
use nng_core.Socket.FanOut.{broadcast, set}
use nng_core.Socket.FanOut.Laws.{broadcast-Perm}
use nng_core.Socket.Push0Fan.{new, push_all}
use nng_core.Socket.Push0Fan.Laws.{push_all-round}
use nng_core.Socket.Request.{
  Inner, sending, returns, request_loop, after_send, after_recv, after_process, request,
}
use nng_core.Socket.Request.Laws.{Gets, request_loop_iff, request-high}
use nng_core.Socket.Survey.{
  survey_with_timeout, send_survey, collect, poll_pending, poll_at, after_poll,
}
use nng_core.Socket.Survey.Answers.{Reached, IsAnswer}
use nng_core.Socket.Survey.Laws.{survey_with_timeout-answers}
use mathlib.Core.List.{Perm}

abbrev msg : Message
msg = from_parts [] (5 ∷ [])

-- The network that the reconnecting runs in counts down to the attempt that succeeds.
abbrev connect : ℕ → Option ℕ × ℕ
connect zero = (some 7, 0)
connect (suc n) = (none, n)

abbrev opts : ReconnectOptions
opts = record { min_backoff = 100; max_backoff = 300; max_attempts = some 4 }

reconnect_transport-connects_example :
    reconnect_transport connect opts 9 3 ≡ (connected 7, 100 ∷ 200 ∷ 300 ∷ 300 ∷ [], 0)
reconnect_transport-connects_example =
    reconnect_transport-connects connect opts 3 9 3 7 (refl, (refl, (refl, tt))) refl (omega arith)
      (omega arith)

reconnect_transport-exhausts_example :
    reconnect_transport connect opts 9 6 ≡ (exhausted, 100 ∷ 200 ∷ 300 ∷ 300 ∷ [], 2)
reconnect_transport-exhausts_example =
    reconnect_transport-exhausts connect opts 3 9 4 6 refl (omega arith) refl
      (refl, (refl, (refl, (refl, tt)))) (omega arith)

-- A peer is a number: its send fails if it is even, and adds 10 to it.
abbrev is_even : ℕ → Bool
is_even zero = true
is_even (suc zero) = false
is_even (suc (suc n)) = is_even n

abbrev send : ℕ → Message → Bool × ℕ
send n m = (is_even n, n + 10)

broadcast_run : broadcast send msg (1 ∷ 2 ∷ 4 ∷ 3 ∷ []) ≡ (11 ∷ 13 ∷ [])
unfolding broadcast nng_core.Socket.FanOut.broadcast_loop nng_core.Socket.FanOut.after_send
    nng_core.Socket.FanOut.swap_remove nng_core.Socket.FanOut.set
broadcast_run = refl

broadcast-Perm_example : Perm (broadcast send msg (1 ∷ 2 ∷ 4 ∷ 3 ∷ [])) (11 ∷ 13 ∷ [])
broadcast-Perm_example = broadcast-Perm send msg (1 ∷ 2 ∷ 4 ∷ 3 ∷ [])

abbrev push_send : ℕ → Message → Result (Unit {0}) NngError × ℕ
push_send n m = (ok tt, n + 10)

push_all-round_example :
    push_all push_send (new (1 ∷ 2 ∷ [])) (msg ∷ msg ∷ [])
    ≡ done (new (11 ∷ 12 ∷ []), ok tt ∷ ok tt ∷ [])
push_all-round_example = push_all-round push_send (1 ∷ 2 ∷ []) (msg ∷ msg ∷ []) refl

-- A socket that gives these outcomes of its receives, and then no reply.
abbrev next :
    List (Option (Result Message NngError))
    → Option (Result Message NngError) × List (Option (Result Message NngError))
next [] = (none, [])
next (r ∷ rs) = (r, rs)

instance abbrev scripted : Inner (List (Option (Result Message NngError)))
scripted = record { send_raw = λ rs m. (ok tt, rs); recv_raw = next }

-- A timeout, a stale reply, the reply.
abbrev late : List (Option (Result Message NngError))
late =
    none
    ∷ some (ok (from_parts [] (0x80 ∷ 0 ∷ 0 ∷ 1 ∷ 8 ∷ [])))
    ∷ some (ok (from_parts [] (0x80 ∷ 0 ∷ 0 ∷ 2 ∷ 9 ∷ [])))
    ∷ []

late_reply : (request_loop msg 2 6 sending late).0 ≡ returns (ok (from_parts [] (9 ∷ [])))
unfolding request_loop after_send after_recv after_process Req0.process_incoming message_buf
    trim_front drain_front from_be_bytes
late_reply = refl

request_loop_iff_example :
    ((fuel : ℕ) × ((request_loop msg 2 fuel sending late).0
        ≡ returns (ok (from_parts [] (9 ∷ [])))))
    ↔ ((n : ℕ) × Gets msg 2 (from_parts [] (9 ∷ [])) n sending late)
request_loop_iff_example = request_loop_iff msg 2 (from_parts [] (9 ∷ [])) sending late

request-high_example :
    request 6 (record { next_id = 2 ^ 31 }) msg late
    ≢ done (record { next_id = 2 ^ 31 + 1 }, returns (ok (from_parts [] (9 ∷ []))), [])
request-high_example =
    request-high 6 (record { next_id = 2 ^ 31 }) (record { next_id = 2 ^ 31 + 1 }) msg
      (from_parts [] (9 ∷ [])) late [] (omega arith)

-- Respondents with such scripts; an empty one refuses the survey.
abbrev survey_send :
    List (Option (Result Message NngError))
    → Message
    → Bool × List (Option (Result Message NngError))
survey_send [] m = (false, [])
survey_send (r ∷ rs) m = (true, r ∷ rs)

abbrev respondents : List (List (Option (Result Message NngError)))
respondents =
    (none ∷ some (ok (from_parts [] (0 ∷ 0 ∷ 0 ∷ 1 ∷ 8 ∷ []))) ∷ [])
    ∷ []
    ∷ (some (err connection_closed) ∷ [])
    ∷ []

survey_with_timeout-answers_example :
    (s' : Surveyor0State) × (ts' : List (List (Option (Result Message NngError))))
    × (responses : List Message) × (survey_with_timeout survey_send next 5 Surveyor0.new msg
          respondents
        ≡ done (s', ts', responses))
    × (s'.current_id ≡ 1)
    × All
        (IsAnswer survey_send next
          (Reached survey_send next (from_parts (0 ∷ 0 ∷ 0 ∷ 1 ∷ msg.header) msg.body) respondents)
          s'.current_id)
        responses
    × (length responses ≤ 3)
unfolding nng_core.Message.Heap.header_push_back nng_core.Prelude.Bytes.to_be_bytes
survey_with_timeout-answers_example =
    survey_with_timeout-answers survey_send next Surveyor0.new 5 msg respondents

-- A respondent whose answer to the survey before is still under way: that answer is refused, and
-- the answer to this survey, behind it, is never read.
abbrev slow : List (List (Option (Result Message NngError)))
slow =
    (some (ok (from_parts [] (0 ∷ 0 ∷ 0 ∷ 1 ∷ 8 ∷ [])))
      ∷ some (ok (from_parts [] (0 ∷ 0 ∷ 0 ∷ 2 ∷ 9 ∷ [])))
      ∷ [])
    ∷ []

slow_answer_lost :
    survey_with_timeout survey_send next 5 (record { next_id = 2; current_id = 1 }) msg slow
    ≡ done (
      record { next_id = 3; current_id = 2 },
      (some (ok (from_parts [] (0 ∷ 0 ∷ 0 ∷ 2 ∷ 9 ∷ []))) ∷ []) ∷ [],
      [],
    )
unfolding survey_with_timeout send_survey collect poll_pending poll_at after_poll
    Surveyor0.prepare_survey Surveyor0.process_response message_buf trim_front drain_front
    from_be_bytes set
slow_answer_lost = refl
