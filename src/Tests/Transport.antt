-- ===== src/Tests/Transport.antt =====
-- Framed transports over a concrete stream.
use nng_core.Prelude.{ℕ, ◌≡◌, ◌∷◌, [], List, refl, length-replicate, ok}
use nng_core.Message.Heap.{Message, from_parts}
use nng_core.Codec.Protocol.{req0, expected_peer}
use nng_core.Prelude.Bytes.{to_be_bytes, from_be_bytes}
use nng_core.Codec.Handshake.{encode_handshake, decode_handshake, check_peer}
use nng_core.Transport.Fill.{
  fill_loop, after_read, write_loop, after_write, Filled, fill, write_all,
}
use nng_core.Transport.Framed.{tcp, ipc, empty_rx, payload_len, FramedTransport, Outcome, finished}
use nng_core.Transport.Framed.Send.{send, connect, write_parts}
use nng_core.Transport.Framed.Send.Laws.{Sent, send-Sent}
use nng_core.Transport.Framed.Send.Connect.{Greets, connect-Greets}
use nng_core.Transport.Framed.Recv.{recv_inner}
use nng_core.Transport.Framed.Recv.Held.{frame, IsValid}
use nng_core.Transport.Framed.Recv.Ledger.{Accounts}
use nng_core.Transport.Framed.Recv.Calls.{recv_inner-Accounts}
use nng_core.Transport.Framed.Recv.Series.{recv_series, Tallies, recv_series-Tallies}
use nng_core.Transport.BufferPool
use nng_core.Transport.BufferPool.{BufferPool, fresh_body, recycle, recv_pooled}
use nng_core.Transport.BufferPool.Laws.{recv_pooled-Accounts}
use nng_core.Tests.Pipe.{Pipe, pipe_stream, pipe_laws, pipe}

-- The frame of "hi", and a byte of the next one, in pieces of 5, then a drop, then
-- 4 and 1, then another drop, then the rest.
abbrev incoming : List ℕ
incoming = 0 ∷ 0 ∷ 0 ∷ 0 ∷ 0 ∷ 0 ∷ 0 ∷ 2 ∷ b'h' ∷ b'i' ∷ 0 ∷ []

abbrev fresh : FramedTransport Pipe
fresh = record { inner = pipe incoming (5 ∷ 0 ∷ 4 ∷ 1 ∷ 0 ∷ []); format = tcp; rx = empty_rx }

fresh-IsValid : IsValid tcp empty_rx
fresh-IsValid = record { sized = refl; phase = tt }

-- Two calls are dropped, one inside the header and one inside the payload; the third one returns
-- the message.
series_outcomes : (recv_series fresh_body 3 fresh tt).0 ≡ (
    Outcome.cancelled ∷ Outcome.cancelled ∷ finished (ok (from_parts [] (b'h' ∷ b'i' ∷ []))) ∷ [])
unfolding recv_series recv_inner fill fill_loop after_read from_be_bytes payload_len
series_outcomes = refl

recv_series-Tallies_example :
    Tallies pipe_laws fresh_body
      (λ p n. length-replicate n 0)
      fresh
      (recv_series fresh_body 3 fresh tt).0
      (recv_series fresh_body 3 fresh tt).1
unfolding recv_series recv_inner fill fill_loop after_read from_be_bytes payload_len
recv_series-Tallies_example =
    recv_series-Tallies pipe_laws fresh_body (λ p n. length-replicate n 0) 3 fresh tt fresh-IsValid
      (tt, (tt, (tt, tt)))

recv_inner-Accounts_example :
    Accounts pipe_laws [] fresh
      (recv_inner fresh_body fresh tt).0
      (recv_inner fresh_body fresh tt).1
recv_inner-Accounts_example =
    recv_inner-Accounts pipe_laws fresh_body (λ p n. length-replicate n 0) fresh tt fresh-IsValid

recv_pooled-Accounts_example :
    Accounts pipe_laws [] fresh
      (recv_pooled fresh BufferPool.new).0
      (recv_pooled fresh BufferPool.new).1
recv_pooled-Accounts_example = recv_pooled-Accounts pipe_laws fresh BufferPool.new fresh-IsValid

-- A message with a header and a body, sent in frames of the second format.
abbrev outgoing : FramedTransport Pipe
outgoing = record { inner = pipe [] []; format = ipc; rx = empty_rx }

abbrev hello : Message
hello = from_parts (7 ∷ []) (b'h' ∷ b'i' ∷ [])

sent_bytes :
    (send outgoing hello).1.inner.written
    ≡ (1 ∷ 0 ∷ 0 ∷ 0 ∷ 0 ∷ 0 ∷ 0 ∷ 0 ∷ 3 ∷ 7 ∷ b'h' ∷ b'i' ∷ [])
unfolding send write_all write_parts write_loop after_write to_be_bytes
sent_bytes = refl

send-Sent_example :
    Sent pipe_laws
      (pipe [] [])
      (frame ipc (7 ∷ b'h' ∷ b'i' ∷ []))
      (send outgoing hello).0
      (send outgoing hello).1.inner
send-Sent_example = send-Sent pipe_laws outgoing hello

-- The peer's handshake, and the peer's first byte behind it.
abbrev server : Pipe
server = pipe (0 ∷ b'S' ∷ b'P' ∷ 0 ∷ 0 ∷ 0x31 ∷ 0 ∷ 0 ∷ 5 ∷ []) (3 ∷ [])

connected :
    (connect server req0 tcp).0
    ≡ finished (ok (record { inner = (connect server req0 tcp).1; format = tcp; rx = empty_rx }))
unfolding connect write_all fill write_loop encode_handshake after_write to_be_bytes fill_loop
    after_read decode_handshake check_peer from_be_bytes expected_peer
connected = refl

connect-Greets_example :
    Greets pipe_laws server req0 tcp (connect server req0 tcp).1 (connect server req0 tcp).0
connect-Greets_example = connect-Greets pipe_laws server req0 tcp

abbrev to_fill : Filled Pipe
to_fill = record {
  stream = pipe incoming (5 ∷ 2 ∷ []);
  buf = 9 ∷ 0 ∷ 0 ∷ 0 ∷ 0 ∷ 0 ∷ 0 ∷ 0 ∷ [];
  filled = 1;
}

abbrev one_buffer : BufferPool
one_buffer = record { bufs = (1 ∷ []) ∷ []; max_bufs = 2; max_buf_bytes = 16 }
