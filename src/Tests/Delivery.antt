-- ===== src/Tests/Delivery.antt =====
-- Framed transports at the two ends of a stream.
use nng_core.Prelude.{ℕ, ◌≡◌, ◌∷◌, [], List, refl, arith, length-replicate, replicate, map}
use nng_core.Prelude.Bytes.{to_be_bytes, from_be_bytes}
use nng_core.Message.Heap.{Message, from_parts}
use nng_core.Codec.Frame.Laws.{payload}
use nng_core.Transport.Fill.{fill, fill_loop, after_read, write_all, write_loop, after_write}
use nng_core.Transport.Framed.{tcp, empty_rx, payload_len, FramedTransport}
use nng_core.Transport.Framed.Send.{send, write_parts}
use nng_core.Transport.Framed.Recv.{recv_inner}
use nng_core.Transport.Framed.Recv.Held.{IsValid}
use nng_core.Transport.Framed.Recv.Series.{recv_series}
use nng_core.Transport.Framed.Delivery.{received, InOrder, recv_series-InOrder}
use nng_core.Transport.Framed.Delivery.EndToEnd.{send_series, recv_series-send_series}
use nng_core.Transport.Framed.Delivery.Next.{IsNext, recv_inner-IsNext}
use nng_core.Transport.BufferPool.{fresh_body}
use nng_core.Tests.Pipe.{Pipe, pipe_stream, pipe_laws, pipe}
use nng_core.Tests.Zeros.{Zeros, zeros_stream, zeros_laws, zeros-Flows, no_bytes}

new-IsValid : IsValid tcp empty_rx
new-IsValid = record { sized = refl; phase = tt }

abbrev two_payloads : List (List ℕ)
two_payloads = (b'h' ∷ b'i' ∷ []) ∷ (b'y' ∷ []) ∷ []

-- The frame of "hi" and a part of the header of the next one, in pieces, with two dropped calls.
abbrev receiver : FramedTransport Pipe
receiver = record {
  inner =
      pipe (0 ∷ 0 ∷ 0 ∷ 0 ∷ 0 ∷ 0 ∷ 0 ∷ 2 ∷ b'h' ∷ b'i' ∷ 0 ∷ 0 ∷ []) (5 ∷ 0 ∷ 4 ∷ 2 ∷ 2 ∷ 0 ∷ []);
  format = tcp;
  rx = empty_rx;
}

recv_series-InOrder_example :
    InOrder tcp two_payloads
      (recv_series fresh_body 3 receiver tt).0
      (recv_series fresh_body 3 receiver tt).1.rx
      (0 ∷ 0 ∷ 0 ∷ 0 ∷ 0 ∷ 1 ∷ b'y' ∷ [])
unfolding pipe_laws recv_series recv_inner fill fill_loop after_read from_be_bytes to_be_bytes
    payload_len
recv_series-InOrder_example =
    recv_series-InOrder pipe_laws fresh_body (λ p n. length-replicate n 0) 3 receiver tt new-IsValid
      refl two_payloads (omega arith, (omega arith, tt)) (0 ∷ 0 ∷ 0 ∷ 0 ∷ 0 ∷ 1 ∷ b'y' ∷ []) refl

abbrev greetings : List Message
greetings = from_parts (7 ∷ []) (b'h' ∷ b'i' ∷ []) ∷ from_parts [] (b'y' ∷ []) ∷ []

abbrev dialer : FramedTransport Pipe
dialer = record { inner = pipe [] []; format = tcp; rx = empty_rx }

abbrev listener : FramedTransport Pipe
listener = record {
  inner =
      pipe
        (0 ∷ 0 ∷ 0 ∷ 0 ∷ 0 ∷ 0 ∷ 0 ∷ 3 ∷ 7 ∷ b'h' ∷ b'i' ∷ 0 ∷ 0 ∷ 0 ∷ 0 ∷ 0 ∷ 0 ∷ 0 ∷ 1 ∷ b'y'
          ∷ [])
        (3 ∷ 0 ∷ []);
  format = tcp;
  rx = empty_rx;
}

recv_series-send_series_example :
    received (recv_series fresh_body 3 listener tt).0 ≡ map payload greetings
unfolding pipe_laws recv_series recv_inner fill fill_loop after_read from_be_bytes to_be_bytes
    payload_len send send_series write_all write_parts write_loop after_write
recv_series-send_series_example =
    recv_series-send_series pipe_laws pipe_laws fresh_body (λ p n. length-replicate n 0) greetings
      dialer 3 listener tt (omega arith, (omega arith, tt)) refl new-IsValid refl refl refl refl
      refl

abbrev quiet : FramedTransport Zeros
quiet = record { inner = no_bytes; format = tcp; rx = empty_rx }

recv_inner-IsNext_example :
    IsNext tcp [] [] (recv_inner fresh_body quiet tt).0 (recv_inner fresh_body quiet tt).1.rx []
unfolding zeros_laws recv_inner fill fill_loop after_read from_be_bytes to_be_bytes payload_len
recv_inner-IsNext_example =
    recv_inner-IsNext zeros_laws zeros-Flows fresh_body (λ p n. length-replicate n 0) quiet tt
      new-IsValid [] [] (omega arith, tt) (replicate 8 0) [] refl refl
