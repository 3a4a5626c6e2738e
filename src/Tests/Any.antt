-- ===== src/Tests/Any.antt =====
-- Sockets and transports over the concrete network.
use nng_core.Prelude.{◌≡◌, refl, arith, List, [], ◌∷◌, some, ok}
use nng_core.Prelude.Bytes.{to_be_bytes, from_be_bytes}
use nng_core.Message.Heap.{from_parts}
use nng_core.Codec.Protocol.{req0, rep0, expected_peer}
use nng_core.Codec.Handshake.{encode_handshake, decode_handshake, check_peer}
use nng_core.Transport.Fill.{fill, fill_loop, after_read, write_all, write_loop, after_write}
use nng_core.Transport.Framed.{tcp, empty_rx}
use nng_core.Transport.Framed.Send as Framed_send
use nng_core.Transport.Ws.{WsMessage, ping, text, binary, WsInner, dial, ends, next_inner, recv}
use nng_core.Transport.Ws.Laws.{recv-Settled}
use nng_core.Transport.Udp.{from_socket}
use nng_core.Transport.Udp.Laws.{Call, sends, recvs, run, Answers, run-Answers}
use nng_core.Socket.Raw.{Socket, new}
use nng_core.Socket.Call.{returned, ◌>>=◌}
use nng_core.Socket.Any.{AnyStream, AnyTransport}
use nng_core.Socket.Any.Address.{strip_prefix, on_prefix}
use nng_core.Socket.Any.Os.{AnyListener}
use nng_core.Socket.Any.Connect.{connect_framed, as_framed}
use nng_core.Socket.Any.Dial as Dial
use nng_core.Socket.Any.Listen.{accept_tcp, accept_raw, into_transport, accept_as_transport}
use nng_core.Socket.Any.Listen.Laws.{accept_raw-into_transport}
use nng_core.Socket.Any.Bind as Bind
use nng_core.Socket.Any.Agree.Ends.{Alike, listen-dial}
use nng_core.Tests.Network.{
  datagrams, datagrams_laws, two_senders, script_ws, links, os, no_features,
}

abbrev socket : WsInner (List WsMessage) (List WsMessage) (List WsMessage)
socket = dial (ping [] ∷ text "hello" ∷ binary (1 ∷ 2 ∷ []) ∷ binary (3 ∷ []) ∷ [])

recv-Settled_example :
    recv 3 socket ≡ (ends (ok (from_parts [] (1 ∷ 2 ∷ []))), dial (binary (3 ∷ []) ∷ []))
unfolding next_inner
recv-Settled_example =
    recv-Settled (ping [] ∷ text "hello" ∷ []) 3 socket _ (some (ok (binary (1 ∷ 2 ∷ [])))) _
      (tt, (tt, tt)) (refl, (refl, refl)) refl (omega arith)

-- A send before the first datagram fails; the two later ones go to the two senders.
abbrev calls : List Call
calls =
    sends (from_parts [] (1 ∷ []))
    ∷ recvs
    ∷ sends (from_parts [] (2 ∷ []))
    ∷ recvs
    ∷ sends (from_parts [] (3 ∷ []))
    ∷ []

run-Answers_example : Answers datagrams_laws (run calls (from_socket two_senders))
unfolding datagrams_laws
run-Answers_example = run-Answers datagrams_laws two_senders calls refl refl

accept_raw-into_transport_example :
    (accept_raw (os 0x30) (λ s. s) (AnyListener.tcp tt)
        >>= (λ raw. into_transport (os 0x30) (λ s. s) raw rep0)).run
      0
    ≡ (accept_as_transport (os 0x30) (λ s. s) (AnyListener.tcp tt) rep0).run 0
accept_raw-into_transport_example =
    accept_raw-into_transport (os 0x30) (λ s. s) (AnyListener.tcp tt) rep0 0 tt

abbrev listener : Socket (AnyTransport links)
listener = new (
    AnyTransport.framed (record {
      inner = AnyStream.tcp (record {
        incoming = [];
        script = [];
        delivered = 0 ∷ b'S' ∷ b'P' ∷ 0 ∷ 0 ∷ 0x30 ∷ 0 ∷ 0 ∷ [];
        written = 0 ∷ b'S' ∷ b'P' ∷ 0 ∷ 0 ∷ 0x31 ∷ 0 ∷ 0 ∷ [];
      });
      format = tcp;
      rx = empty_rx;
    }))

abbrev dialer : Socket (AnyTransport links)
dialer = new (
    AnyTransport.framed (record {
      inner = AnyStream.tcp (record {
        incoming = [];
        script = [];
        delivered = 0 ∷ b'S' ∷ b'P' ∷ 0 ∷ 0 ∷ 0x31 ∷ 0 ∷ 0 ∷ [];
        written = 0 ∷ b'S' ∷ b'P' ∷ 0 ∷ 0 ∷ 0x30 ∷ 0 ∷ 0 ∷ [];
      });
      format = tcp;
      rx = empty_rx;
    }))

listens :
    ((Bind.listen (os 0x30) (λ s. s) no_features "tcp://localhost:1" rep0).run 0).0
    ≡ returned (ok listener)
unfolding Bind.listen Bind.listen_by Bind.bind_listener Bind.bind_tcp on_prefix strip_prefix ◌>>=◌
    accept_as_transport accept_tcp connect_framed as_framed Framed_send.connect write_all write_loop
    after_write fill fill_loop after_read encode_handshake decode_handshake check_peer expected_peer
    to_be_bytes from_be_bytes
listens = refl

dials :
    ((Dial.dial (os 0x31) (λ s. s) no_features "tcp://localhost:1" req0).run 0).0
    ≡ returned (ok dialer)
unfolding Dial.dial Dial.dial_other Dial.connect_transport Dial.connect_any Dial.connect_stream
    Dial.connect_tcp on_prefix strip_prefix ◌>>=◌ connect_framed as_framed Framed_send.connect
    write_all write_loop after_write fill fill_loop after_read encode_handshake decode_handshake
    check_peer expected_peer to_be_bytes from_be_bytes
dials = refl

listen-dial_example : Alike listener.transport dialer.transport
listen-dial_example =
    listen-dial (os 0x30) (os 0x31) (λ s. s) no_features no_features "tcp://localhost:1" rep0 req0 0
      0 listener dialer listens dials
