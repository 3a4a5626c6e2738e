-- ===== src/Tests/Hub.antt =====
-- `Bus0` (src/socket/bus0.rs) at concrete inputs: a hub for two peers on a system whose first
-- connection fails.
use nng_core.Prelude.{ℕ, zero, suc, ◌≡◌, refl, arith, [], ◌∷◌, some, Bool, ltb, Result, ok, err}
use nng_core.Prelude.Bytes.{to_be_bytes, from_be_bytes}
use nng_core.Codec.Protocol.{bus0, expected_peer}
use nng_core.Codec.Handshake.{encode_handshake, decode_handshake, check_peer}
use nng_core.Transport.Fill.{fill, fill_loop, after_read, write_all, write_loop, after_write}
use nng_core.Transport.Framed.{tcp, empty_rx}
use nng_core.Transport.Framed.Send as Framed_send
use nng_core.Socket.Call.{returned, ◌>>=◌}
use nng_core.Socket.Peers.{admit}
use nng_core.Socket.Any.{AnyStream, AnyTransport}
use nng_core.Socket.Any.Address.{on_prefix, strip_prefix}
use nng_core.Socket.Any.Os.{Os, AnyListener}
use nng_core.Socket.Any.Connect.{connect_framed, as_framed}
use nng_core.Socket.Any.Listen.{accept_tcp, accept_raw, into_transport, accept_as_transport}
use nng_core.Socket.Any.Bind.{bind_tcp, bind_listener}
use nng_core.Socket.Members.{
  Bus0, accept_until, listen_and_accept, after_raw, drain, drain_hub, accept_pending,
}
use nng_core.Socket.Members.Pending.{IsHubFor, accept_pending-IsHubFor}
use nng_core.Socket.Members.Laws.{IsFull, listen_and_accept-IsFull}
use nng_core.Socket.Members.Collects.{Arrives, last, refused, joined, listen_and_accept-collects}
use nng_core.Tests.Pipe.{Pipe, pipe}
use nng_core.Tests.Network.{links, os, no_features}
use Prim.Native.String.{String}

abbrev accept_at : ℕ → Result Pipe String × ℕ
accept_at zero = (err "refused", 1)
accept_at (suc n) = (ok (pipe (0 ∷ b'S' ∷ b'P' ∷ 0 ∷ 0 ∷ 0x70 ∷ 0 ∷ 0 ∷ []) []), suc (suc n))

abbrev flaky : Os links
flaky = record (os 0x70) { tcp_accept = λ l n. accept_at n }

abbrev peer : AnyTransport links
peer = AnyTransport.framed (record {
  inner = AnyStream.tcp (record {
    incoming = [];
    script = [];
    delivered = 0 ∷ b'S' ∷ b'P' ∷ 0 ∷ 0 ∷ 0x70 ∷ 0 ∷ 0 ∷ [];
    written = 0 ∷ b'S' ∷ b'P' ∷ 0 ∷ 0 ∷ 0x70 ∷ 0 ∷ 0 ∷ [];
  });
  format = tcp;
  rx = empty_rx;
})

abbrev hub : Bus0 links flaky
hub = record { listener = some (AnyListener.tcp tt); peers = peer ∷ peer ∷ [] }

binds :
    (bind_listener flaky (λ s. s) no_features "tcp://localhost:1").run 0
    ≡ (returned (ok (AnyListener.tcp tt)), 0)
unfolding bind_listener bind_tcp on_prefix strip_prefix ◌>>=◌
binds = refl

arrives :
    Arrives (accept_as_transport flaky (λ s. s) (AnyListener.tcp tt) bus0) 0 (peer ∷ peer ∷ []) 3 3
unfolding ◌>>=◌ accept_as_transport accept_tcp connect_framed as_framed Framed_send.connect
    write_all write_loop after_write fill fill_loop after_read encode_handshake decode_handshake
    check_peer expected_peer to_be_bytes from_be_bytes
arrives = refused refl (joined refl (last refl))

listen_and_accept-collects_example :
    (listen_and_accept flaky (λ s. s) no_features 3 "tcp://localhost:1" 2).run 0
    ≡ (returned (ok hub), 3)
listen_and_accept-collects_example =
    listen_and_accept-collects flaky (λ s. s) no_features 3 2 "tcp://localhost:1"
      (AnyListener.tcp tt) (peer ∷ peer ∷ []) 3 0 0 3 binds arrives refl (omega arith)

accepts :
    ((listen_and_accept flaky (λ s. s) no_features 3 "tcp://localhost:1" 2).run 0).0
    ≡ returned (ok hub)
unfolding listen_and_accept accept_until admit bind_listener bind_tcp on_prefix strip_prefix ◌>>=◌
    accept_as_transport accept_tcp connect_framed as_framed Framed_send.connect write_all write_loop
    after_write fill fill_loop after_read encode_handshake decode_handshake check_peer expected_peer
    to_be_bytes from_be_bytes
accepts = refl

listen_and_accept-IsFull_example : IsFull "tcp://localhost:1" 2 (peer ∷ peer ∷ [])
listen_and_accept-IsFull_example =
    listen_and_accept-IsFull flaky (λ s. s) no_features 3 "tcp://localhost:1" 2 0 hub accepts

-- The kernel has connections until it has handed out two.
abbrev ready : AnyListener links flaky → ℕ → Bool
ready l n = ltb n 3

admits :
    ((accept_pending flaky (λ s. s) no_features ready 4 (record hub { peers = [] })).run 1).0
    ≡ returned (ok hub)
unfolding accept_pending drain_hub drain after_raw admit ◌>>=◌ accept_raw into_transport accept_tcp
    connect_framed as_framed Framed_send.connect write_all write_loop after_write fill fill_loop
    after_read encode_handshake decode_handshake check_peer expected_peer to_be_bytes from_be_bytes
admits = refl

accept_pending-IsHubFor_example : IsHubFor flaky (λ s. s) no_features "tcp://localhost:1" hub
unfolding strip_prefix
accept_pending-IsHubFor_example =
    accept_pending-IsHubFor flaky (λ s. s) no_features ready 4 "tcp://localhost:1"
      (record hub { peers = [] }) hub 1 (("localhost:1", refl), tt) admits
