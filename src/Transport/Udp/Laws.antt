-- ===== src/Transport/Udp/Laws.antt =====
-- Whom a listening transport answers.
use nng_core.Prelude.{
  ◌≡◌, refl, ap, sym, ◌∙◌, ℕ, List, [], ◌∷◌, ◌++◌, append-nil, All, All-append, All-imp, arith,
  Bool, true, false, Option, none, some, Result, ok, err,
}
use nng_core.Prelude.Last.{last_of, last_of-snoc, IsIn, IsIn-append, IsIn-last_of}
use nng_core.Message.Heap.{Message}
use nng_core.Codec.Frame.Laws.{payload}
use nng_core.Transport.Udp.{
  UdpSocket, UdpTransport, from_socket, max_udp_payload, send_known, send_by, send, after_datagram,
  recv,
}
use Prim.Native.String.{String}

module _ {Addr : Type 0} where
  abbrev pub sent_by : Result (Unit {0}) String → Addr → List ℕ → List (Addr × List ℕ)
  sent_by (ok _) a bytes = (a, bytes) ∷ []
  sent_by (err _) a bytes = []

  abbrev pub heard_by : Result (List ℕ × Addr) String → List Addr
  heard_by (ok (_, from)) = from ∷ []
  heard_by (err _) = []

-- What the socket's documentation promises: `sent` are the datagrams sent to an address so far,
-- `heard` the senders of those received, the oldest first.
pub record IsLawful {S Addr : Type 0} (u : UdpSocket S Addr) : Type 0 where
  pub sent : S → List (Addr × List ℕ)
  pub heard : S → List Addr
  pub send_to_sent :
      (s : S) (bytes : List ℕ) (a : Addr)
      → sent (u.send_to s bytes a).1 ≡ sent s ++ sent_by (u.send_to s bytes a).0 a bytes
  pub send_to_heard : (s : S) (bytes : List ℕ) (a : Addr) → heard (u.send_to s bytes a).1 ≡ heard s
  pub recv_from_heard :
      (s : S) (n : ℕ) → heard (u.recv_from s n).1 ≡ heard s ++ heard_by (u.recv_from s n).0
  pub recv_from_sent : (s : S) (n : ℕ) → sent (u.recv_from s n).1 ≡ sent s

-- A call of the transport's user.
pub data Call : Type 0 where
  sends : Message → Call
  recvs : Call

module _ {S Addr : Type 0} ⦃u : UdpSocket S Addr⦄ where
  unfoldable pub step : Call → UdpTransport S Addr → UdpTransport S Addr
  step (sends m) t = (send t m).1
  step recvs t = (recv t).1

  -- Any calls, one after the other, whatever each returns.
  unfoldable pub run : List Call → UdpTransport S Addr → UdpTransport S Addr
  run [] t = t
  run (c ∷ cs) t = run cs (step c t)

module _ {S Addr : Type 0} ⦃u : UdpSocket S Addr⦄ (l : IsLawful u) where
  -- It answers the sender of the latest datagram, and has sent only to senders.
  pub record Answers (t : UdpTransport S Addr) : Type 0 where
    pub listens : t.connected ≡ false
    pub peer_is_last : t.peer ≡ last_of (l.heard t.socket)
    pub to_senders : All (λ d. IsIn d.0 (l.heard t.socket)) (l.sent t.socket)

  sent_by-IsIn :
      (r : Result (Unit {0}) String) (a : Addr) (bytes : List ℕ) (xs : List Addr)
      → IsIn a xs
      → All (λ d. IsIn d.0 xs) (sent_by r a bytes)
  sent_by-IsIn (ok _) a bytes xs h = (h, tt)
  sent_by-IsIn (err _) a bytes xs h = tt

  send_to-Answers :
      (t : UdpTransport S Addr) (bytes : List ℕ) (a : Addr)
      → t.peer ≡ some a
      → Answers t
      → Answers (record t { socket = (u.send_to t.socket bytes a).1 })
  send_to-Answers t bytes a e x =
      let same = l.send_to_heard t.socket bytes a in
      record {
        listens = x.listens;
        peer_is_last = x.peer_is_last ∙ ap last_of (sym same);
        to_senders =
            rw (same, l.send_to_sent t.socket bytes a)
              (All-append (λ d. IsIn d.0 (l.heard t.socket)) (l.sent t.socket) _ x.to_senders
                (sent_by-IsIn _ a bytes (l.heard t.socket)
                  (IsIn-last_of a (l.heard t.socket) (sym e ∙ x.peer_is_last))));
      }

  send_known-Answers :
      (p : Option Addr) (t : UdpTransport S Addr) (bytes : List ℕ)
      → t.peer ≡ p
      → Answers t
      → Answers (send_known p t bytes).1
  unfolding send_known
  send_known-Answers none t bytes e x = x
  send_known-Answers (some a) t bytes e x = send_to-Answers t bytes a e x

  send_by-Answers :
      (b : Bool) (t : UdpTransport S Addr) (bytes : List ℕ)
      → t.connected ≡ b
      → Answers t
      → Answers (send_by b t bytes).1
  unfolding send_by
  send_by-Answers true t bytes e x = absurd (ground (arith, e, x.listens))
  send_by-Answers false t bytes e x = send_known-Answers t.peer t bytes refl x

  after_datagram-Answers :
      (r : Result (List ℕ × Addr) String) (t : UdpTransport S Addr) (s : S)
      → Answers t
      → l.heard s ≡ l.heard t.socket ++ heard_by r
      → l.sent s ≡ l.sent t.socket
      → Answers (after_datagram r (record t { socket = s })).1
  unfolding after_datagram
  after_datagram-Answers (ok (bytes, from)) t s x h k = record {
    listens = x.listens;
    peer_is_last = sym (ap last_of h ∙ last_of-snoc (l.heard t.socket) from);
    to_senders =
        rw (h, k)
          (All-imp (λ d i. IsIn-append d.0 (l.heard t.socket) (from ∷ []) i) (l.sent t.socket)
            x.to_senders);
  }
  after_datagram-Answers (err e) t s x h k = record {
    listens = x.listens;
    peer_is_last = x.peer_is_last ∙ ap last_of (sym (h ∙ append-nil _));
    to_senders = rw (h, append-nil (l.heard t.socket), k) x.to_senders;
  }

  step-Answers : (c : Call) (t : UdpTransport S Addr) → Answers t → Answers (step c t)
  unfolding step send recv
  step-Answers (sends m) t x = send_by-Answers t.connected t (payload m) refl x
  step-Answers recvs t x =
      after_datagram-Answers _ t _ x (l.recv_from_heard t.socket max_udp_payload)
        (l.recv_from_sent t.socket max_udp_payload)

  run-from : (cs : List Call) (t : UdpTransport S Addr) → Answers t → Answers (run cs t)
  unfolding run
  run-from [] t x = x
  run-from (c ∷ cs) t x = run-from cs (step c t) (step-Answers c t x)

  -- After any sends and receives on a transport made from a new bound socket, its peer is the
  -- sender of the latest datagram received, and every datagram was sent to an address from which
  -- one had been received.
  pub run-Answers :
      (s : S) (cs : List Call) → l.heard s ≡ [] → l.sent s ≡ [] → Answers (run cs (from_socket s))
  run-Answers s cs h k =
      run-from cs (from_socket s)
        (record { listens = refl; peer_is_last = ap last_of (sym h); to_senders = rw k tt })
