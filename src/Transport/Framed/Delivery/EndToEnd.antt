-- ===== src/Transport/Framed/Delivery/EndToEnd.antt =====
-- A sender's transport and a receiver's transport at the two ends of one byte stream.
use nng_core.Prelude.{
  ◌≡◌, refl, ap, ap₂, sym, subst, ◌∙◌, ℕ, List, [], ◌∷◌, ◌++◌, append_assoc, append-nil, All,
  length, map, ok, err,
}
use nng_core.Message.Heap.{Message}
use nng_core.Codec.Frame.Laws.{payload}
use nng_core.Transport.Stream
use nng_core.Transport.Stream.{Stream}
use nng_core.Transport.Framed.{FrameFormat, RecvBuf, FramedTransport, Outcome, finished}
use nng_core.Transport.Framed.Send.{send}
use nng_core.Transport.Framed.Send.Laws.{Sent, LeavesUnsent, send-Sent}
use nng_core.Transport.Framed.Recv.Held.{frame_head, held, IsValid}
use nng_core.Transport.Framed.Recv.Series.{recv_series}
use nng_core.Transport.Framed.Wire.{frames, frame_head-nonempty}
use nng_core.Transport.Framed.Delivery.{Fits, received, InOrder, recv_series-InOrder}

module _ {S : Type 0} ⦃s : Stream S⦄ where
  -- Go on only if the send returned ok.
  after_sent :
      (FramedTransport S → Outcome (Unit {0}) × FramedTransport S)
      → Outcome (Unit {0})
      → FramedTransport S
      → Outcome (Unit {0}) × FramedTransport S
  after_sent next (finished (ok _)) t = next t
  after_sent next o t = (o, t)

  -- One send after the other, up to the first that does not return ok.
  unfoldable pub send_series :
      List Message → FramedTransport S → Outcome (Unit {0}) × FramedTransport S
  unfolding after_sent
  send_series [] t = (finished (ok tt), t)
  send_series (m ∷ ms) t = let (o, t') = send t m in after_sent (send_series ms) o t'

module _ {S : Type 0} ⦃s : Stream S⦄ (l : Stream.IsLawful s) where
  -- The later bytes were not begun.
  Sent-more :
      (from to : S) (bytes later : List ℕ) (o : Outcome (Unit {0}))
      → Sent l from bytes o to
      → ((rest : List ℕ) → LeavesUnsent o rest)
      → Sent l from (bytes ++ later) o to
  Sent-more from to bytes later o x any = record {
    sent = x.sent;
    rest = x.rest ++ later;
    split = ap (λ b. b ++ later) x.split ∙ append_assoc x.sent x.rest later;
    written = x.written;
    leaves = any (x.rest ++ later);
  }

  after_sent-Sent :
      (next : FramedTransport S → Outcome (Unit {0}) × FramedTransport S) (from : S)
      (t : FramedTransport S) (bytes later : List ℕ) (o : Outcome (Unit {0}))
      → Sent l from bytes o t.inner
      → Sent l t.inner later (next t).0 (next t).1.inner
      → Sent l from (bytes ++ later) (after_sent next o t).0 (after_sent next o t).1.inner
  unfolding after_sent
  after_sent-Sent next from t bytes later (finished (ok _)) x y = record {
    sent = bytes ++ y.sent;
    rest = y.rest;
    split = ap (λ b. bytes ++ b) y.split ∙ sym (append_assoc bytes y.sent y.rest);
    written =
        y.written
        ∙ ap (λ b. b ++ y.sent)
            (x.written
              ∙ ap (λ b. l.written from ++ b)
                  (sym (x.split ∙ ap (λ b. x.sent ++ b) x.leaves ∙ append-nil x.sent)))
        ∙ append_assoc (l.written from) bytes y.sent;
    leaves = y.leaves;
  }
  after_sent-Sent next from t bytes later (finished (err e)) x y =
      Sent-more from t.inner bytes later _ x (λ r. tt)
  after_sent-Sent next from t bytes later Outcome.cancelled x y =
      Sent-more from t.inner bytes later _ x (λ r. tt)
  after_sent-Sent next from t bytes later Outcome.stuck x y = absurd x.leaves

  send-format : (t : FramedTransport S) (m : Message) → (send t m).1.format ≡ t.format
  unfolding send
  send-format t m = refl

  pub send_series-Sent :
      (ms : List Message) (t : FramedTransport S)
      → Sent l t.inner
          (frames t.format (map payload ms))
          (send_series ms t).0
          (send_series ms t).1.inner
  unfolding send_series
  send_series-Sent [] t = record {
    sent = [];
    rest = [];
    split = refl;
    written = sym (append-nil _);
    leaves = refl;
  }
  send_series-Sent (m ∷ ms) t =
      after_sent-Sent (send_series ms) t.inner (send t m).1 _ _ (send t m).0 (send-Sent l t m) (
        subst
          (λ g.
            Sent l (send t m).1.inner (frames g (map payload ms)) (send_series ms (send t m).1).0
              (send_series ms (send t m).1).1.inner)
          (send-format t m) (send_series-Sent ms (send t m).1))

-- All that was sent is in the receiver's hands.
InOrder-complete :
    (format : FrameFormat) (sent : List (List ℕ)) (os : List (Outcome Message)) (rx : RecvBuf)
    (x : InOrder format sent os rx [])
    → held format rx ≡ []
    → received os ≡ sent
InOrder-complete format sent os rx x nothing = sym (
    x.split
    ∙ ap (λ qs. received os ++ qs) (none x.later (sym x.left ∙ append-nil _ ∙ nothing))
    ∙ append-nil _)
  where
    none : (ps : List (List ℕ)) → frames format ps ≡ [] → ps ≡ []
    none [] e = refl
    none (p ∷ ps) e = absurd (
        frame_head-nonempty format (length p) (p ++ frames format ps)
          (sym (append_assoc (frame_head format (length p)) p (frames format ps)) ∙ e))

module _ {A B P : Type 0} ⦃sa : Stream A⦄ ⦃sb : Stream B⦄ (la : Stream.IsLawful sa)
    (lb : Stream.IsLawful sb) (alloc_body : P → ℕ → List ℕ × P)
    (sizes : (p : P) (n : ℕ) → length (alloc_body p n).0 ≡ n) where
  -- What the receiver has is a prefix of what the sender's calls put on the wire.
  send_series-recv_series :
      (ms : List Message) (a : FramedTransport A) (n : ℕ) (b : FramedTransport B) (p : P)
      → All Fits (map payload ms)
      → a.format ≡ b.format
      → IsValid b.format b.rx
      → held b.format b.rx ≡ []
      → lb.delivered b.inner ≡ la.written a.inner
      → (in_flight : List ℕ)
      → lb.delivered (recv_series alloc_body n b p).1.inner ++ in_flight
        ≡ la.written (send_series ms a).1.inner
      → (unsent : List ℕ) × LeavesUnsent (send_series ms a).0 unsent
        × InOrder b.format
            (map payload ms)
            (recv_series alloc_body n b p).0
            (recv_series alloc_body n b p).1.rx
            (in_flight ++ unsent)
  send_series-recv_series ms a n b p fits same v nothing level in_flight wire =
      let x = send_series-Sent la ms a in
      (
        x.rest,
        x.leaves,
        recv_series-InOrder lb alloc_body sizes n b p v nothing (map payload ms) fits
            (in_flight ++ x.rest)
            (sym (append_assoc _ in_flight x.rest)
              ∙ ap (λ w. w ++ x.rest) (wire ∙ x.written)
              ∙ append_assoc (la.written a.inner) x.sent x.rest
              ∙ ap₂ ◌++◌ (sym level) (sym x.split ∙ ap (λ g. frames g (map payload ms)) same)),
      )

  -- A sender and a receiver at the ends of one lawful byte stream, both between two frames and of
  -- one frame format: when send has returned ok for each of some messages, none longer than the
  -- limit, and n calls of recv_inner have taken all that was written and stopped between two
  -- frames, the payloads returned are those sent, in order, wherever reads and writes cut the frames
  -- and calls of recv_inner were dropped.
  pub recv_series-send_series :
      (ms : List Message) (a : FramedTransport A) (n : ℕ) (b : FramedTransport B) (p : P)
      → All Fits (map payload ms)
      → a.format ≡ b.format
      → IsValid b.format b.rx
      → held b.format b.rx ≡ []
      → lb.delivered b.inner ≡ la.written a.inner
      → (send_series ms a).0 ≡ finished (ok tt)
      → lb.delivered (recv_series alloc_body n b p).1.inner ≡ la.written (send_series ms a).1.inner
      → held b.format (recv_series alloc_body n b p).1.rx ≡ []
      → received (recv_series alloc_body n b p).0 ≡ map payload ms
  recv_series-send_series ms a n b p fits same v nothing level done wire over =
      let (unsent, leaves, x) =
        send_series-recv_series ms a n b p fits same v nothing level [] (append-nil _ ∙ wire) in
      InOrder-complete b.format (map payload ms) _ _
        (subst
          (λ r.
            InOrder b.format (map payload ms) (recv_series alloc_body n b p).0
              (recv_series alloc_body n b p).1.rx r)
          (subst (λ o. LeavesUnsent o unsent) done leaves) x)
        over
