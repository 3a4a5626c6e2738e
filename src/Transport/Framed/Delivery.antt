-- ===== src/Transport/Framed/Delivery.antt =====
-- What a receiver makes of the bytes of whole frames, in whatever pieces they come.
pub mod EndToEnd
pub mod Next
use nng_core.Prelude.{
  ℕ, zero, suc, ◌≤◌, ◌≡◌, refl, ap, subst, sym, ◌∙◌, arith, List, [], ◌∷◌, ◌++◌, append_assoc,
  append-nil, append_cancel, All, length, get_or, ok, err,
}
use nng_core.Message.Heap.{Message}
use nng_core.Codec.Frame.Laws.{payload}
use nng_core.Transport.Stream
use nng_core.Transport.Stream.{Stream}
use nng_core.Transport.Framed.{
  FrameFormat, max_frame_bytes, TransportError, RecvBuf, FramedTransport, Outcome, finished,
}
use nng_core.Transport.Framed.Wire.{frames, frame-split, frame_head-split, frame_head-nonempty}
use nng_core.Transport.Framed.Recv.{recv_inner}
use nng_core.Transport.Framed.Recv.Held.{
  frame_head, held, held_in, too_large, bad_type, Declares, IsValid,
}
use nng_core.Transport.Framed.Recv.Ledger.{IsStop, Settles, whole, partial, refused, Accounts}
use nng_core.Transport.Framed.Recv.Calls.{recv_inner-Accounts}
use nng_core.Transport.Framed.Recv.Series.{IsOkOrStop, recv_series}

-- A payload that a receiver accepts.
abbrev pub Fits : List ℕ → Type 0
Fits p = length p ≤ max_frame_bytes

-- The payload that a call returned, if it returned one.
abbrev pub received_by : Outcome Message → List (List ℕ)
received_by (finished (ok m)) = payload m ∷ []
received_by _ = []

-- The payloads that the calls returned, in order.
abbrev pub received : List (Outcome Message) → List (List ℕ)
received [] = []
received (o ∷ os) = received_by o ++ received os

-- After one call or several that had the first bytes of the frames of `sent` in hand, `rest` being
-- the bytes of them that are still to come.
pub record InOrder (format : FrameFormat) (sent : List (List ℕ)) (os : List (Outcome Message))
    (rx : RecvBuf) (rest : List ℕ) : Type 0 where
  pub later : List (List ℕ)
  pub split : sent ≡ received os ++ later
  pub accepted : All IsOkOrStop os
  pub fits : All Fits later
  pub left : held format rx ++ rest ≡ frames format later

Declares-Fits :
    (format : FrameFormat) (head : List ℕ) (e : TransportError) (p rest more : List ℕ)
    → Declares format head (err e)
    → Fits p
    → head ++ rest ≡ frame_head format (length p) ++ more
    → ⊥
Declares-Fits format head e p rest more (too_large n big lt h) fits same =
    let (sizes, _) =
      frame_head-split format n (length p) rest more lt (omega arith)
        (sym (ap (λ b. b ++ rest) h) ∙ same) in
    omega arith
Declares-Fits format head e p rest more (bad_type b tail f ne h) fits same = ne (
    ap (λ bs. get_or bs 0 0)
      (subst (λ g. (b ∷ tail) ++ rest ≡ frame_head g (length p) ++ more) f
        (sym (ap (λ bs. bs ++ rest) h) ∙ same)))

Declares-nonempty :
    (format : FrameFormat) (head : List ℕ) (e : TransportError) (rest : List ℕ)
    → Declares format head (err e)
    → head ++ rest ≡ []
    → ⊥
Declares-nonempty format head e rest (too_large n big lt h) same =
    frame_head-nonempty format n rest (sym (ap (λ b. b ++ rest) h) ∙ same)
Declares-nonempty format head e rest (bad_type b tail f ne h) same =
    omega (arith, ap length (sym (ap (λ bs. bs ++ rest) h) ∙ same))

IsStop-lem : (o : Outcome Message) → IsStop o → IsOkOrStop o × (received_by o ≡ [])
IsStop-lem (finished (ok m)) stop = absurd stop
IsStop-lem (finished (err TransportError.closed)) stop = (tt, refl)
IsStop-lem (finished (err (TransportError.io e))) stop = (tt, refl)
IsStop-lem (finished (err (TransportError.handshake e))) stop = absurd stop
IsStop-lem (finished (err (TransportError.bad_frame_type b))) stop = absurd stop
IsStop-lem (finished (err (TransportError.frame_too_large n))) stop = absurd stop
IsStop-lem Outcome.cancelled stop = (tt, refl)
IsStop-lem Outcome.stuck stop = absurd stop

-- One call, by what it did with the bytes.
Settles-InOrder :
    (format : FrameFormat) (bytes rest : List ℕ) (rx : RecvBuf) (o : Outcome Message)
    (sent : List (List ℕ))
    → Settles format bytes rx o
    → All Fits sent
    → bytes ++ rest ≡ frames format sent
    → InOrder format sent (o ∷ []) rx rest
Settles-InOrder format bytes rest rx _ [] (whole m h k e i) fits same = absurd (
    frame_head-nonempty format (length m.body) (m.body ++ rest) (
      sym (append_assoc (frame_head format (length m.body)) m.body rest)
      ∙ ap (λ b. b ++ rest) (sym e)
      ∙ same))
Settles-InOrder format bytes rest rx _ (p ∷ ps) (whole m h k e i) fits same =
    let (first, others) =
      frame-split format m.body p rest (frames format ps) (omega arith) (omega (arith, fits.0))
        (ap (λ b. b ++ rest) (sym e) ∙ same) in
    record {
      later = ps;
      split = ap (λ q. q ∷ ps) (sym (ap (λ b. b ++ m.body) h ∙ first));
      accepted = (tt, tt);
      fits = fits.1;
      left = ap (λ ph. held_in ph format rx ++ rest) i ∙ others;
    }
Settles-InOrder format bytes rest rx o sent (partial _ stop e) fits same = record {
  later = sent;
  split = ap (λ qs. (qs ++ []) ++ sent) (sym (IsStop-lem o stop).1);
  accepted = ((IsStop-lem o stop).0, tt);
  fits = fits;
  left = ap (λ b. b ++ rest) e ∙ same;
}
Settles-InOrder format bytes rest rx _ [] (refused e d i) fits same =
    absurd (Declares-nonempty format bytes e rest d same)
Settles-InOrder format bytes rest rx _ (p ∷ ps) (refused e d i) fits same = absurd (
    Declares-Fits format bytes e p rest (p ++ frames format ps) d fits.0
      (same ∙ append_assoc (frame_head format (length p)) p (frames format ps)))

-- One call and the calls after it.
InOrder-then :
    (format : FrameFormat) (sent : List (List ℕ)) (o : Outcome Message)
    (os : List (Outcome Message)) (rx₁ rx : RecvBuf) (rest₁ rest : List ℕ)
    (x : InOrder format sent (o ∷ []) rx₁ rest₁)
    → InOrder format x.later os rx rest
    → InOrder format sent (o ∷ os) rx rest
InOrder-then format sent o os rx₁ rx rest₁ rest x y = record {
  later = y.later;
  split =
      x.split
      ∙ ap (λ qs. qs ++ x.later) (append-nil (received_by o))
      ∙ ap (λ qs. received_by o ++ qs) y.split
      ∙ sym (append_assoc (received_by o) (received os) y.later);
  accepted = (x.accepted.0, y.accepted);
  fits = y.fits;
  left = y.left;
}

module _ {S : Type 0} ⦃s : Stream S⦄ (l : Stream.IsLawful s) {P : Type 0}
    (alloc_body : P → ℕ → List ℕ × P)
    (sizes : (p : P) (n : ℕ) → length (alloc_body p n).0 ≡ n) where
  -- One call in a state that may hold a part of a frame.
  pub recv_inner-InOrder :
      (t : FramedTransport S) (p : P)
      → IsValid t.format t.rx
      → (sent : List (List ℕ)) → All Fits sent
      → (rest : List ℕ)
        (x : Accounts l
          (held t.format t.rx)
          t
          (recv_inner alloc_body t p).0
          (recv_inner alloc_body t p).1)
      → held t.format t.rx ++ (x.fresh ++ rest) ≡ frames t.format sent
      → InOrder t.format sent
          ((recv_inner alloc_body t p).0 ∷ [])
          (recv_inner alloc_body t p).1.rx
          rest
  recv_inner-InOrder t p v sent fits rest x e =
      Settles-InOrder t.format _ rest _ _ sent x.settles fits
        (append_assoc (held t.format t.rx) x.fresh rest ∙ e)

  -- What is delivered during the calls.
  Advances : ℕ → FramedTransport S → P → Type 0
  Advances n t p =
      (fresh : List ℕ) × (l.delivered (recv_series alloc_body n t p).1.inner
        ≡ l.delivered t.inner ++ fresh)

  recv_series-Advances :
      (n : ℕ) (t : FramedTransport S) (p : P) → IsValid t.format t.rx → Advances n t p
  unfolding recv_series Advances
  recv_series-Advances zero t p v = ([], sym (append-nil _))
  recv_series-Advances (suc n) t p v =
      let called = recv_inner alloc_body t p in
      let x = recv_inner-Accounts l alloc_body sizes t p v in
      let (fresh, e) = recv_series-Advances n called.1 called.2 (rw (x.same_format) x.valid) in
      (
        x.fresh ++ fresh,
        e ∙ ap (λ b. b ++ fresh) x.delivered ∙ append_assoc (l.delivered t.inner) x.fresh fresh,
      )

  recv_series-held :
      (n : ℕ) (t : FramedTransport S) (p : P)
      → IsValid t.format t.rx
      → (sent : List (List ℕ)) → All Fits sent
      → (fresh rest : List ℕ)
      → l.delivered (recv_series alloc_body n t p).1.inner ≡ l.delivered t.inner ++ fresh
      → held t.format t.rx ++ (fresh ++ rest) ≡ frames t.format sent
      → InOrder t.format sent
          (recv_series alloc_body n t p).0
          (recv_series alloc_body n t p).1.rx
          rest
  unfolding recv_series Advances
  recv_series-held zero t p v sent fits fresh rest d e = record {
    later = sent;
    split = refl;
    accepted = tt;
    fits = fits;
    left =
        ap (λ b. held t.format t.rx ++ (b ++ rest))
          (append_cancel (l.delivered t.inner) [] fresh (append-nil _ ∙ d))
        ∙ e;
  }
  recv_series-held (suc n) t p v sent fits fresh rest d e =
      let called = recv_inner alloc_body t p in
      let x = recv_inner-Accounts l alloc_body sizes t p v in
      let v₁ : IsValid called.1.format called.1.rx = rw (x.same_format) x.valid in
      let (later, d₁) = recv_series-Advances n called.1 called.2 v₁ in
      let split : x.fresh ++ later ≡ fresh =
        append_cancel (l.delivered t.inner) (x.fresh ++ later) fresh (
          sym (append_assoc (l.delivered t.inner) x.fresh later)
          ∙ ap (λ b. b ++ later) (sym x.delivered)
          ∙ sym d₁
          ∙ d) in
      let y = recv_inner-InOrder t p v sent fits (later ++ rest) x (
        ap (λ b. held t.format t.rx ++ b)
          (sym (append_assoc x.fresh later rest) ∙ ap (λ b. b ++ rest) split)
        ∙ e) in
      InOrder-then t.format sent _ _ _ _ _ rest y (
        subst
          (λ g.
            InOrder g y.later (recv_series alloc_body n called.1 called.2).0
              (recv_series alloc_body n called.1 called.2).1.rx rest)
          x.same_format
          (recv_series-held n called.1 called.2 v₁ y.later y.fits later rest d₁ (
            subst (λ g. held g called.1.rx ++ (later ++ rest) ≡ frames g y.later)
              (sym x.same_format) y.left)))

  -- n calls of recv_inner on a lawful stream, from a valid state between two frames, with body
  -- buffers of the length asked for, while the bytes delivered are the first ones of the frames of
  -- some payloads, none longer than the limit: no call refuses a header, and the payloads returned
  -- are the first of those sent, in order, with no loss and no double, wherever reads cut the
  -- frames and calls were dropped.
  pub recv_series-InOrder :
      (n : ℕ) (t : FramedTransport S) (p : P)
      → IsValid t.format t.rx
      → held t.format t.rx ≡ []
      → (sent : List (List ℕ)) → All Fits sent
      → (rest : List ℕ)
      → l.delivered (recv_series alloc_body n t p).1.inner ++ rest
        ≡ l.delivered t.inner ++ frames t.format sent
      → InOrder t.format sent
          (recv_series alloc_body n t p).0
          (recv_series alloc_body n t p).1.rx
          rest
  unfolding Advances
  recv_series-InOrder n t p v nothing sent fits rest e =
      let (fresh, d) = recv_series-Advances n t p v in
      recv_series-held n t p v sent fits fresh rest d (
        ap (λ b. b ++ (fresh ++ rest)) nothing
        ∙ append_cancel (l.delivered t.inner) (fresh ++ rest) (frames t.format sent)
            (sym (append_assoc (l.delivered t.inner) fresh rest) ∙ ap (λ b. b ++ rest) (sym d) ∙ e))
