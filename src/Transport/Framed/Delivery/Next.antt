-- ===== src/Transport/Framed/Delivery/Next.antt =====
-- On a stream that does not dry up, a call of `recv` returns the next message.
use nng_core.Prelude.{
  ℕ, ◌≡◌, ap, sym, ◌∙◌, List, [], ◌∷◌, ◌++◌, append_assoc, append_cancel, All, length, ok, err,
}
use nng_core.Message.Heap.{Message}
use nng_core.Codec.Frame.Laws.{payload}
use nng_core.Transport.Stream
use nng_core.Transport.Stream.{Stream}
use nng_core.Transport.Fill.Flow.{Flows}
use nng_core.Transport.Framed.{
  FrameFormat, TransportError, RecvBuf, FramedTransport, Outcome, finished,
}
use nng_core.Transport.Framed.Wire.{frames}
use nng_core.Transport.Framed.Recv.{recv_inner}
use nng_core.Transport.Framed.Recv.Held.{held, IsValid}
use nng_core.Transport.Framed.Recv.Calls.{recv_inner-Accounts}
use nng_core.Transport.Framed.Recv.Flow.{IsAnswer, recv_inner-IsAnswer}
use nng_core.Transport.Framed.Delivery.{Fits, received_by, InOrder, recv_inner-InOrder}

-- The call returned the payload `q`, and what it left is the rest of the bytes.
abbrev pub IsNext :
    FrameFormat → List ℕ → List (List ℕ) → Outcome Message → RecvBuf → List ℕ → Type 0
IsNext format q qs o rx rest =
    (received_by o ≡ q ∷ []) × (held format rx ++ rest ≡ frames format qs)

cons_inj : (x y : List ℕ) (xs ys : List (List ℕ)) → x ∷ xs ≡ y ∷ ys → (x ≡ y) × (xs ≡ ys)
cons_inj x y xs ys e = (ap (λ l. first l) e, ap (λ l. others l) e)
  where
    first : List (List ℕ) → List ℕ
    first [] = x
    first (a ∷ l) = a

    others : List (List ℕ) → List (List ℕ)
    others [] = xs
    others (a ∷ l) = l

InOrder-IsNext :
    (format : FrameFormat) (q : List ℕ) (qs : List (List ℕ)) (o : Outcome Message) (rx : RecvBuf)
    (rest : List ℕ)
    → IsAnswer o
    → InOrder format (q ∷ qs) (o ∷ []) rx rest
    → IsNext format q qs o rx rest
InOrder-IsNext format q qs (finished (ok m)) rx rest a x =
    let (first, others) = cons_inj q (payload m) qs x.later x.split in
    (ap (λ p. p ∷ []) (sym first), x.left ∙ ap (frames format) (sym others))
InOrder-IsNext format q qs (finished (err TransportError.closed)) rx rest a x = absurd a
InOrder-IsNext format q qs (finished (err (TransportError.io e))) rx rest a x = absurd a
InOrder-IsNext format q qs (finished (err (TransportError.handshake e))) rx rest a x = absurd a
InOrder-IsNext format q qs (finished (err (TransportError.bad_frame_type e))) rx rest a x =
    absurd x.accepted.0
InOrder-IsNext format q qs (finished (err (TransportError.frame_too_large e))) rx rest a x =
    absurd x.accepted.0
InOrder-IsNext format q qs Outcome.cancelled rx rest a x = absurd a
InOrder-IsNext format q qs Outcome.stuck rx rest a x = absurd a

module _ {S : Type 0} ⦃s : Stream S⦄ (l : Stream.IsLawful s) (flows : Flows s) {P : Type 0}
    (alloc_body : P → ℕ → List ℕ × P)
    (sizes : (p : P) (n : ℕ) → length (alloc_body p n).0 ≡ n) where
  -- On a lawful stream that gives at least a byte to every read with room, a call of recv_inner from
  -- a valid state returns the payload of the next frame, and leaves the rest: for body buffers of
  -- the length asked for, if the bytes held before and those that come are the frames of payloads
  -- within the limit.
  pub recv_inner-IsNext :
      (t : FramedTransport S) (p : P)
      → IsValid t.format t.rx
      → (q : List ℕ) (qs : List (List ℕ)) → All Fits (q ∷ qs)
      → (coming rest : List ℕ) → held t.format t.rx ++ coming ≡ frames t.format (q ∷ qs)
      → l.delivered (recv_inner alloc_body t p).1.inner ++ rest ≡ l.delivered t.inner ++ coming
      → IsNext t.format q qs (recv_inner alloc_body t p).0 (recv_inner alloc_body t p).1.rx rest
  recv_inner-IsNext t p v q qs fits coming rest e d =
      let x = recv_inner-Accounts l alloc_body sizes t p v in
      let split : x.fresh ++ rest ≡ coming =
        append_cancel (l.delivered t.inner) (x.fresh ++ rest) coming (
          sym (append_assoc (l.delivered t.inner) x.fresh rest)
          ∙ ap (λ b. b ++ rest) (sym x.delivered)
          ∙ d) in
      InOrder-IsNext t.format q qs _ _ rest (recv_inner-IsAnswer flows alloc_body t p) (
        recv_inner-InOrder l alloc_body sizes t p v (q ∷ qs) fits rest x
          (ap (λ b. held t.format t.rx ++ b) split ∙ e))
