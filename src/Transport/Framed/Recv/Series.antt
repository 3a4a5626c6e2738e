-- ===== src/Transport/Framed/Recv/Series.antt =====
-- Several calls of `recv` one after the other, with dropped futures and failures between them.
use nng_core.Prelude.{
  ℕ, zero, suc, ◌≡◌, refl, ap, ap₂, subst, sym, ◌∙◌, List, [], ◌∷◌, ◌++◌, append_assoc, append-nil,
  All, length, ok, err,
}
use nng_core.Message.Heap.{Message}
use nng_core.Codec.Frame.Laws.{payload}
use nng_core.Transport.Stream
use nng_core.Transport.Stream.{Stream}
use nng_core.Transport.Framed.{
  FrameFormat, TransportError, RecvBuf, FramedTransport, Outcome, finished,
}
use nng_core.Transport.Framed.Recv.{recv_inner}
use nng_core.Transport.Framed.Recv.Held.{frame, held, held_in, too_large, bad_type, IsValid}
use nng_core.Transport.Framed.Recv.Ledger.{Settles, whole, partial, refused, Accounts}
use nng_core.Transport.Framed.Recv.Calls.{recv_inner-Accounts}

-- The call did not refuse a header: it returned a message, or it stopped on the way.
abbrev pub IsOkOrStop : Outcome Message → Type 0
IsOkOrStop (finished (ok m)) = Unit {0}
IsOkOrStop (finished (err TransportError.closed)) = Unit {0}
IsOkOrStop (finished (err (TransportError.io e))) = Unit {0}
IsOkOrStop (finished (err _)) = ⊥
IsOkOrStop Outcome.cancelled = Unit {0}
IsOkOrStop Outcome.stuck = ⊥

-- The frame that a call returned the message of.
abbrev pub returned : FrameFormat → Outcome Message → List ℕ
returned format (finished (ok m)) = frame format (payload m)
returned format _ = []

abbrev pub all_returned : FrameFormat → List (Outcome Message) → List ℕ
all_returned format [] = []
all_returned format (o ∷ os) = returned format o ++ all_returned format os

-- One call settles its bytes between what it returns and what stays.
Settles-split :
    (format : FrameFormat) (bytes : List ℕ) (rx : RecvBuf) (o : Outcome Message)
    → Settles format bytes rx o
    → IsOkOrStop o
    → returned format o ++ held format rx ≡ bytes
Settles-split format bytes rx _ (whole m h k e i) n =
    ap₂ ◌++◌ (ap (λ b. frame format (b ++ m.body)) h) (ap (λ ph. held_in ph format rx) i)
    ∙ append-nil _
    ∙ sym e
Settles-split format bytes rx (finished (ok m)) (partial _ stop e) n = absurd stop
Settles-split format bytes rx (finished (err x)) (partial _ stop e) n = e
Settles-split format bytes rx Outcome.cancelled (partial _ stop e) n = e
Settles-split format bytes rx Outcome.stuck (partial _ stop e) n = absurd stop
Settles-split format bytes rx _ (refused _ (too_large k lt b e) i) n = absurd n
Settles-split format bytes rx _ (refused _ (bad_type b r f ne e) i) n = absurd n

module _ {S P : Type 0} ⦃s : Stream S⦄ (alloc_body : P → ℕ → List ℕ × P) where
  -- `n` calls, and what each of them ended with.
  unfoldable pub recv_series :
      ℕ → FramedTransport S → P → List (Outcome Message) × FramedTransport S × P
  recv_series zero t p = ([], t, p)
  recv_series (suc n) t p =
      let (o, t', p') = recv_inner alloc_body t p in
      let (os, t'', p'') = recv_series n t' p' in (o ∷ os, t'', p'')

module _ {S : Type 0} ⦃s : Stream S⦄ (l : Stream.IsLawful s) {P : Type 0}
    (alloc_body : P → ℕ → List ℕ × P)
    (sizes : (p : P) (n : ℕ) → length (alloc_body p n).0 ≡ n) where
  -- The bytes delivered during the calls, and the state they leave.
  pub record Tallies (t : FramedTransport S) (os : List (Outcome Message)) (t' : FramedTransport S)
      : Type 0 where
    pub fresh : List ℕ
    pub delivered : l.delivered t'.inner ≡ l.delivered t.inner ++ fresh
    pub valid : IsValid t'.format t'.rx
    pub same_format : t'.format ≡ t.format
    pub adds_up : all_returned t.format os ++ held t.format t'.rx ≡ held t.format t.rx ++ fresh

  Tallies-step :
      (t t₁ t' : FramedTransport S) (o : Outcome Message) (os : List (Outcome Message))
      → Accounts l (held t.format t.rx) t o t₁
      → IsOkOrStop o
      → Tallies t₁ os t'
      → Tallies t (o ∷ os) t'
  Tallies-step t t₁ t' o os x n y = record {
    fresh = x.fresh ++ y.fresh;
    delivered =
        y.delivered
        ∙ ap (λ b. b ++ y.fresh) x.delivered
        ∙ append_assoc (l.delivered t.inner) x.fresh y.fresh;
    valid = y.valid;
    same_format = y.same_format ∙ x.same_format;
    adds_up =
        let rest : all_returned t.format os ++ held t.format t'.rx
            ≡ held t.format t₁.rx ++ y.fresh =
          subst (λ g. all_returned g os ++ held g t'.rx ≡ held g t₁.rx ++ y.fresh) x.same_format
            y.adds_up in
        append_assoc (returned t.format o) (all_returned t.format os) (held t.format t'.rx)
        ∙ ap (λ b. returned t.format o ++ b) rest
        ∙ sym (append_assoc (returned t.format o) (held t.format t₁.rx) y.fresh)
        ∙ ap (λ b. b ++ y.fresh) (Settles-split t.format _ t₁.rx o x.settles n)
        ∙ append_assoc (held t.format t.rx) x.fresh y.fresh;
  }

  -- For n calls of recv_inner on a lawful stream from a valid state, with body buffers of the
  -- length asked for, none of which refuses a header: whatever the stream cut short and the caller
  -- dropped, the frames of the messages returned, then the bytes still held, are the bytes held at
  -- first and those delivered meanwhile.
  pub recv_series-Tallies :
      (n : ℕ) (t : FramedTransport S) (p : P)
      → IsValid t.format t.rx
      → All IsOkOrStop (recv_series alloc_body n t p).0
      → Tallies t (recv_series alloc_body n t p).0 (recv_series alloc_body n t p).1
  unfolding recv_series
  recv_series-Tallies zero t p v a = record {
    fresh = [];
    delivered = sym (append-nil _);
    valid = v;
    same_format = refl;
    adds_up = sym (append-nil _);
  }
  recv_series-Tallies (suc n) t p v a =
      let x = recv_inner-Accounts l alloc_body sizes t p v in
      let called = recv_inner alloc_body t p in
      Tallies-step t called.1 _ called.0 _ x a.0
        (recv_series-Tallies n called.1 called.2 (rw (x.same_format) x.valid) a.1)
