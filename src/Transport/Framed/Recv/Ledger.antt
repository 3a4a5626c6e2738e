-- ===== src/Transport/Framed/Recv/Ledger.antt =====
-- What one call of `recv` does with the bytes that are delivered meanwhile.
use nng_core.Prelude.{
  subst, subst₂, ℕ, ◌≤◌, ◌≡◌, refl, ap, ap₂, sym, ◌∙◌, arith, List, [], ◌++◌, append_assoc,
  append-nil, length, take, take_all, Result, ok, err,
}
use nng_core.Message.Heap.{Message}
use nng_core.Transport.Stream
use nng_core.Transport.Stream.{Stream}
use nng_core.Transport.Fill.{End, io_error, dropped, Filled}
use nng_core.Transport.Fill.Laws.{Extends, fill-Extends}
use nng_core.Transport.Framed.{
  FrameFormat, max_frame_bytes, TransportError, idle, body, RecvBuf, FramedTransport, Outcome,
  finished, stopped,
}
use nng_core.Transport.Framed.Recv.{after_body, recv_body, after_head}
use nng_core.Transport.Framed.Recv.Held.{frame_head, frame, held, IsValid, Declares, length_ok}

-- The outcomes of a call that stopped on the way: the stream closed or failed, or the caller
-- dropped the future.
abbrev pub IsStop : Outcome Message → Type 0
IsStop (finished (ok m)) = ⊥
IsStop (finished (err TransportError.closed)) = Unit {0}
IsStop (finished (err (TransportError.io e))) = Unit {0}
IsStop (finished (err _)) = ⊥
IsStop Outcome.cancelled = Unit {0}
IsStop Outcome.stuck = ⊥

-- What becomes of the bytes in hand: those held before the call, then those delivered during it.
pub data Settles (format : FrameFormat) (bytes : List ℕ) (rx : RecvBuf)
    : Outcome Message → Type 0 where
  -- A message was returned: they are exactly its frame, and it has no header.
  whole :
      (m : Message)
      → m.header ≡ []
      → length m.body ≤ max_frame_bytes
      → bytes ≡ frame format m.body
      → rx.phase ≡ idle
      → Settles format bytes rx (finished (ok m))
  -- The call stopped on the way: the transport still holds all of them.
  partial : (o : Outcome Message) → IsStop o → held format rx ≡ bytes → Settles format bytes rx o
  -- They are a header that is refused, and are dropped.
  refused :
      (e : TransportError)
      → Declares format bytes (err e)
      → rx.phase ≡ idle
      → Settles format bytes rx (finished (err e))

module _ {S : Type 0} where
  abbrev pub before_body : FramedTransport S → List ℕ
  before_body t = frame_head t.format (length t.rx.body) ++ take t.rx.body_filled t.rx.body

  abbrev pub body_input : FramedTransport S → Filled S
  body_input t = record { stream = t.inner; buf = t.rx.body; filled = t.rx.body_filled }

  abbrev pub before_len : FramedTransport S → List ℕ
  before_len t = take t.rx.len_filled t.rx.len_buf

  abbrev pub len_input : FramedTransport S → Filled S
  len_input t = record { stream = t.inner; buf = t.rx.len_buf; filled = t.rx.len_filled }

module _ {S : Type 0} ⦃s : Stream S⦄ (l : Stream.IsLawful s) where
  -- A call from `t`, with `before` held of the current frame, and what it returned.
  pub record Accounts (before : List ℕ) (t : FramedTransport S) (o : Outcome Message)
      (t' : FramedTransport S) : Type 0 where
    pub fresh : List ℕ
    pub delivered : l.delivered t'.inner ≡ l.delivered t.inner ++ fresh
    pub same_format : t'.format ≡ t.format
    pub valid : IsValid t.format t'.rx
    pub settles : Settles t.format (before ++ fresh) t'.rx o

  -- The payload so far, behind the header that its length gives.
  framed_so_far :
      (t : FramedTransport S) (e : End) (f : Filled S)
      (x : Extends l (length t.rx.body) (body_input t) e f)
      → frame_head t.format (length f.buf) ++ take f.filled f.buf ≡ before_body t ++ x.fresh
  framed_so_far t e f x =
      ap₂ (λ n b. frame_head t.format n ++ b) x.sized x.kept
      ∙ sym (
          append_assoc (frame_head t.format (length t.rx.body)) (take t.rx.body_filled t.rx.body)
            x.fresh)

  module _ {P : Type 0} (alloc_body : P → ℕ → List ℕ × P) where
    module _ (f : Filled S) (t : FramedTransport S) (ph : t.rx.phase ≡ body)
        (sz : length t.rx.len_buf ≡ 9) (h : length t.rx.body ≤ max_frame_bytes) where
      stopped_body :
          (e : End)
          → IsStop (stopped e)
          → Extends l (length t.rx.body) (body_input t) e f
          → Accounts (before_body t) t (stopped e) (record t {
            inner = f.stream;
            rx = record (t.rx) { body = f.buf; body_filled = f.filled };
          })
      stopped_body e stop x = record {
        fresh = x.fresh;
        delivered = x.delivered;
        same_format = refl;
        valid = record { sized = sz; phase = rw ph (omega (arith, x.sized, x.below)) };
        settles = partial _ stop (rw ph (framed_so_far t e f x));
      }

      after_body-Accounts :
          (e : End) (p : P)
          → Extends l (length t.rx.body) (body_input t) e f
          → let (o, t', _) = after_body alloc_body e f t p in Accounts (before_body t) t o t'
      unfolding after_body
      after_body-Accounts End.full p x = record {
        fresh = x.fresh;
        delivered = x.delivered;
        same_format = refl;
        valid = record { sized = sz; phase = tt };
        settles =
            whole _ refl (omega (arith, x.sized))
              (sym (framed_so_far t End.full f x)
                ∙ ap (λ b. frame_head t.format (length f.buf) ++ b)
                    (take_all f.filled f.buf (omega (arith, x.sized, x.stops))))
              refl;
      }
      after_body-Accounts End.closed p x = stopped_body End.closed tt x
      after_body-Accounts (io_error e) p x = stopped_body (io_error e) tt x
      after_body-Accounts dropped p x = stopped_body dropped tt x
      after_body-Accounts End.stuck p x = absurd x.stops

    -- Bytes delivered before a later part of the call count as delivered during it.
    pub Accounts-after :
        (before fresh₁ : List ℕ) (t t₁ : FramedTransport S) (o : Outcome Message)
        (t' : FramedTransport S)
        → l.delivered t₁.inner ≡ l.delivered t.inner ++ fresh₁
        → t₁.format ≡ t.format
        → Accounts (before ++ fresh₁) t₁ o t'
        → Accounts before t o t'
    Accounts-after before fresh₁ t t₁ o t' d e x = record {
      fresh = fresh₁ ++ x.fresh;
      delivered =
          x.delivered
          ∙ ap (λ b. b ++ x.fresh) d
          ∙ append_assoc (l.delivered t.inner) fresh₁ x.fresh;
      same_format = x.same_format ∙ e;
      valid = rw (← e) x.valid;
      settles =
          subst₂ (λ g b. Settles g b t'.rx o) e (append_assoc before fresh₁ x.fresh) x.settles;
    }

    pub recv_body-Accounts :
        (t : FramedTransport S) (p : P)
        → t.rx.phase ≡ body
        → length t.rx.len_buf ≡ 9
        → t.rx.body_filled ≤ length t.rx.body
        → length t.rx.body ≤ max_frame_bytes
        → let (o, t', _) = recv_body alloc_body t p in Accounts (before_body t) t o t'
    unfolding recv_body
    recv_body-Accounts t p ph sz b h =
        after_body-Accounts _ t ph sz h _ p
          (fill-Extends l (length t.rx.body) (body_input t) (omega arith) b)

    module _ (sizes : (p : P) (n : ℕ) → length (alloc_body p n).0 ≡ n) where
      pub after_head-Accounts :
          (head : List ℕ) (r : Result ℕ TransportError) (t : FramedTransport S) (p : P)
          → length t.rx.len_buf ≡ 9
          → Declares t.format head r
          → let (o, t', _) = after_head alloc_body r t p in Accounts head t o t'
      unfolding after_head
      after_head-Accounts head (err e) t p sz d = record {
        fresh = [];
        delivered = sym (append-nil _);
        same_format = refl;
        valid = record { sized = sz; phase = tt };
        settles = refused e (rw append-nil d) refl;
      }
      after_head-Accounts head (ok n) t p sz (length_ok _ h e) =
          let t' : FramedTransport S = record t {
            rx = record (t.rx) { phase = body; body = (alloc_body p n).0; body_filled = 0 };
          } in
          let whole_head : before_body t' ≡ head =
            append-nil _ ∙ ap (frame_head t.format) (sizes p n) ∙ sym e in
          let called = recv_body alloc_body t' (alloc_body p n).1 in
          let x =
            recv_body-Accounts t' (alloc_body p n).1 refl sz (omega arith)
              (omega (arith, sizes p n)) in
          record {
            fresh = x.fresh;
            delivered = x.delivered;
            same_format = x.same_format;
            valid = x.valid;
            settles =
                subst (λ b. Settles t.format (b ++ x.fresh) called.1.rx called.0) whole_head
                  x.settles;
          }
