-- ===== src/Transport/Framed/Recv/Calls.antt =====
-- What a whole call of `recv` does with the bytes: the frame header, then the three phases.
use nng_core.Prelude.{
  subst, ℕ, ◌≤◌, ◌≡◌, refl, ap, sym, ◌∙◌, arith, List, ◌++◌, All, All-append, length, take,
}
use nng_core.Prelude.Bytes.{IsByte}
use nng_core.Transport.Stream
use nng_core.Transport.Stream.{Stream}
use nng_core.Transport.Fill.{End, io_error, dropped, Filled}
use nng_core.Transport.Fill.Laws.{Extends, fill-Extends}
use nng_core.Transport.Framed.{
  FrameFormat, tcp, ipc, RecvPhase, idle, len, body, FramedTransport, stopped, head_size,
  payload_len,
}
use nng_core.Transport.Framed.Recv.{after_len, recv_len, start, recv_from, recv_inner}
use nng_core.Transport.Framed.Recv.Held.{
  held, held_in, IsValid, IsValidIn, Declares, payload_len-Declares,
}
use nng_core.Transport.Framed.Recv.Ledger.{
  IsStop, partial, before_len, len_input, Accounts, Accounts-after, after_head-Accounts,
  recv_body-Accounts,
}

head_size_le : (format : FrameFormat) → head_size format ≤ 9
head_size_le tcp = omega arith
head_size_le ipc = omega arith

module _ {S : Type 0} ⦃s : Stream S⦄ (l : Stream.IsLawful s) {P : Type 0}
    (alloc_body : P → ℕ → List ℕ × P)
    (sizes : (p : P) (n : ℕ) → length (alloc_body p n).0 ≡ n) where
  module _ (f : Filled S) (t : FramedTransport S) (ph : t.rx.phase ≡ len)
      (sz : length t.rx.len_buf ≡ 9) (v : All IsByte (before_len t)) where
    stopped_len :
        (e : End)
        → IsStop (stopped e)
        → Extends l (head_size t.format) (len_input t) e f
        → Accounts l (before_len t) t (stopped e) (record t {
          inner = f.stream;
          rx = record (t.rx) { len_buf = f.buf; len_filled = f.filled };
        })
    stopped_len e stop x = record {
      fresh = x.fresh;
      delivered = x.delivered;
      same_format = refl;
      valid = record {
        sized = x.sized ∙ sz;
        phase = rw ph (
          x.below,
          subst (All IsByte) (sym x.kept) (All-append IsByte (before_len t) x.fresh v x.bytes),
        );
      };
      settles = partial _ stop (rw ph x.kept);
    }

    after_len-Accounts :
        (e : End) (p : P)
        → Extends l (head_size t.format) (len_input t) e f
        → let (o, t', _) = after_len alloc_body e f t p in Accounts l (before_len t) t o t'
    unfolding after_len
    after_len-Accounts End.full p x =
        let t₁ : FramedTransport S = record t {
          inner = f.stream;
          rx = record (t.rx) { len_buf = f.buf; len_filled = f.filled };
        } in
        let complete : take (head_size t.format) f.buf ≡ before_len t ++ x.fresh =
          sym (ap (λ n. take n f.buf) x.stops) ∙ x.kept in
        Accounts-after l alloc_body (before_len t) x.fresh t t₁ _ _ x.delivered refl (
          after_head-Accounts l alloc_body sizes (before_len t ++ x.fresh)
            (payload_len t.format f.buf) t₁ p (x.sized ∙ sz)
            (subst (λ head. Declares t.format head (payload_len t.format f.buf)) complete
              (payload_len-Declares t.format f.buf (x.sized ∙ sz) (
                subst (All IsByte) (sym complete)
                  (All-append IsByte (before_len t) x.fresh v x.bytes)))))
    after_len-Accounts End.closed p x = stopped_len End.closed tt x
    after_len-Accounts (io_error e) p x = stopped_len (io_error e) tt x
    after_len-Accounts dropped p x = stopped_len dropped tt x
    after_len-Accounts End.stuck p x = absurd x.stops

  recv_len-Accounts :
      (t : FramedTransport S) (p : P)
      → t.rx.phase ≡ len
      → length t.rx.len_buf ≡ 9
      → t.rx.len_filled ≤ head_size t.format
      → All IsByte (before_len t)
      → let (o, t', _) = recv_len alloc_body t p in Accounts l (before_len t) t o t'
  unfolding recv_len
  recv_len-Accounts t p ph sz b v =
      after_len-Accounts _ t ph sz v _ p
        (fill-Extends l (head_size t.format) (len_input t) (omega (arith, head_size_le t.format)) b)

  recv_from-Accounts :
      (ph : RecvPhase) (t : FramedTransport S) (p : P)
      → t.rx.phase ≡ ph
      → length t.rx.len_buf ≡ 9
      → IsValidIn ph t.format t.rx
      → let (o, t', _) = recv_from alloc_body ph t p in Accounts l (held_in ph t.format t.rx) t o t'
  unfolding recv_from
  recv_from-Accounts idle t p ph sz v =
      let x = recv_len-Accounts (start alloc_body t) p refl sz (omega arith) tt in
      record {
        fresh = x.fresh;
        delivered = x.delivered;
        same_format = x.same_format;
        valid = x.valid;
        settles = x.settles;
      }
  recv_from-Accounts len t p ph sz v = recv_len-Accounts t p ph sz v.0 v.1
  recv_from-Accounts body t p ph sz v = recv_body-Accounts l alloc_body t p ph sz v.0 v.1

  -- One call of recv_inner on a lawful stream from a valid state, with body buffers of the length
  -- asked for, keeps the state valid, and the bytes held and delivered are exactly the frame of
  -- the message returned, or all kept for the next call when it stopped on the way, or a header
  -- that is refused for what it says.
  pub recv_inner-Accounts :
      (t : FramedTransport S) (p : P)
      → IsValid t.format t.rx
      → let (o, t', _) = recv_inner alloc_body t p in Accounts l (held t.format t.rx) t o t'
  unfolding recv_inner
  recv_inner-Accounts t p v = recv_from-Accounts t.rx.phase t p refl v.sized v.phase
