-- ===== src/Transport/Fill/Write.antt =====
-- What `write_all` leaves behind, however the stream takes its bytes.
use nng_core.Prelude.{
  ℕ, zero, suc, ◌≤◌, ◌<◌, ◌≡◌, refl, ap, sym, ◌∙◌, arith, List, [], ◌∷◌, ◌++◌, append_assoc,
  append-nil, length, take, drop, take-append-drop, length-drop, ==_of_ne,
}
use nng_core.Transport.Stream
use nng_core.Transport.Stream.{Stream, WriteOutcome, took, count_of}
use nng_core.Transport.Fill.{
  End, full, closed, io_error, dropped, stuck, after_write, write_loop, write_all,
}

-- What may be left unwritten: nothing if the loop was done; and the fuel never runs out.
abbrev pub LeavesAt : End → List ℕ → Type 0
LeavesAt full rest = rest ≡ []
LeavesAt stuck rest = ⊥
LeavesAt _ rest = Unit {0}

module _ {S : Type 0} ⦃s : Stream S⦄ (l : Stream.IsLawful s) where
  -- The bytes written are a prefix of the buffer.
  pub record Wrote (from : S) (buf : List ℕ) (e : End) (to : S) : Type 0 where
    pub sent : List ℕ
    pub rest : List ℕ
    pub split : buf ≡ sent ++ rest
    pub written : l.written to ≡ l.written from ++ sent
    pub leaves : LeavesAt e rest
    pub kept_delivered : l.delivered to ≡ l.delivered from

  Wrote-nothing :
      (from to : S) (buf : List ℕ) (e : End)
      → l.written to ≡ l.written from ++ []
      → LeavesAt e buf
      → l.delivered to ≡ l.delivered from
      → Wrote from buf e to
  Wrote-nothing from to buf e w v d = record {
    sent = [];
    rest = buf;
    split = refl;
    written = w;
    leaves = v;
    kept_delivered = d;
  }

  after_write-Wrote :
      (again : S → List ℕ → End × S) (from : S) (buf : List ℕ) (outcome : WriteOutcome) (to : S)
      → l.written to ≡ l.written from ++ take (count_of outcome) buf
      → count_of outcome ≤ length buf
      → l.delivered to ≡ l.delivered from
      → ((mid : S) (left : List ℕ)
          → length left < length buf
          → Wrote mid left (again mid left).0 (again mid left).1)
      → Wrote from buf (after_write again buf outcome to).0 (after_write again buf outcome to).1
  unfolding after_write
  after_write-Wrote again from buf (took zero) to w h d rec =
      Wrote-nothing from to buf closed w tt d
  after_write-Wrote again from buf (took (suc n)) to w h d rec =
      rw (==_of_ne (suc n) 0 (omega arith)) (
        let x = rec to (drop (suc n) buf) (omega (arith, length-drop (suc n) buf)) in
        record {
          sent = take (suc n) buf ++ x.sent;
          rest = x.rest;
          split =
              sym (take-append-drop (suc n) buf)
              ∙ ap (λ t. take (suc n) buf ++ t) x.split
              ∙ sym (append_assoc (take (suc n) buf) x.sent x.rest);
          written =
              x.written
              ∙ ap (λ t. t ++ x.sent) w
              ∙ append_assoc (l.written from) (take (suc n) buf) x.sent;
          leaves = x.leaves;
          kept_delivered = x.kept_delivered ∙ d;
        })
  after_write-Wrote again from buf (WriteOutcome.failed e) to w h d rec =
      Wrote-nothing from to buf (io_error e) w tt d
  after_write-Wrote again from buf WriteOutcome.pending to w h d rec =
      Wrote-nothing from to buf dropped w tt d

  write_loop-Wrote :
      (fuel : ℕ) (from : S) (buf : List ℕ)
      → length buf ≤ fuel
      → Wrote from buf (write_loop fuel from buf).0 (write_loop fuel from buf).1
  unfolding write_loop
  write_loop-Wrote zero from [] h = Wrote-nothing from from [] full (sym (append-nil _)) refl refl
  write_loop-Wrote zero from (x ∷ buf) h = absurd (omega arith)
  write_loop-Wrote (suc fuel) from [] h =
      Wrote-nothing from from [] full (sym (append-nil _)) refl refl
  write_loop-Wrote (suc fuel) from (x ∷ buf) h =
      after_write-Wrote (write_loop fuel) from (x ∷ buf) _ _ (l.write_writes from (x ∷ buf))
        (l.write_fits from (x ∷ buf)) (l.write_keeps from (x ∷ buf))
        (λ mid left lt. write_loop-Wrote fuel mid left (omega arith))

  -- On a lawful stream write_all ends without want of fuel, with the whole buffer written or a
  -- prefix of it by its outcome.
  pub write_all-Wrote :
      (from : S) (buf : List ℕ) → Wrote from buf (write_all from buf).0 (write_all from buf).1
  unfolding write_all
  write_all-Wrote from buf = write_loop-Wrote (length buf) from buf (omega arith)
