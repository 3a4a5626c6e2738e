-- ===== src/Transport/Fill/Laws.antt =====
-- What the loops leave behind, however the stream cuts up its bytes.
use nng_core.Prelude.{
  ℕ, zero, suc, ◌+◌, ◌-◌, ◌≤◌, ◌<◌, ◌≡◌, refl, ap, sym, ◌∙◌, arith, List, [], ◌∷◌, ◌++◌,
  append_assoc, append-nil, All, All-append, length, length-append, take, drop, take-append,
  length-take, dec_lt, ==_of_ne, lt→ltb, ltb_of_le,
}
use nng_core.Prelude.Bytes.{IsByte}
use nng_core.Prelude.Slices.{written, length-written}
use nng_core.Transport.Stream
use nng_core.Transport.Stream.{Stream, ReadOutcome, got, bytes_of}
use nng_core.Transport.Fill.{
  End, full, closed, io_error, dropped, stuck, Filled, after_read, fill_loop, fill,
}

-- Where the loop stopped: full at the end, otherwise before it, and never for want of fuel.
abbrev pub StopsAt : End → ℕ → ℕ → Type 0
StopsAt full filled needed = filled ≡ needed
StopsAt closed filled needed = filled < needed
StopsAt (io_error e) filled needed = filled < needed
StopsAt dropped filled needed = filled < needed
StopsAt stuck filled needed = ⊥

module _ {S : Type 0} ⦃s : Stream S⦄ (l : Stream.IsLawful s) where
  -- From `f` the loop ended at `g`: the bytes delivered meanwhile stand behind those that were there.
  pub record Extends (needed : ℕ) (f : Filled S) (e : End) (g : Filled S) : Type 0 where
    pub fresh : List ℕ
    pub delivered : l.delivered g.stream ≡ l.delivered f.stream ++ fresh
    pub bytes : All IsByte fresh
    pub kept : take g.filled g.buf ≡ take f.filled f.buf ++ fresh
    pub sized : length g.buf ≡ length f.buf
    pub stops : StopsAt e g.filled needed
    pub below : g.filled ≤ needed
    pub kept_written : l.written g.stream ≡ l.written f.stream

  Extends-nothing :
      (needed : ℕ) (f : Filled S) (e : End) (stream' : S)
      → l.delivered stream' ≡ l.delivered f.stream ++ []
      → f.filled ≤ needed
      → StopsAt e f.filled needed
      → l.written stream' ≡ l.written f.stream
      → Extends needed f e (record f { stream = stream' })
  Extends-nothing needed f e stream' d b p w = record {
    fresh = [];
    delivered = d;
    bytes = tt;
    kept = sym (append-nil (take f.filled f.buf));
    sized = refl;
    stops = p;
    below = b;
    kept_written = w;
  }

  take-written :
      (buf src : List ℕ) (i : ℕ)
      → i + length src ≤ length buf
      → take (i + length src) (written buf src i) ≡ take i buf ++ src
  take-written buf src i h =
      ap (take (i + length src)) (sym (append_assoc (take i buf) src (drop (i + length src) buf)))
      ∙ take-append (i + length src) (take i buf ++ src) (drop (i + length src) buf)
          (omega (arith, length-append (take i buf) src, length-take i buf))

  Extends-step :
      (needed : ℕ) (f : Filled S) (bs : List ℕ) (stream' : S) (e : End) (g : Filled S)
      → needed ≤ length f.buf
      → f.filled + length bs ≤ needed
      → l.delivered stream' ≡ l.delivered f.stream ++ bs
      → All IsByte bs
      → l.written stream' ≡ l.written f.stream
      → Extends needed
          (record {
            stream = stream';
            buf = written f.buf bs f.filled;
            filled = f.filled + length bs;
          })
          e
          g
      → Extends needed f e g
  Extends-step needed f bs stream' e g h k d v w x = record {
    fresh = bs ++ x.fresh;
    delivered =
        x.delivered ∙ ap (λ t. t ++ x.fresh) d ∙ append_assoc (l.delivered f.stream) bs x.fresh;
    bytes = All-append IsByte bs x.fresh v x.bytes;
    kept =
        x.kept
        ∙ ap (λ t. t ++ x.fresh) (take-written f.buf bs f.filled (omega arith))
        ∙ append_assoc (take f.filled f.buf) bs x.fresh;
    sized = x.sized ∙ length-written f.buf bs f.filled (omega arith);
    stops = x.stops;
    below = x.below;
    kept_written = x.kept_written ∙ w;
  }

  -- The round keeps the claim, if what goes on does.
  after_read-Extends :
      (needed : ℕ) (again : Filled S → End × Filled S) (f : Filled S) (outcome : ReadOutcome)
      (stream' : S)
      → needed ≤ length f.buf
      → f.filled < needed
      → f.filled + length (bytes_of outcome) ≤ needed
      → l.delivered stream' ≡ l.delivered f.stream ++ bytes_of outcome
      → All IsByte (bytes_of outcome)
      → l.written stream' ≡ l.written f.stream
      → ((g : Filled S)
          → length g.buf ≡ length f.buf
          → f.filled < g.filled
          → g.filled ≤ needed
          → Extends needed g (again g).0 (again g).1)
      → Extends needed f
          (after_read again f outcome stream').0
          (after_read again f outcome stream').1
  unfolding after_read
  after_read-Extends needed again f (got []) stream' h m k d v w rec =
      Extends-nothing needed f closed stream' d (omega arith) m w
  after_read-Extends needed again f (got (x ∷ bs)) stream' h m k d v w rec =
      rw (==_of_ne (suc (length bs)) 0 (omega arith)) (
        Extends-step needed f (x ∷ bs) stream' _ _ h k d v w
          (rec _ (length-written f.buf (x ∷ bs) f.filled (omega arith)) (omega arith) k))
  after_read-Extends needed again f (ReadOutcome.failed e) stream' h m k d v w rec =
      Extends-nothing needed f (io_error e) stream' d (omega arith) m w
  after_read-Extends needed again f ReadOutcome.pending stream' h m k d v w rec =
      Extends-nothing needed f dropped stream' d (omega arith) m w

  fill_loop-Extends :
      (fuel needed : ℕ) (f : Filled S)
      → needed ≤ length f.buf
      → f.filled ≤ needed
      → needed ≤ f.filled + fuel
      → Extends needed f (fill_loop fuel needed f).0 (fill_loop fuel needed f).1
  unfolding fill_loop
  fill_loop-Extends zero needed f h b k =
      rw (ltb_of_le f.filled needed (omega arith))
        (Extends-nothing needed f full f.stream (sym (append-nil _)) b (omega arith) refl)
  fill_loop-Extends (suc fuel) needed f h b k = elim (dec_lt f.filled needed) [
    | yes more ↦ rw (lt→ltb f.filled needed more) (
        after_read-Extends needed (fill_loop fuel needed) f _ _ h more
          (omega (arith, l.read_fits f.stream (needed - f.filled)))
          (l.read_delivers f.stream (needed - f.filled)) (l.read_bytes f.stream (needed - f.filled))
          (l.read_keeps f.stream (needed - f.filled))
          (λ g e lo hi. fill_loop-Extends fuel needed g (omega arith) hi (omega arith)))
    | no stop ↦
        rw (ltb_of_le f.filled needed (omega arith))
          (Extends-nothing needed f full f.stream (sym (append-nil _)) b (omega arith) refl)
  ]

  -- On a lawful stream the reading loop ends without want of fuel, puts the delivered bytes behind
  -- those that were there, and ends full or short of it by its outcome, for a buffer long enough
  -- and a start within it.
  pub fill-Extends :
      (needed : ℕ) (f : Filled S)
      → needed ≤ length f.buf
      → f.filled ≤ needed
      → Extends needed f (fill needed f).0 (fill needed f).1
  unfolding fill
  fill-Extends needed f h b = fill_loop-Extends (needed - f.filled) needed f h b (omega arith)
