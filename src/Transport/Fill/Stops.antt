-- ===== src/Transport/Fill/Stops.antt =====
-- Which read or write of the stream a loop stopped on.
use nng_core.Prelude.{
  ℕ, zero, suc, ◌-◌, ◌≡◌, refl, ◌<◌, arith, List, [], ◌∷◌, length, dec_lt, lt→ltb, ltb_of_le,
  ==_of_ne,
}
use nng_core.Transport.Stream.{Stream, ReadOutcome, got, WriteOutcome, took}
use nng_core.Transport.Fill.{
  End, full, closed, io_error, dropped, stuck, Filled, after_read, fill_loop, fill, after_write,
  write_loop, write_all,
}
use Prim.Native.String.{String}

module _ {S : Type 0} ⦃s : Stream S⦄ where
  -- What the last read was, and what it left: no byte, this error, or a dropped future.
  pub data ReadStops : End → S → Type 0 where
    at_end :
        (x : S) (room : ℕ)
        → 0 < room
        → (s.read x room).0 ≡ got []
        → ReadStops closed (s.read x room).1
    failed :
        (x : S) (room : ℕ) (e : String)
        → 0 < room
        → (s.read x room).0 ≡ ReadOutcome.failed e
        → ReadStops (io_error e) (s.read x room).1
    waiting :
        (x : S) (room : ℕ)
        → 0 < room
        → (s.read x room).0 ≡ ReadOutcome.pending
        → ReadStops dropped (s.read x room).1

  -- What the last write was, and what it left.
  pub data WriteStops : End → S → Type 0 where
    at_end :
        (x : S) (b : ℕ) (buf : List ℕ)
        → (s.write x (b ∷ buf)).0 ≡ took 0
        → WriteStops closed (s.write x (b ∷ buf)).1
    failed :
        (x : S) (b : ℕ) (buf : List ℕ) (e : String)
        → (s.write x (b ∷ buf)).0 ≡ WriteOutcome.failed e
        → WriteStops (io_error e) (s.write x (b ∷ buf)).1
    waiting :
        (x : S) (b : ℕ) (buf : List ℕ)
        → (s.write x (b ∷ buf)).0 ≡ WriteOutcome.pending
        → WriteStops dropped (s.write x (b ∷ buf)).1

  -- A loop that was done, or wanted fuel, stopped on none.
  abbrev pub ReadStopped : End → S → Type 0
  ReadStopped full x = Unit {0}
  ReadStopped stuck x = Unit {0}
  ReadStopped e x = ReadStops e x

  abbrev pub WriteStopped : End → S → Type 0
  WriteStopped full x = Unit {0}
  WriteStopped stuck x = Unit {0}
  WriteStopped e x = WriteStops e x

  after_read-ReadStopped :
      (again : Filled S → End × Filled S) (f : Filled S) (x : S) (room : ℕ) (r : ReadOutcome)
      → 0 < room
      → (s.read x room).0 ≡ r
      → ((g : Filled S) → ReadStopped (again g).0 (again g).1.stream)
      → ReadStopped
          (after_read again f r (s.read x room).1).0
          (after_read again f r (s.read x room).1).1.stream
  unfolding after_read
  after_read-ReadStopped again f x room (got []) h e next = at_end x room h e
  after_read-ReadStopped again f x room (got (b ∷ bs)) h e next =
      rw (==_of_ne (suc (length bs)) 0 (omega arith)) (next _)
  after_read-ReadStopped again f x room (ReadOutcome.failed t) h e next = failed x room t h e
  after_read-ReadStopped again f x room ReadOutcome.pending h e next = waiting x room h e

  fill_loop-ReadStopped :
      (fuel needed : ℕ) (f : Filled S)
      → ReadStopped (fill_loop fuel needed f).0 (fill_loop fuel needed f).1.stream
  unfolding fill_loop
  fill_loop-ReadStopped zero needed f = elim (dec_lt f.filled needed) [
    | yes more ↦ rw (lt→ltb f.filled needed more) tt
    | no stop ↦ rw (ltb_of_le f.filled needed (omega arith)) tt
  ]
  fill_loop-ReadStopped (suc fuel) needed f = elim (dec_lt f.filled needed) [
    | yes more ↦ rw (lt→ltb f.filled needed more) (
        after_read-ReadStopped (fill_loop fuel needed) f f.stream (needed - f.filled) _
          (omega arith) refl (fill_loop-ReadStopped fuel needed))
    | no stop ↦ rw (ltb_of_le f.filled needed (omega arith)) tt
  ]

  pub fill-ReadStopped :
      (needed : ℕ) (f : Filled S) → ReadStopped (fill needed f).0 (fill needed f).1.stream
  unfolding fill
  fill-ReadStopped needed f = fill_loop-ReadStopped (needed - f.filled) needed f

  after_write-WriteStopped :
      (again : S → List ℕ → End × S) (x : S) (b : ℕ) (buf : List ℕ) (r : WriteOutcome)
      → (s.write x (b ∷ buf)).0 ≡ r
      → ((y : S) (left : List ℕ) → WriteStopped (again y left).0 (again y left).1)
      → WriteStopped
          (after_write again (b ∷ buf) r (s.write x (b ∷ buf)).1).0
          (after_write again (b ∷ buf) r (s.write x (b ∷ buf)).1).1
  unfolding after_write
  after_write-WriteStopped again x b buf (took zero) e next = at_end x b buf e
  after_write-WriteStopped again x b buf (took (suc n)) e next =
      rw (==_of_ne (suc n) 0 (omega arith)) (next _ _)
  after_write-WriteStopped again x b buf (WriteOutcome.failed t) e next = failed x b buf t e
  after_write-WriteStopped again x b buf WriteOutcome.pending e next = waiting x b buf e

  write_loop-WriteStopped :
      (fuel : ℕ) (x : S) (buf : List ℕ)
      → WriteStopped (write_loop fuel x buf).0 (write_loop fuel x buf).1
  unfolding write_loop
  write_loop-WriteStopped zero x [] = tt
  write_loop-WriteStopped zero x (b ∷ buf) = tt
  write_loop-WriteStopped (suc fuel) x [] = tt
  write_loop-WriteStopped (suc fuel) x (b ∷ buf) =
      after_write-WriteStopped (write_loop fuel) x b buf _ refl (write_loop-WriteStopped fuel)

  pub write_all-WriteStopped :
      (x : S) (buf : List ℕ) → WriteStopped (write_all x buf).0 (write_all x buf).1
  unfolding write_all
  write_all-WriteStopped x buf = write_loop-WriteStopped (length buf) x buf
