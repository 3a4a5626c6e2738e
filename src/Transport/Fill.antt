-- ===== src/Transport/Fill.antt =====
-- The loops of src/transport.rs that read into or write from a buffer until it is done.
pub mod Laws
pub mod Write
pub mod Flow
pub mod Stops
use nng_core.Prelude.{ℕ, zero, suc, ◌+◌, ◌-◌, List, [], ◌∷◌, drop, length, ltb, ◌==◌, if◌then◌else◌}
use nng_core.Prelude.Slices.{written}
use nng_core.Transport.Stream.{Stream, ReadOutcome, got, WriteOutcome, took}
use Prim.Native.String.{String}

-- How such a loop ends: done, end of the stream, an error, or dropped while it waited. `stuck` is
-- no outcome of the code: the fuel ran out.
pub data End : Type 0 where
  full : End
  closed : End
  io_error : String → End
  dropped : End
  stuck : End

-- What the loop leaves: the stream, the buffer, and how far it is filled.
pub record Filled (S : Type 0) : Type 0 where
  pub stream : S
  pub buf : List ℕ
  pub filled : ℕ

module _ {S : Type 0} ⦃s : Stream S⦄ where
  -- One round: what the read gave goes into the buffer, and the loop goes on `again`.
  unfoldable pub after_read :
      (Filled S → End × Filled S) → Filled S → ReadOutcome → S → End × Filled S
  after_read again f (got bs) stream' =
      let grown : Filled S = record {
        stream = stream';
        buf = written f.buf bs f.filled;
        filled = f.filled + length bs;
      } in
      if length bs == 0 then (closed, record f { stream = stream' }) else again grown
  after_read again f (ReadOutcome.failed e) stream' = (io_error e, record f { stream = stream' })
  after_read again f ReadOutcome.pending stream' = (dropped, record f { stream = stream' })

  -- `while filled < needed { n = read(&mut buf[filled..needed]); if n == 0 { closed } filled += n }`.
  -- Every round reads a byte at least, so `needed - filled` rounds are enough.
  unfoldable pub fill_loop : ℕ → ℕ → Filled S → End × Filled S
  fill_loop zero needed f = if ltb f.filled needed then (stuck, f) else (full, f)
  fill_loop (suc fuel) needed f =
      let (outcome, stream') = s.read f.stream (needed - f.filled) in
      if ltb f.filled needed
      then after_read (fill_loop fuel needed) f outcome stream'
      else (full, f)

  unfoldable pub fill : ℕ → Filled S → End × Filled S
  fill needed f = fill_loop (needed - f.filled) needed f

  -- One round of `write_all`, with what is left of the buffer if the write took some of it.
  unfoldable pub after_write : (S → List ℕ → End × S) → List ℕ → WriteOutcome → S → End × S
  after_write again buf (took n) stream' =
      if n == 0 then (closed, stream') else again stream' (drop n buf)
  after_write again buf (WriteOutcome.failed e) stream' = (io_error e, stream')
  after_write again buf WriteOutcome.pending stream' = (dropped, stream')

  -- `write_all`; the list is `&buf[written..]`. Every round writes a byte at least.
  unfoldable pub write_loop : ℕ → S → List ℕ → End × S
  write_loop zero stream [] = (full, stream)
  write_loop zero stream (x ∷ buf) = (stuck, stream)
  write_loop (suc fuel) stream [] = (full, stream)
  write_loop (suc fuel) stream (x ∷ buf) =
      let (outcome, stream') = s.write stream (x ∷ buf) in
      after_write (write_loop fuel) (x ∷ buf) outcome stream'

  unfoldable pub write_all : S → List ℕ → End × S
  write_all stream buf = write_loop (length buf) stream buf
