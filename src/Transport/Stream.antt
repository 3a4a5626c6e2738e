-- ===== src/Transport/Stream.antt =====
-- The byte stream under a transport: `embedded_io_async::{Read, Write}`, which lies outside the
-- repository. A stream of type `S` is a parameter, with what its documentation promises as laws.
use nng_core.Prelude.{ℕ, ◌≤◌, ◌≡◌, List, [], ◌++◌, All, length, take}
use nng_core.Prelude.Bytes.{IsByte}
use Prim.Native.String.{String}

-- How one `read` ends: `Ok` with these bytes (none at the end of the stream), `Err` with this text,
-- or not at all: the caller drops the future while it waits.
pub data ReadOutcome : Type 0 where
  got : List ℕ → ReadOutcome
  failed : String → ReadOutcome
  pending : ReadOutcome

-- How one `write` ends: so many bytes were taken, or it failed, or its future was dropped.
pub data WriteOutcome : Type 0 where
  took : ℕ → WriteOutcome
  failed : String → WriteOutcome
  pending : WriteOutcome

pub record Stream (S : Type 0) : Type 0 where
  -- a buffer of this many bytes is offered
  pub read : S → ℕ → ReadOutcome × S
  pub write : S → List ℕ → WriteOutcome × S

abbrev pub bytes_of : ReadOutcome → List ℕ
bytes_of (got bs) = bs
bytes_of (ReadOutcome.failed e) = []
bytes_of ReadOutcome.pending = []

abbrev pub count_of : WriteOutcome → ℕ
count_of (took n) = n
count_of (WriteOutcome.failed e) = 0
count_of WriteOutcome.pending = 0

-- `delivered` and `written` are the bytes that passed so far, in order. A read fills at most the
-- buffer it was offered, a write takes a prefix of what it was given, what fails or is dropped moves
-- no byte, and the two directions do not touch each other.
pub record IsLawful {S : Type 0} (io : Stream S) : Type 0 where
  pub delivered : S → List ℕ
  pub written : S → List ℕ
  pub read_fits : (s : S) (n : ℕ) → length (bytes_of (io.read s n).0) ≤ n
  pub read_bytes : (s : S) (n : ℕ) → All IsByte (bytes_of (io.read s n).0)
  pub read_delivers :
      (s : S) (n : ℕ) → delivered (io.read s n).1 ≡ delivered s ++ bytes_of (io.read s n).0
  pub write_fits : (s : S) (buf : List ℕ) → count_of (io.write s buf).0 ≤ length buf
  pub write_writes :
      (s : S) (buf : List ℕ)
      → written (io.write s buf).1 ≡ written s ++ take (count_of (io.write s buf).0) buf
  pub read_keeps : (s : S) (n : ℕ) → written (io.read s n).1 ≡ written s
  pub write_keeps : (s : S) (buf : List ℕ) → delivered (io.write s buf).1 ≡ delivered s
