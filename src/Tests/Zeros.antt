-- ===== src/Tests/Zeros.antt =====
-- A concrete byte stream that never dries up: it gives zeros, at most three in a read.
use nng_core.Prelude.{
  ℕ, zero, suc, min, refl, arith, List, [], ◌++◌, All, length, length-replicate, replicate, take,
}
use nng_core.Prelude.Bytes.{IsByte}
use nng_core.Transport.Stream
use nng_core.Transport.Stream.{Stream, ReadOutcome, got, WriteOutcome, took}
use nng_core.Transport.Fill.Flow.{Flows}

pub record Zeros : Type 0 where
  pub delivered : List ℕ
  pub written : List ℕ

abbrev read : Zeros → ℕ → ReadOutcome × Zeros
read z n = let bs = replicate (min n 3) 0 in (got bs, record z { delivered = z.delivered ++ bs })

abbrev write : Zeros → List ℕ → WriteOutcome × Zeros
write z buf = (took (length buf), record z { written = z.written ++ take (length buf) buf })

instance abbrev pub zeros_stream : Stream Zeros
zeros_stream = record { read = read; write = write }

pub zeros-IsByte : (n : ℕ) → All IsByte (replicate n 0)
zeros-IsByte zero = tt
zeros-IsByte (suc n) = (omega arith, zeros-IsByte n)

unfoldable pub zeros_laws : Stream.IsLawful zeros_stream
zeros_laws = record {
  delivered = λ z. z.delivered;
  written = λ z. z.written;
  read_fits = λ z n. omega (arith, length-replicate {A = ℕ} (min n 3) 0);
  read_bytes = λ z n. zeros-IsByte (min n 3);
  read_delivers = λ z n. refl;
  write_fits = λ z buf. omega arith;
  write_writes = λ z buf. refl;
  read_keeps = λ z n. refl;
  write_keeps = λ z buf. refl;
}

pub zeros-Flows : Flows zeros_stream
zeros-Flows z n h = omega (arith, length-replicate {A = ℕ} (min n 3) 0)

abbrev pub no_bytes : Zeros
no_bytes = record { delivered = []; written = [] }
