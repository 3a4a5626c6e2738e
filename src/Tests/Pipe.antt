-- ===== src/Tests/Pipe.antt =====
-- A concrete byte stream that keeps the promises of `Stream.IsLawful`: it hands out its bytes in
-- pieces of the sizes that a script says, where 0 says that a read is dropped while it waits, and
-- takes at most three bytes in a write.
use nng_core.Prelude.{
  ℕ, ◌%◌, min, ◌≤◌, ◌≡◌, refl, sym, arith, List, [], ◌∷◌, ◌++◌, append-nil, All, length,
  length-take, take, drop, zero, suc,
}
use nng_core.Prelude.Bytes.{IsByte}
use nng_core.Transport.Stream
use nng_core.Transport.Stream.{Stream, ReadOutcome, got, WriteOutcome, took, bytes_of, count_of}

pub record Pipe : Type 0 where
  pub incoming : List ℕ
  pub script : List ℕ
  pub delivered : List ℕ
  pub written : List ℕ

abbrev to_bytes : List ℕ → List ℕ
to_bytes [] = []
to_bytes (x ∷ xs) = (x % 256) ∷ to_bytes xs

abbrev give : Pipe → ℕ → List ℕ → ReadOutcome × Pipe
give p n script =
    let bs = to_bytes (take n p.incoming) in
    (
      got bs,
      record p { incoming = drop n p.incoming; script = script; delivered = p.delivered ++ bs },
    )

abbrev read_by : Pipe → ℕ → List ℕ → ReadOutcome × Pipe
read_by p n [] = give p n []
read_by p n (zero ∷ rest) = (ReadOutcome.pending, record p { script = rest })
read_by p n (suc k ∷ rest) = give p (min n (suc k)) rest

abbrev read : Pipe → ℕ → ReadOutcome × Pipe
read p n = read_by p n p.script

abbrev write : Pipe → List ℕ → WriteOutcome × Pipe
write p buf = let n = min 3 (length buf) in (took n, record p { written = p.written ++ take n buf })

instance abbrev pub pipe_stream : Stream Pipe
pipe_stream = record { read = read; write = write }

length-to_bytes : (xs : List ℕ) → length (to_bytes xs) ≡ length xs
length-to_bytes [] = refl
length-to_bytes (x ∷ xs) = omega (arith, length-to_bytes xs)

to_bytes-IsByte : (xs : List ℕ) → All IsByte (to_bytes xs)
to_bytes-IsByte [] = tt
to_bytes-IsByte (x ∷ xs) = (omega arith, to_bytes-IsByte xs)

pub read_fits : (p : Pipe) (n : ℕ) (script : List ℕ) → length (bytes_of (read_by p n script).0) ≤ n
read_fits p n [] = omega (arith, length-to_bytes (take n p.incoming), length-take n p.incoming)
read_fits p n (zero ∷ rest) = omega arith
read_fits p n (suc k ∷ rest) = omega (
  arith,
  length-to_bytes (take (min n (suc k)) p.incoming),
  length-take (min n (suc k)) p.incoming,
)

pub read_bytes : (p : Pipe) (n : ℕ) (script : List ℕ) → All IsByte (bytes_of (read_by p n script).0)
read_bytes p n [] = to_bytes-IsByte (take n p.incoming)
read_bytes p n (zero ∷ rest) = tt
read_bytes p n (suc k ∷ rest) = to_bytes-IsByte (take (min n (suc k)) p.incoming)

pub read_delivers :
    (p : Pipe) (n : ℕ) (script : List ℕ)
    → (read_by p n script).1.delivered ≡ p.delivered ++ bytes_of (read_by p n script).0
read_delivers p n [] = refl
read_delivers p n (zero ∷ rest) = sym (append-nil p.delivered)
read_delivers p n (suc k ∷ rest) = refl

pub read_keeps : (p : Pipe) (n : ℕ) (script : List ℕ) → (read_by p n script).1.written ≡ p.written
read_keeps p n [] = refl
read_keeps p n (zero ∷ rest) = refl
read_keeps p n (suc k ∷ rest) = refl

unfoldable pub pipe_laws : Stream.IsLawful pipe_stream
pipe_laws = record {
  delivered = λ p. p.delivered;
  written = λ p. p.written;
  read_fits = λ p n. read_fits p n p.script;
  read_bytes = λ p n. read_bytes p n p.script;
  read_delivers = λ p n. read_delivers p n p.script;
  write_fits = λ p buf. omega arith;
  write_writes = λ p buf. refl;
  read_keeps = λ p n. read_keeps p n p.script;
  write_keeps = λ p buf. refl;
}

-- A stream that will deliver these bytes in these pieces.
abbrev pub pipe : List ℕ → List ℕ → Pipe
pipe incoming script = record { incoming = incoming; script = script; delivered = []; written = [] }
