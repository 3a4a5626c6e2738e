-- ===== src/Socket/Call.antt =====
-- Asynchronous calls that use the network: a state-passing monad whose calls may fail.
pub mod Laws
use nng_core.Prelude.{Result, ok, err}
use nng_core.Socket.Error.{NngError, io}
use nng_core.Transport.Framed.{Outcome, finished}
use nng_core.Socket.Error.{from_transport}
use Prim.Native.String.{String}

-- How a call ends: it returns, its future is dropped, or (no outcome of the code) its fuel is spent.
pub data Ended (A : Type 0) : Type 0 where
  returned : Result A NngError → Ended A
  cancelled : Ended A
  runs_on : Ended A

pub record Call (N A : Type 0) : Type 0 where
  pub run : N → Ended A × N

abbrev pub give : {N A : Type 0} → A → Call N A
give a = record { run = λ n. (returned (ok a), n) }

abbrev pub fail : {N A : Type 0} → NngError → Call N A
fail e = record { run = λ n. (returned (err e), n) }

abbrev pub after_ended : {N A B : Type 0} → (A → Call N B) → Ended A → N → Ended B × N
after_ended f (returned (ok a)) n = (f a).run n
after_ended f (returned (err e)) n = (returned (err e), n)
after_ended f cancelled n = (cancelled, n)
after_ended f runs_on n = (runs_on, n)

-- `?`
infixl 5 ◌>>=◌
unfoldable pub ◌>>=◌ : {N A B : Type 0} → Call N A → (A → Call N B) → Call N B
c >>= f = record { run = λ n. let (e, n') = c.run n in after_ended f e n' }

-- The outcome of an operation of the system, with `NngError::from` for its `io::Error`.
abbrev pub io_ended : {A : Type 0} → Result A String → Ended A
io_ended (ok a) = returned (ok a)
io_ended (err e) = returned (err (io e))

abbrev pub system : {N A : Type 0} → (N → Result A String × N) → Call N A
system op = record { run = λ n. let (r, n') = op n in (io_ended r, n') }

-- The outcome of a transport's call, with `NngError::from` for its error.
abbrev pub transport_ended : {A : Type 0} → Outcome A → Ended A
transport_ended (finished (ok a)) = returned (ok a)
transport_ended (finished (err e)) = returned (err (from_transport e))
transport_ended Outcome.cancelled = cancelled
transport_ended Outcome.stuck = runs_on
