-- ===== src/Socket/Reconnect.antt =====
-- `reconnect_transport` and its options (src/socket.rs).
pub mod Laws
use nng_core.Prelude.{
  ℕ, zero, suc, ◌+◌, ◌*◌, ◌^◌, ◌%◌, min, List, [], ◌∷◌, Bool, true, false, Option, none, some, leb,
  if◌then◌else◌,
}

-- Durations are numbers of nanoseconds. `backoff * 2` panics above the largest `Duration`, some
-- 584 billion years, which is not modelled.
pub record ReconnectOptions : Type 0 where
  pub min_backoff : ℕ
  pub max_backoff : ℕ
  pub max_attempts : Option ℕ

abbrev pub default : ReconnectOptions
default = record { min_backoff = 100_000_000; max_backoff = 30_000_000_000; max_attempts = none }

-- How the loop ends. `still_trying` is no outcome of the code: the fuel ran out.
pub data Redialled (T : Type 0) : Type 0 where
  connected : T → Redialled T
  exhausted : Redialled T
  still_trying : Redialled T

unfoldable pub gives_up : ReconnectOptions → ℕ → Bool
gives_up opts attempts = elim opts.max_attempts [ none ↦ false | some max ↦ leb max attempts ]

-- `connect_transport(addr, proto)` is a parameter; `W` is what it runs in.
module _ {T W : Type 0} (connect_transport : W → Option T × W) (opts : ReconnectOptions) where
  -- One attempt, after its delay; `again` goes on with the next delay and the attempts so far.
  unfoldable pub after_attempt :
      (ℕ → ℕ → W → Redialled T × List ℕ × W) → ℕ → ℕ → Option T → W → Redialled T × List ℕ × W
  after_attempt again backoff attempts (some t) w = (connected t, backoff ∷ [], w)
  after_attempt again backoff attempts none w =
      let attempts' = (attempts + 1) % 2 ^ 32 in
      let (o, slept, w') = again (min (backoff * 2) opts.max_backoff) attempts' w in
      if gives_up opts attempts' then (exhausted, backoff ∷ [], w) else (o, backoff ∷ slept, w')

  -- Returns the outcome and the delays that were slept, in order.
  unfoldable pub reconnect_loop : ℕ → ℕ → ℕ → W → Redialled T × List ℕ × W
  reconnect_loop zero backoff attempts w = (still_trying, [], w)
  reconnect_loop (suc fuel) backoff attempts w =
      let (r, w') = connect_transport w in after_attempt (reconnect_loop fuel) backoff attempts r w'

  unfoldable pub reconnect_transport : ℕ → W → Redialled T × List ℕ × W
  reconnect_transport fuel w = reconnect_loop fuel opts.min_backoff 0 w
