-- ===== src/Transport/Fill/Flow.antt =====
-- The reading loop on a stream that does not dry up.
use nng_core.Prelude.{
  ℕ, zero, suc, ◌+◌, ◌-◌, ◌≤◌, ◌<◌, ◌≡◌, refl, arith, [], ◌∷◌, length, dec_lt, lt→ltb, ltb_of_le,
  ==_of_ne,
}
use nng_core.Transport.Stream.{Stream, ReadOutcome, got, bytes_of}
use nng_core.Transport.Fill.{End, full, Filled, after_read, fill_loop, fill}

-- A read that is offered room gives a byte at least.
abbrev pub Flows : {S : Type 0} → Stream S → Type 0
Flows {S} s = (x : S) (n : ℕ) → 0 < n → 0 < length (bytes_of (s.read x n).0)

module _ {S : Type 0} ⦃s : Stream S⦄ (flows : Flows s) where
  after_read-full :
      (again : Filled S → End × Filled S) (f : Filled S) (outcome : ReadOutcome) (stream' : S)
      → 0 < length (bytes_of outcome)
      → ((g : Filled S) → f.filled < g.filled → (again g).0 ≡ full)
      → (after_read again f outcome stream').0 ≡ full
  unfolding after_read
  after_read-full again f (got []) stream' some next = absurd (omega arith)
  after_read-full again f (got (x ∷ bs)) stream' some next =
      rw (==_of_ne (suc (length bs)) 0 (omega arith)) (next _ (omega arith))
  after_read-full again f (ReadOutcome.failed e) stream' some next = absurd (omega arith)
  after_read-full again f ReadOutcome.pending stream' some next = absurd (omega arith)

  fill_loop-full :
      (fuel needed : ℕ) (f : Filled S)
      → needed ≤ f.filled + fuel
      → (fill_loop fuel needed f).0 ≡ full
  unfolding fill_loop
  fill_loop-full zero needed f k = rw (ltb_of_le f.filled needed (omega arith)) refl
  fill_loop-full (suc fuel) needed f k = elim (dec_lt f.filled needed) [
    | yes more ↦ rw (lt→ltb f.filled needed more) (
        after_read-full (fill_loop fuel needed) f _ _
          (flows f.stream (needed - f.filled) (omega arith))
          (λ g lt. fill_loop-full fuel needed g (omega arith)))
    | no stop ↦ rw (ltb_of_le f.filled needed (omega arith)) refl
  ]

  pub fill-full : (needed : ℕ) (f : Filled S) → (fill needed f).0 ≡ full
  unfolding fill
  fill-full needed f = fill_loop-full (needed - f.filled) needed f (omega arith)
