-- ===== src/Socket/Reconnect/Laws.antt =====
-- How often `reconnect_transport` tries, and how long it waits.
use nng_core.Prelude.{
  ℕ, zero, suc, ◌+◌, ◌*◌, ◌^◌, ◌%◌, ◌<◌, ◌≡◌, subst, refl, arith, min, max, List, [], ◌∷◌, false,
  Option, none, some, leb,
}
use nng_core.Socket.Reconnect.{
  ReconnectOptions, connected, exhausted, gives_up, after_attempt, reconnect_loop,
  reconnect_transport,
}

-- Exponential backoff: `n` delays from `backoff` on, each twice the one before it, up to `most`.
abbrev pub delays : (most n backoff : ℕ) → List ℕ
delays most zero backoff = []
delays most (suc n) backoff = backoff ∷ delays most n (min (backoff * 2) most)

-- After `k` failed attempts there may be another one.
abbrev pub Allows : Option ℕ → ℕ → Type 0
Allows none k = Unit {0}
Allows (some most) k = (k < most) × (most < 2 ^ 32)

module _ {T W : Type 0} (connect_transport : W → Option T × W) where
  -- The first `k` attempts fail.
  abbrev pub Fails : ℕ → W → Type 0
  Fails zero w = Unit {0}
  Fails (suc k) w = ((connect_transport w).0 ≡ none) × Fails k (connect_transport w).1

  -- What the connecting runs in after `k` attempts.
  abbrev pub after : ℕ → W → W
  after zero w = w
  after (suc k) w = after k (connect_transport w).1

  module _ (opts : ReconnectOptions) where
    goes_on :
        (a k : ℕ) → Allows opts.max_attempts (a + suc k) → gives_up opts ((a + 1) % 2 ^ 32) ≡ false
    unfolding gives_up
    goes_on a k h =
        elim opts.max_attempts
            as (λ m.
              Allows m (a + suc k)
              → elim m [ none ↦ false | some most ↦ leb most ((a + 1) % 2 ^ 32) ] ≡ false) [
                | none ↦ λ _. refl
                | some most ↦ λ b. ground arith
              ]
          h

    -- The count of attempts does not wrap around before the limit.
    counted :
        (a k : ℕ)
        → Allows opts.max_attempts (a + suc k)
        → Allows opts.max_attempts ((a + 1) % 2 ^ 32 + k)
    counted a k h =
        elim opts.max_attempts as (λ m. Allows m (a + suc k) → Allows m ((a + 1) % 2 ^ 32 + k)) [
          | none ↦ λ _. tt
          | some most ↦ λ b. omega arith
        ]
          h

    loop_connects :
        (k fuel backoff a : ℕ) (w : W) (t : T)
        → Fails k w
        → (connect_transport (after k w)).0 ≡ some t
        → k < fuel
        → Allows opts.max_attempts (a + k)
        → reconnect_loop connect_transport opts fuel backoff a w
          ≡ (connected t, delays opts.max_backoff (suc k) backoff, after (suc k) w)
    unfolding reconnect_loop after_attempt
    loop_connects k zero backoff a w t f e lt h = absurd (omega arith)
    loop_connects zero (suc fuel) backoff a w t f e lt h = rw e
    loop_connects (suc k) (suc fuel) backoff a w t f e lt h = rw (
      f.0,
      goes_on a k h,
      loop_connects k fuel (min (backoff * 2) opts.max_backoff) ((a + 1) % 2 ^ 32) _ t f.1 e
          (omega arith) (counted a k h),
    )

    loop_exhausts :
        (k fuel backoff a most : ℕ) (w : W)
        → Fails (suc k) w
        → k < fuel
        → opts.max_attempts ≡ some most
        → most < 2 ^ 32
        → a + suc k ≡ max 1 most
        → reconnect_loop connect_transport opts fuel backoff a w
          ≡ (exhausted, delays opts.max_backoff (suc k) backoff, after (suc k) w)
    unfolding reconnect_loop after_attempt gives_up
    loop_exhausts k zero backoff a most w f lt e u h = absurd (omega arith)
    loop_exhausts zero (suc fuel) backoff a most w f lt e u h = rw (f.0, e) (ground arith)
    loop_exhausts (suc k) (suc fuel) backoff a most w f lt e u h = rw (
      f.0,
      goes_on a k (rw e (omega arith)),
      loop_exhausts k fuel (min (backoff * 2) opts.max_backoff) ((a + 1) % 2 ^ 32) most _ f.1
          (omega arith) e u (omega arith),
    )

    -- If the first k attempts fail, the next succeeds, the u32 limit allows it and the fuel is
    -- more than k, reconnect_transport gives the transport of that attempt after k + 1 delays that
    -- start at min_backoff and double up to max_backoff.
    pub reconnect_transport-connects :
        (k fuel : ℕ) (w : W) (t : T)
        → Fails k w
        → (connect_transport (after k w)).0 ≡ some t
        → k < fuel
        → Allows opts.max_attempts k
        → reconnect_transport connect_transport opts fuel w
          ≡ (connected t, delays opts.max_backoff (suc k) opts.min_backoff, after (suc k) w)
    unfolding reconnect_transport
    reconnect_transport-connects k fuel w t f e lt h =
        loop_connects k fuel opts.min_backoff 0 w t f e lt
          (subst (Allows opts.max_attempts) (omega arith) h)

    -- With a u32 limit of attempts, where 0 counts as 1, if all of them fail and the
    -- fuel is enough for them, reconnect_transport gives up after exactly these attempts and as
    -- many delays that double up to max_backoff.
    pub reconnect_transport-exhausts :
        (k fuel most : ℕ) (w : W)
        → opts.max_attempts ≡ some most
        → most < 2 ^ 32
        → suc k ≡ max 1 most
        → Fails (suc k) w
        → k < fuel
        → reconnect_transport connect_transport opts fuel w
          ≡ (exhausted, delays opts.max_backoff (suc k) opts.min_backoff, after (suc k) w)
    unfolding reconnect_transport
    reconnect_transport-exhausts k fuel most w e u h f lt =
        loop_exhausts k fuel opts.min_backoff 0 most w f lt e u (omega arith)
