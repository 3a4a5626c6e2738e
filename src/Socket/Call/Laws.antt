-- ===== src/Socket/Call/Laws.antt =====
-- Calls one after the other, and what every successful run of a call gives.
use nng_core.Prelude.{◌≡◌, refl, ok, err}
use nng_core.Socket.Error.{NngError}
use nng_core.Socket.Call.{Ended, returned, cancelled, runs_on, Call, give, fail, after_ended, ◌>>=◌}

after_ended_assoc :
    {N A B C : Type 0} (f : A → Call N B) (g : B → Call N C) (e : Ended A) (n : N)
    → after_ended g (after_ended f e n).0 (after_ended f e n).1 ≡ after_ended (λ a. f a >>= g) e n
unfolding ◌>>=◌
after_ended_assoc f g (returned (ok a)) n = refl
after_ended_assoc f g (returned (err e)) n = refl
after_ended_assoc f g cancelled n = refl
after_ended_assoc f g runs_on n = refl

pub >>=_assoc :
    {N A B C : Type 0} (c : Call N A) (f : A → Call N B) (g : B → Call N C) (n : N)
    → ((c >>= f) >>= g).run n ≡ (c >>= (λ a. f a >>= g)).run n
unfolding ◌>>=◌
>>=_assoc c f g n = after_ended_assoc f g (c.run n).0 (c.run n).1

-- What a call gives when it succeeds.
abbrev pub IsGood : {A : Type 0} → (A → Type 0) → Ended A → Type 0
IsGood P (returned (ok a)) = P a
IsGood P (returned (err e)) = Unit {0}
IsGood P cancelled = Unit {0}
IsGood P runs_on = Unit {0}

-- Every run of the call that succeeds gives a value with the property.
pub record Gives {N A : Type 0} (c : Call N A) (P : A → Type 0) : Type 0 where
  pub good : (n : N) → IsGood P (c.run n).0

module _ {N A : Type 0} (P : A → Type 0) where
  after_ended-IsGood :
      {B : Type 0} (Q : B → Type 0) (f : A → Call N B) (e : Ended A) (n : N)
      → IsGood P e
      → ((a : A) → P a → Gives (f a) Q)
      → IsGood Q (after_ended f e n).0
  after_ended-IsGood Q f (returned (ok a)) n h next = (next a h).good n
  after_ended-IsGood Q f (returned (err e)) n h next = tt
  after_ended-IsGood Q f cancelled n h next = tt
  after_ended-IsGood Q f runs_on n h next = tt

  pub >>=-Gives :
      {B : Type 0} (Q : B → Type 0) (c : Call N A) (f : A → Call N B)
      → Gives c P
      → ((a : A) → P a → Gives (f a) Q)
      → Gives (c >>= f) Q
  unfolding ◌>>=◌
  >>=-Gives Q c f h next = record {
    good = λ n. after_ended-IsGood Q f (c.run n).0 (c.run n).1 (h.good n) next;
  }

abbrev pub Any : {A : Type 0} → A → Type 0
Any a = Unit {0}

Any-IsGood : {A : Type 0} (e : Ended A) → IsGood Any e
Any-IsGood (returned (ok a)) = tt
Any-IsGood (returned (err e)) = tt
Any-IsGood cancelled = tt
Any-IsGood runs_on = tt

pub Any-Gives : {N A : Type 0} (c : Call N A) → Gives c Any
Any-Gives c = record { good = λ n. Any-IsGood (c.run n).0 }

-- After a call of which nothing is to be known.
pub then-Gives :
    {N A B : Type 0} (Q : B → Type 0) (c : Call N A) (f : A → Call N B)
    → ((a : A) → Gives (f a) Q)
    → Gives (c >>= f) Q
then-Gives Q c f next = >>=-Gives Any Q c f (Any-Gives c) (λ a h. next a)

pub give-Gives : {N A : Type 0} (Q : A → Type 0) (a : A) → Q a → Gives {N = N} (give a) Q
give-Gives Q a h = record { good = λ n. h }

weaken-IsGood :
    {A : Type 0} (P Q : A → Type 0) (e : Ended A) → IsGood P e → ((a : A) → P a → Q a) → IsGood Q e
weaken-IsGood P Q (returned (ok a)) h w = w a h
weaken-IsGood P Q (returned (err e)) h w = tt
weaken-IsGood P Q cancelled h w = tt
weaken-IsGood P Q runs_on h w = tt

pub weaken-Gives :
    {N A : Type 0} (P Q : A → Type 0) (c : Call N A) → Gives c P → ((a : A) → P a → Q a) → Gives c Q
weaken-Gives P Q c h w = record { good = λ n. weaken-IsGood P Q (c.run n).0 (h.good n) w }

pub fail-Gives : {N A : Type 0} (Q : A → Type 0) (e : NngError) → Gives {N = N} (fail e) Q
fail-Gives Q e = record { good = λ n. tt }
