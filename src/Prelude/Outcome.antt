-- ===== src/Prelude/Outcome.antt =====
-- Results of Rust code: `Result<A, E>`, and a computation that may panic.

use mathlib.Core.Bool.{Bool, true, false}

-- `Result<A, E>`
pub data Result {ℓ κ} (A : Type ℓ) (E : Type κ) : Type (ℓ ⊔ κ) where
  ok : A → Result A E
  err : E → Result A E

abbrev pub is_ok {ℓ κ} : {A : Type ℓ} {E : Type κ} → Result A E → Bool
is_ok (ok _) = true
is_ok (err _) = false

-- `Result::map_err`
abbrev pub map_err {ℓ κ μ} :
    {A : Type ℓ} {E : Type κ} {F : Type μ} → (E → F) → Result A E → Result A F
map_err f (ok a) = ok a
map_err f (err e) = err (f e)

-- A computation that returns, or panics (a failed assertion, a slice out of range).
pub data Exec {ℓ} (A : Type ℓ) : Type ℓ where
  done : A → Exec A
  panic : Exec A

infixl 5 ◌>>=◌ ◌>>◌
abbrev pub ◌>>=◌ {ℓ κ} : {A : Type ℓ} {B : Type κ} → Exec A → (A → Exec B) → Exec B
done a >>= f = f a
panic >>= f = panic

abbrev pub ◌>>◌ {ℓ} : {B : Type ℓ} → Exec (Unit {0}) → Exec B → Exec B
m >> k = m >>= λ _. k

-- `assert!`
abbrev pub assert : Bool → Exec (Unit {0})
assert true = done tt
assert false = panic

abbrev pub map_exec {ℓ κ} : {A : Type ℓ} {B : Type κ} → (A → B) → Exec A → Exec B
map_exec f (done a) = done (f a)
map_exec f panic = panic
