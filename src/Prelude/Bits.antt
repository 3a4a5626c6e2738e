-- ===== src/Prelude/Bits.antt =====
-- The masks that the protocols use, as arithmetic: the low bits and the top bit of a word.
use Prim.Native.Nat.{
  ℕ, zero, suc, ◌+◌, ◌-◌, ◌*◌, ◌/◌, ◌%◌, ◌^◌, ◌≤◌, ◌<◌, min, max, bit_and, bit_or, digits, bitwise,
  bit_and-bitwise, bit_or-bitwise,
}
use mathlib.Core.Path.{◌≡◌, refl, ap}
use mathlib.Core.Bool.{Bool, true, false}
use nng_core.Prelude.Tests.{◌==◌, ==_iff, if◌then◌else◌}
use native.Mathlib.Nat.{
  pow-suc, one-le-pow, mul-add-mod_self_right, mod-eq_of_lt, mod-lt, div-add-mod,
}
use native.Mathlib.Omega.{arith}

module _ (z : ℕ → ℕ) (op : ℕ → ℕ → ℕ) where
  digits_enough : (k l a b : ℕ) → a ≤ k → a ≤ l → digits z op k a b ≡ digits z op l a b
  digits_enough zero zero a b h g = refl
  digits_enough zero (suc l) zero b h g = refl
  digits_enough zero (suc l) (suc a) b h g = absurd (omega arith)
  digits_enough (suc k) zero zero b h g = refl
  digits_enough (suc k) zero (suc a) b h g = absurd (omega arith)
  digits_enough (suc k) (suc l) zero b h g = refl
  digits_enough (suc k) (suc l) (suc a) b h g =
      rw (digits_enough k l (suc a / 2) (b / 2) (omega arith) (omega arith))

  last_digit :
      (a b : ℕ)
      → bitwise z op (suc a) b ≡ bitwise z op (suc a / 2) (b / 2) * 2 + op (suc a % 2) (b % 2)
  last_digit a b =
      omega (arith, digits_enough a (suc a / 2) (suc a / 2) (b / 2) (omega arith) (omega arith))

bit_or-last_digit : (a b : ℕ) → bit_or a b ≡ bit_or (a / 2) (b / 2) * 2 + max (a % 2) (b % 2)
bit_or-last_digit zero b = simp bit_or-bitwise (omega arith)
bit_or-last_digit (suc a) b = simp bit_or-bitwise (last_digit (λ y. y) max a b)

bit_and-last_digit : (a b : ℕ) → bit_and a b ≡ bit_and (a / 2) (b / 2) * 2 + min (a % 2) (b % 2)
bit_and-last_digit zero b = simp bit_and-bitwise (omega arith)
bit_and-last_digit (suc a) b = simp bit_and-bitwise (last_digit (λ y. 0) min a b)

bit_and-zero_below : (n a : ℕ) → a ≤ n → bit_and a 0 ≡ 0
bit_and-zero_below n zero h = refl
bit_and-zero_below zero (suc a) h = absurd (omega arith)
bit_and-zero_below (suc n) (suc a) h =
    omega (arith, bit_and-last_digit (suc a) 0, bit_and-zero_below n (suc a / 2) (omega arith))

-- Halving takes a remainder by `2 * p` to one by `p`.
mod-double : (a p : ℕ) → 1 ≤ p → a / 2 % p * 2 + a % 2 ≡ a % (p * 2)
mod-double a p h = omega (
  arith,
  mul-add-mod_self_right (a / 2 / p) (p * 2) (a / 2 % p * 2 + a % 2),
  mod-eq_of_lt {n = a / 2 % p * 2 + a % 2} {m = p * 2} (omega (arith, mod-lt (a / 2) h)),
  ap (λ (t : ℕ). t % (p * 2)) split,
)
  where
    split : a / 2 / p * (p * 2) + (a / 2 % p * 2 + a % 2) ≡ a
    split = omega (arith, div-add-mod (a / 2) p)

-- A mask of `k` low bits is the remainder by `2 ^ k`.
pub bit_and-low_mask : (k a : ℕ) → bit_and a (2 ^ k - 1) ≡ a % 2 ^ k
bit_and-low_mask zero a = omega (arith, bit_and-zero_below a a (omega arith))
bit_and-low_mask (suc k) a = omega (
  arith,
  pow-suc 2 k,
  one-le-pow k 2,
  bit_and-last_digit a (2 ^ suc k - 1),
  ap (λ (t : ℕ). bit_and (a / 2) t) halved,
  bit_and-low_mask k (a / 2),
  mod-double a (2 ^ k) (one-le-pow k 2 (omega arith)),
  ap (λ (t : ℕ). a % t) (pow-suc 2 k),
)
  where
    halved : (2 ^ suc k - 1) / 2 ≡ 2 ^ k - 1
    halved = omega (arith, pow-suc 2 k, one-le-pow k 2)

bit_or-zero_below : (n a : ℕ) → a ≤ n → bit_or a 0 ≡ a
bit_or-zero_below n zero h = refl
bit_or-zero_below zero (suc a) h = absurd (omega arith)
bit_or-zero_below (suc n) (suc a) h =
    omega (arith, bit_or-last_digit (suc a) 0, bit_or-zero_below n (suc a / 2) (omega arith))

-- Setting bit `k` of a number of `k + 1` bits.
pub bit_or_top : (k a : ℕ) → a < 2 ^ suc k → bit_or a (2 ^ k) ≡ a % 2 ^ k + 2 ^ k
bit_or_top zero a h =
    omega (arith, bit_or-last_digit a 1, bit_or-zero_below (a / 2) (a / 2) (omega arith))
bit_or_top (suc k) a h = omega (
  arith,
  pow-suc 2 k,
  pow-suc 2 (suc k),
  bit_or-last_digit a (2 ^ suc k),
  ap (λ (t : ℕ). bit_or (a / 2) t) halved,
  bit_or_top k (a / 2) (omega (arith, pow-suc 2 (suc k))),
  mod-double a (2 ^ k) (one-le-pow k 2 (omega arith)),
  ap (λ (t : ℕ). a % t) (pow-suc 2 k),
)
  where
    halved : 2 ^ suc k / 2 ≡ 2 ^ k
    halved = omega (arith, pow-suc 2 k)

-- Facts about the words below a small bound, by evaluation.
pub holds_below : ℕ → (ℕ → Bool) → Bool
holds_below zero p = true
holds_below (suc n) p = if p n then holds_below n p else false

pub holds_below_sound : (n : ℕ) (p : ℕ → Bool) (x : ℕ) → holds_below n p ≡ true → x < n → p x ≡ true
unfolding holds_below
holds_below_sound zero p x h lt = absurd (omega arith)
holds_below_sound (suc n) p x h lt = ground (arith, holds_below_sound n p x)

-- Setting the top bit of a word over a number of four bits.
pub bit_or_marker : (t : ℕ) → t < 16 → bit_or 0x8000_0000 t ≡ 0x8000_0000 + t
unfolding holds_below
bit_or_marker t h =
    (==_iff _ _).0 (holds_below_sound 16 (λ x. bit_or 0x8000_0000 x == 0x8000_0000 + x) t refl h)
