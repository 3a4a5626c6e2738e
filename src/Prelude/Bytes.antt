-- ===== src/Prelude/Bytes.antt =====
-- Big-endian bytes of fixed-width integers (`to_be_bytes`, `from_be_bytes` of Rust's integers).
use Prim.Native.Nat.{ℕ, zero, suc, ◌+◌, ◌*◌, ◌/◌, ◌%◌, ◌^◌, ◌<◌}
use mathlib.Core.Path.{◌≡◌, refl, ap, ap₂, sym, ◌∙◌}
use mathlib.Core.List.{List, [], ◌∷◌, ◌++◌, foldl, foldl-append, append-nil, append_assoc}
use native.Mathlib.Nat.{pow-suc, pow-succ', mul_assoc, mul-le-mul_right}
use native.Mathlib.Omega.{arith}
use nng_core.Prelude.Lists.{length, length-append, All}

abbrev pub IsByte : ℕ → Type 0
IsByte b = b < 256

-- The `w` bytes of `v`, the most significant one first.
unfoldable pub to_be_bytes : ℕ → ℕ → List ℕ
to_be_bytes zero v = []
to_be_bytes (suc w) v = to_be_bytes w (v / 256) ++ (v % 256 ∷ [])

abbrev shift_in : ℕ → ℕ → ℕ
shift_in acc b = acc * 256 + b

unfoldable pub from_be_bytes : List ℕ → ℕ
from_be_bytes bs = foldl shift_in 0 bs

pub length-to_be_bytes : (w v : ℕ) → length (to_be_bytes w v) ≡ w
unfolding to_be_bytes
length-to_be_bytes zero v = refl
length-to_be_bytes (suc w) v =
    omega (
      arith,
      length-append (to_be_bytes w (v / 256)) (v % 256 ∷ []),
      length-to_be_bytes w (v / 256),
    )

from_be_bytes-snoc :
    (bs : List ℕ) (b : ℕ) → from_be_bytes (bs ++ (b ∷ [])) ≡ from_be_bytes bs * 256 + b
unfolding from_be_bytes
from_be_bytes-snoc bs b = foldl-append shift_in 0 bs (b ∷ [])

pub from_be_bytes-to_be_bytes : (w v : ℕ) → v < 256 ^ w → from_be_bytes (to_be_bytes w v) ≡ v
unfolding to_be_bytes
from_be_bytes-to_be_bytes zero v h = unfold from_be_bytes in omega arith
from_be_bytes-to_be_bytes (suc w) v h = omega (
  arith,
  from_be_bytes-snoc (to_be_bytes w (v / 256)) (v % 256),
  from_be_bytes-to_be_bytes w (v / 256) (omega (arith, pow-suc 256 w)),
)

to_be_bytes-shift_in :
    (w a b : ℕ) → b < 256 → to_be_bytes (suc w) (shift_in a b) ≡ to_be_bytes w a ++ (b ∷ [])
unfolding to_be_bytes
to_be_bytes-shift_in w a b h =
    ap₂ (λ x y. to_be_bytes w x ++ (y ∷ [])) {x = (a * 256 + b) / 256} (omega arith) (omega arith)

to_be_bytes-foldl :
    (k acc : ℕ) (bs : List ℕ) (w : ℕ)
    → All IsByte bs
    → w ≡ k + length bs
    → to_be_bytes w (foldl shift_in acc bs) ≡ to_be_bytes k acc ++ bs
to_be_bytes-foldl k acc [] w h e =
    ap (λ t. to_be_bytes t acc) (omega arith) ∙ sym (append-nil (to_be_bytes k acc))
to_be_bytes-foldl k acc (b ∷ bs) w (hb, h) e =
    to_be_bytes-foldl (suc k) (shift_in acc b) bs w h (omega arith)
    ∙ ap (λ t. t ++ bs) (to_be_bytes-shift_in k acc b hb)
    ∙ append_assoc (to_be_bytes k acc) (b ∷ []) bs

-- Bytes read as a number and written again are the same bytes.
pub to_be_bytes-from_be_bytes :
    (w : ℕ) (bs : List ℕ) → All IsByte bs → length bs ≡ w → to_be_bytes w (from_be_bytes bs) ≡ bs
unfolding from_be_bytes
to_be_bytes-from_be_bytes w bs h e =
    to_be_bytes-foldl 0 0 bs w h (omega arith) ∙ unfold to_be_bytes in refl

foldl-shift_in_lt :
    (acc : ℕ) (bs : List ℕ) → All IsByte bs → foldl shift_in acc bs < (acc + 1) * 256 ^ length bs
foldl-shift_in_lt acc [] h = omega arith
foldl-shift_in_lt acc (b ∷ bs) (hb, h) = omega (
  arith,
  foldl-shift_in_lt (acc * 256 + b) bs h,
  mul-le-mul_right {m = acc * 256 + b + 1} {n = (acc + 1) * 256} (256 ^ length bs) (omega arith),
  mul_assoc (acc + 1) 256 (256 ^ length bs),
  ap (λ q. (acc + 1) * q) (pow-succ' 256 (length bs)),
)

pub from_be_bytes_lt : (bs : List ℕ) → All IsByte bs → from_be_bytes bs < 256 ^ length bs
unfolding from_be_bytes
from_be_bytes_lt bs h = omega (arith, foldl-shift_in_lt 0 bs h)
