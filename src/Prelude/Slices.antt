-- ===== src/Prelude/Slices.antt =====
-- What the message types use of Rust's slices and vectors.
use nng_core.Prelude.Tests.{leb, if◌then◌else◌}
use nng_core.Prelude.Lists.{
  take-nil, length-take, length-drop, take-append, take-append_le, drop-append_le, take-append-drop,
  drop-drop, length, take, drop, replicate, length-append, drop-append, take_all, length-replicate,
}
use nng_core.Prelude.Outcome.{Exec, done, panic}
use Prim.Native.Nat.{ℕ, zero, suc, ◌+◌, ◌-◌, ◌≤◌, ◌<◌}
use mathlib.Core.Path.{◌≡◌, ap, ap₂, ◌∙◌, sym, refl}
use mathlib.Core.List.{List, [], ◌∷◌, ◌++◌, append_assoc}
use native.Mathlib.Omega.{arith}

module _ {ℓ} {A : Type ℓ} where
  -- `&xs[i..j]`
  abbrev pub slice : List A → ℕ → ℕ → List A
  slice xs i j = take (j - i) (drop i xs)

  -- `xs[i..i + src.len()].copy_from_slice(src)`; out of range it panics.
  unfoldable pub copy_at : List A → ℕ → List A → Exec (List A)
  copy_at xs i src =
      if leb (i + length src) (length xs)
      then done (take i xs ++ (src ++ drop (i + length src) xs))
      else panic

  -- `Vec::resize`
  unfoldable pub resize : List A → ℕ → A → List A
  resize xs n a = take n xs ++ replicate (n - length xs) a

  pub copy_at_ok :
      (xs : List A) (i : ℕ) (src : List A)
      → i + length src ≤ length xs
      → copy_at xs i src ≡ done (take i xs ++ (src ++ drop (i + length src) xs))
  unfolding copy_at
  copy_at_ok xs i src h = ground arith

  -- Copying over the first part of a list.
  pub copy_at_front :
      (old src rest : List A)
      → length old ≡ length src
      → copy_at (old ++ rest) 0 src ≡ done (src ++ rest)
  copy_at_front old src rest h =
      copy_at_ok (old ++ rest) 0 src (omega (arith, length-append old rest))
      ∙ ap (λ t. done (src ++ t)) (drop-append (0 + length src) old rest (omega arith))

  pub copy_at_panic :
      (xs : List A) (i : ℕ) (src : List A) → length xs < i + length src → copy_at xs i src ≡ panic
  unfolding copy_at
  copy_at_panic xs i src h = ground arith

pub length-resize {ℓ} : {A : Type ℓ} (xs : List A) (n : ℕ) (a : A) → length (resize xs n a) ≡ n
unfolding resize
length-resize xs n a = omega (
  arith,
  length-append (take n xs) (replicate (n - length xs) a),
  length-take n xs,
  length-replicate (n - length xs) a,
)

pub resize_grow {ℓ} :
    {A : Type ℓ} (xs : List A) (n : ℕ) (a : A) → resize xs (length xs + n) a ≡ xs ++ replicate n a
unfolding resize
resize_grow xs n a =
    ap₂ (λ t k. t ++ replicate k a) (take_all (length xs + n) xs (omega arith)) (omega arith)

-- A slice that ends inside the first part of an append.
slice_front {ℓ} :
    {A : Type ℓ} (p x : List A) (a b : ℕ) → a ≤ b → b ≤ length p → slice (p ++ x) a b ≡ slice p a b
slice_front p x a b h g =
    ap (λ t. take (b - a) t) (drop-append_le a p x (omega arith))
    ∙ take-append_le (b - a) (drop a p) x (omega (arith, length-drop a p))

-- A buffer after `src` was copied to the places from `i` on.
abbrev pub written {ℓ} : {A : Type ℓ} → List A → List A → ℕ → List A
written buf src i = take i buf ++ (src ++ drop (i + length src) buf)

-- Reading a slice of a buffer into which `src` was copied at `i`.
module _ {ℓ} {A : Type ℓ} (buf src : List A) (i : ℕ) (fits : i + length src ≤ length buf) where
  length_front : length (take i buf) ≡ i
  length_front = omega (arith, length-take i buf)

  pub length-written : length (written buf src i) ≡ length buf
  length-written = omega (
    arith,
    length_front,
    length-append (take i buf) (src ++ drop (i + length src) buf),
    length-append src (drop (i + length src) buf),
    length-drop (i + length src) buf,
  )

  -- A slice in front of the copy is unchanged.
  pub slice_before : (a b : ℕ) → a ≤ b → b ≤ i → slice (written buf src i) a b ≡ slice buf a b
  slice_before a b h g =
      slice_front (take i buf) _ a b h (omega (arith, length_front))
      ∙ sym (slice_front (take i buf) (drop i buf) a b h (omega (arith, length_front)))
      ∙ ap (λ t. slice t a b) (take-append-drop i buf)

  -- A slice that ends where the copy begins grows by what was copied.
  pub slice_grows :
      (a : ℕ) → a ≤ i → slice (written buf src i) a (i + length src) ≡ slice buf a i ++ src
  slice_grows a h =
      ap (λ t. take (i + length src - a) t)
        (drop-append_le a (take i buf) _ (omega (arith, length_front))
          ∙ sym (append_assoc kept src past))
      ∙ take-append (i + length src - a) (kept ++ src) past
          (omega (arith, length_kept, length-append kept src))
      ∙ ap (λ t. t ++ src) (sym slice_kept)
    where
      kept : List A
      kept = drop a (take i buf)

      past : List A
      past = drop (i + length src) buf

      length_kept : length kept ≡ i - a
      length_kept = omega (arith, length_front, length-drop a (take i buf))

      slice_kept : slice buf a i ≡ kept
      slice_kept =
          ap (λ t. slice t a i) (sym (take-append-drop i buf))
          ∙ ap (λ t. take (i - a) t)
              (drop-append_le a (take i buf) (drop i buf) (omega (arith, length_front)))
          ∙ take-append (i - a) kept (drop i buf) length_kept

  -- A slice behind the copy is unchanged.
  pub slice_after : (a b : ℕ) → i + length src ≤ a → slice (written buf src i) a b ≡ slice buf a b
  slice_after a b h =
      ap (λ t. take (b - a) t)
        (rw (← shift) (
          sym (drop-drop k (i + length src) (written buf src i))
          ∙ ap (drop k) past_copy
          ∙ drop-drop k (i + length src) buf))
    where
      k : ℕ
      k = a - (i + length src)

      shift : i + length src + k ≡ a
      shift = omega arith

      past_copy : drop (i + length src) (written buf src i) ≡ drop (i + length src) buf
      past_copy =
          sym (drop-drop (length src) i (written buf src i))
          ∙ ap (drop (length src)) (drop-append i (take i buf) _ length_front)
          ∙ drop-append (length src) src _ refl

pub drop-take {ℓ} :
    {A : Type ℓ} (k n : ℕ) (xs : List A) → drop k (take n xs) ≡ take (n - k) (drop k xs)
drop-take zero n xs = ap (λ j. take j xs) (omega arith)
drop-take {A} (suc k) zero xs =
    sym (ap (λ j. take j (drop (suc k) xs)) {x = 0 - suc k} {y = 0} (omega arith))
drop-take {A} (suc k) (suc n) [] = sym (take-nil A (suc n - suc k))
drop-take (suc k) (suc n) (x ∷ xs) = drop-take k n xs ∙ ap (λ j. take j (drop k xs)) (omega arith)

pub length-slice {ℓ} :
    {A : Type ℓ} (xs : List A) (a b : ℕ) → b ≤ length xs → length (slice xs a b) ≡ b - a
length-slice xs a b h = omega (arith, length-take (b - a) (drop a xs), length-drop a xs)
