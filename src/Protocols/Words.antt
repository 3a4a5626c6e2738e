-- ===== src/Protocols/Words.antt =====
-- The 32-bit words that the protocols put in front of a payload.
use nng_core.Prelude.{
  ℕ, ◌+◌, ◌%◌, ◌^◌, ◌<◌, ◌≡◌, ap, ◌∙◌, arith, List, ◌++◌, max, take, take-append,
}
use nng_core.Prelude.Bits.{bit_and-low_mask, bit_or_top}
use nng_core.Prelude.Bytes.{
  to_be_bytes, from_be_bytes, length-to_be_bytes, from_be_bytes-to_be_bytes,
}
use Prim.Native.Nat.{bit_and, bit_or}

abbrev pub IsU32 : ℕ → Type 0
IsU32 x = x < 2 ^ 32

-- `next_id.wrapping_add(1).max(1)`
abbrev pub next_id_after : ℕ → ℕ
next_id_after id = max ((id + 1) % 2 ^ 32) 1

-- `id | 0x8000_0000`
abbrev pub set_end_of_path : ℕ → ℕ
set_end_of_path id = bit_or id 0x8000_0000

-- `wire_id & 0x7fff_ffff`
abbrev pub strip_end_of_path : ℕ → ℕ
strip_end_of_path wire_id = bit_and wire_id 0x7fff_ffff

-- The first word of a body, as the machines read it.
abbrev pub first_word : List ℕ → ℕ
first_word body = from_be_bytes (take 4 body)

pub set_end_of_path_lem : (id : ℕ) → IsU32 id → set_end_of_path id ≡ id % 2 ^ 31 + 2 ^ 31
set_end_of_path_lem id h = bit_or_top 31 id h

pub strip_end_of_path_lem : (w : ℕ) → strip_end_of_path w ≡ w % 2 ^ 31
strip_end_of_path_lem w = bit_and-low_mask 31 w

-- Stripping the marker gives the id back without its own top bit.
pub strip_end_of_path-set_end_of_path :
    (id : ℕ) → IsU32 id → strip_end_of_path (set_end_of_path id) ≡ id % 2 ^ 31
strip_end_of_path-set_end_of_path id h =
    strip_end_of_path_lem (set_end_of_path id)
    ∙ ap (λ t. t % 2 ^ 31) (set_end_of_path_lem id h)
    ∙ omega arith

pub first_word-to_be_bytes :
    (w : ℕ) (more : List ℕ) → IsU32 w → first_word (to_be_bytes 4 w ++ more) ≡ w
first_word-to_be_bytes w more h =
    ap from_be_bytes (take-append 4 (to_be_bytes 4 w) more (length-to_be_bytes 4 w))
    ∙ from_be_bytes-to_be_bytes 4 w h
