-- ===== src/Message/Buf.antt =====
-- `trait MessageBuf` (src/message.rs): its five methods, and what its documentation promises of
-- them, as laws that the protocol state machines rely on and that both message types fill.
use nng_core.Prelude.{ℕ, ◌^◌, ◌≤◌, ◌<◌, ◌≡◌, List, ◌++◌, length, drop, Exec, done, panic}

-- A method that changes the message returns the new one; it may panic.
pub record MessageBuf (M : Type 0) : Type 0 where
  pub body : M → List ℕ
  pub header : M → List ℕ
  pub push_back : M → List ℕ → Exec M
  pub header_push_back : M → List ℕ → Exec M
  pub trim_front : M → ℕ → Exec M

-- The call returned a valid message with this header and this body.
abbrev pub Yields : {M : Type 0} → MessageBuf M → (M → Type 0) → Exec M → List ℕ → List ℕ → Type 0
Yields {M} b IsValid r h d = (m : M) × (r ≡ done m) × IsValid m × (b.header m ≡ h) × (b.body m ≡ d)

pub record IsLawful {M : Type 0} (b : MessageBuf M) : Type 1 where
  pub IsValid : M → Type 0
  -- the message can take this many more bytes
  pub HasHeaderRoom : M → ℕ → Type 0
  pub HasBodyRoom : M → ℕ → Type 0
  pub push_back_lem :
      (m : M) (d : List ℕ)
      → IsValid m
      → HasBodyRoom m (length d)
      → Yields b IsValid (b.push_back m d) (b.header m) (b.body m ++ d)
  pub header_push_back_lem :
      (m : M) (d : List ℕ)
      → IsValid m
      → HasHeaderRoom m (length d)
      → Yields b IsValid (b.header_push_back m d) (b.header m ++ d) (b.body m)
  pub trim_front_lem :
      (m : M) (n : ℕ)
      → IsValid m
      → n ≤ length (b.body m)
      → Yields b IsValid (b.trim_front m n) (b.header m) (drop n (b.body m))
  -- where the sum with a position in the message does not overflow
  pub trim_front_over :
      (m : M) (n : ℕ) → IsValid m → length (b.body m) < n → n < 2 ^ 63 → b.trim_front m n ≡ panic
