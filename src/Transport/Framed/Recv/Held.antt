-- ===== src/Transport/Framed/Recv/Held.antt =====
-- The bytes of the current frame that a transport holds, and the shape of a frame on the wire.
use nng_core.Prelude.{
  ℕ, ◌≤◌, ◌<◌, ◌^◌, ◌≡◌, refl, ap, ap₂, sym, arith, List, [], ◌∷◌, ◌++◌, All, length, take,
  length-take, length-take_le, ltb_of_le, lt→ltb, dec_lt, Bool-cases, inl, inr, ltb, ◌==◌, ◌≢◌,
  if◌then◌else◌, ==_iff, Result, ok, err,
}
use nng_core.Prelude.Bytes.{IsByte, to_be_bytes, to_be_bytes-from_be_bytes, from_be_bytes_lt}
use nng_core.Transport.Framed.{
  FrameFormat, tcp, ipc, max_frame_bytes, TransportError, bad_frame_type, frame_too_large,
  RecvPhase, idle, len, body, RecvBuf, head_size, parse_head, payload_len,
}

-- The header of a frame whose payload has `n` bytes.
abbrev pub frame_head : FrameFormat → ℕ → List ℕ
frame_head tcp n = to_be_bytes 8 n
frame_head ipc n = 0x01 ∷ to_be_bytes 8 n

-- A whole frame.
abbrev pub frame : FrameFormat → List ℕ → List ℕ
frame format bytes = frame_head format (length bytes) ++ bytes

abbrev pub held_in : RecvPhase → FrameFormat → RecvBuf → List ℕ
held_in idle format rx = []
held_in len format rx = take rx.len_filled rx.len_buf
held_in body format rx = frame_head format (length rx.body) ++ take rx.body_filled rx.body

-- What was read of the frame that is still being received.
abbrev pub held : FrameFormat → RecvBuf → List ℕ
held format rx = held_in rx.phase format rx

abbrev pub IsValidIn : RecvPhase → FrameFormat → RecvBuf → Type 0
IsValidIn idle format rx = Unit {0}
IsValidIn len format rx =
    (rx.len_filled ≤ head_size format) × All IsByte (take rx.len_filled rx.len_buf)
IsValidIn body format rx = (rx.body_filled ≤ length rx.body) × (length rx.body ≤ max_frame_bytes)

-- The invariant of `RecvBuf`.
pub record IsValid (format : FrameFormat) (rx : RecvBuf) : Type 0 where
  pub sized : length rx.len_buf ≡ 9
  pub phase : IsValidIn rx.phase format rx

-- What a complete header of nine bytes says.
pub data Declares (format : FrameFormat) (head : List ℕ) : Result ℕ TransportError → Type 0 where
  length_ok :
      (n : ℕ) → n ≤ max_frame_bytes → head ≡ frame_head format n → Declares format head (ok n)
  too_large :
      (n : ℕ)
      → max_frame_bytes < n
      → n < 2 ^ 64
      → head ≡ frame_head format n
      → Declares format head (err (frame_too_large n))
  bad_type :
      (b : ℕ) (rest : List ℕ)
      → format ≡ ipc
      → b ≢ 0x01
      → head ≡ b ∷ rest
      → Declares format head (err (bad_frame_type b))

Declares-number :
    (format : FrameFormat) (head : List ℕ) (n : ℕ)
    → n < 2 ^ 64
    → head ≡ frame_head format n
    → Declares format head (if ltb max_frame_bytes n then err (frame_too_large n) else ok n)
Declares-number format head n lt e = elim (dec_lt max_frame_bytes n) [
  | yes big ↦ rw (lt→ltb max_frame_bytes n big) (too_large n big lt e)
  | no fits ↦ rw (ltb_of_le max_frame_bytes n (omega arith)) (length_ok n (omega arith) e)
]

pub payload_len-Declares :
    (format : FrameFormat) (buf : List ℕ)
    → length buf ≡ 9
    → All IsByte (take (head_size format) buf)
    → Declares format (take (head_size format) buf) (payload_len format buf)
unfolding payload_len
payload_len-Declares tcp buf e v =
    Declares-number tcp (take 8 buf) _
      (omega (
        arith,
        from_be_bytes_lt (take 8 buf) v,
        ap (λ k. 256 ^ k) (length-take_le 8 buf (omega arith)),
      ))
      (sym (to_be_bytes-from_be_bytes 8 (take 8 buf) v (omega (arith, length-take 8 buf))))
payload_len-Declares ipc [] e v = absurd (omega arith)
payload_len-Declares ipc (b ∷ buf) e v = elim (Bool-cases (b == 1)) [
  | inl one ↦
      rw (one, payload_len, parse_head)
        (Declares-number ipc (b ∷ take 8 buf) _
          (omega (
            arith,
            from_be_bytes_lt (take 8 buf) v.1,
            ap (λ k. 256 ^ k) (length-take_le 8 buf (omega arith)),
          ))
          (ap₂ ◌∷◌ ((==_iff b 1).0 one) (
            sym (to_be_bytes-from_be_bytes 8 (take 8 buf) v.1 (omega (arith, length-take 8 buf))))))
  | inr other ↦
      rw (other, payload_len, parse_head) (bad_type b (take 8 buf) refl (ground arith) refl)
]
