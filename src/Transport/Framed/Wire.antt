-- ===== src/Transport/Framed/Wire.antt =====
-- Frames one behind the other on the wire, and why they can be told apart.
use nng_core.Prelude.{
  ℕ, ◌^◌, ◌≤◌, ◌<◌, ◌≡◌, ap, sym, ◌∙◌, arith, List, [], ◌∷◌, ◌++◌, append_assoc, append-split,
  length, length-append, drop,
}
use nng_core.Prelude.Bytes.{
  to_be_bytes, from_be_bytes, from_be_bytes-to_be_bytes, length-to_be_bytes,
}
use nng_core.Transport.Framed.{FrameFormat, tcp, ipc, head_size}
use nng_core.Transport.Framed.Recv.Held.{frame_head, frame}

-- The frames of these payloads, in order.
abbrev pub frames : FrameFormat → List (List ℕ) → List ℕ
frames format [] = []
frames format (p ∷ ps) = frame format p ++ frames format ps

pub length-frame_head :
    (format : FrameFormat) (n : ℕ) → length (frame_head format n) ≡ head_size format
length-frame_head tcp n = length-to_be_bytes 8 n
length-frame_head ipc n = omega (arith, length-to_be_bytes 8 n)

to_be_bytes_inj : (n m : ℕ) → n < 2 ^ 64 → m < 2 ^ 64 → to_be_bytes 8 n ≡ to_be_bytes 8 m → n ≡ m
to_be_bytes_inj n m h k e =
    sym (from_be_bytes-to_be_bytes 8 n (omega arith))
    ∙ ap from_be_bytes e
    ∙ from_be_bytes-to_be_bytes 8 m (omega arith)

frame_head_inj :
    (format : FrameFormat) (n m : ℕ)
    → n < 2 ^ 64
    → m < 2 ^ 64
    → frame_head format n ≡ frame_head format m
    → n ≡ m
frame_head_inj tcp n m h k e = to_be_bytes_inj n m h k e
frame_head_inj ipc n m h k e = to_be_bytes_inj n m h k (ap (drop 1) e)

-- Two byte sequences that begin with a header and agree declare one length, and agree behind it.
pub frame_head-split :
    (format : FrameFormat) (n m : ℕ) (x y : List ℕ)
    → n < 2 ^ 64
    → m < 2 ^ 64
    → frame_head format n ++ x ≡ frame_head format m ++ y
    → (n ≡ m) × (x ≡ y)
frame_head-split format n m x y h k e =
    let (heads, rest) =
      append-split (frame_head format n) x (frame_head format m) y
        (length-frame_head format n ∙ sym (length-frame_head format m)) e in
    (frame_head_inj format n m h k heads, rest)

-- No frame is a proper prefix of another.
pub frame-split :
    (format : FrameFormat) (p q x y : List ℕ)
    → length p < 2 ^ 64
    → length q < 2 ^ 64
    → frame format p ++ x ≡ frame format q ++ y
    → (p ≡ q) × (x ≡ y)
frame-split format p q x y h k e =
    let (sizes, rest) = frame_head-split format (length p) (length q) (p ++ x) (q ++ y) h k (
      sym (append_assoc (frame_head format (length p)) p x)
      ∙ e
      ∙ append_assoc (frame_head format (length q)) q y) in
    append-split p x q y sizes rest

head_size_ge : (format : FrameFormat) → 8 ≤ head_size format
head_size_ge tcp = omega arith
head_size_ge ipc = omega arith

-- Nothing begins with a header when there is nothing.
pub frame_head-nonempty :
    (format : FrameFormat) (n : ℕ) (x : List ℕ) → frame_head format n ++ x ≡ [] → ⊥
frame_head-nonempty format n x e = omega (
  arith,
  ap length e,
  length-append (frame_head format n) x,
  length-frame_head format n,
  head_size_ge format,
)
