-- ===== src/Codec/Frame/Laws.antt =====
-- Decoding undoes encoding, and accepts nothing else.
use nng_core.Prelude.{
  ℕ, ◌+◌, ◌-◌, ◌^◌, ◌≤◌, ◌<◌, ◌≡◌, refl, ap, ap₂, dec_lt, take-append_le, take-add, All-take, sym,
  ◌∙◌, arith, List, [], ◌∷◌, ◌++◌, All, length, take, drop, length-append, length-take, length-drop,
  take-append, drop-append, append_assoc, ok, err,
}
use nng_core.Prelude.Bytes.{
  IsByte, to_be_bytes, from_be_bytes, from_be_bytes-to_be_bytes, to_be_bytes-from_be_bytes,
  length-to_be_bytes,
}
use nng_core.Message.Heap
use nng_core.Message.Heap.{Message}
use nng_core.Codec.Handshake.{incomplete}
use nng_core.Codec.Frame.{encode_frame, decode_frame}

-- The payload of a message's frame.
abbrev pub payload : Message → List ℕ
payload m = m.header ++ m.body

pub length-encode_frame : (m : Message) → length (encode_frame m) ≡ 8 + length (payload m)
unfolding encode_frame
length-encode_frame m = omega (
  arith,
  length-append (to_be_bytes 8 (length m.header + length m.body)) (payload m),
  length-to_be_bytes 8 (length m.header + length m.body),
)

decode_frame_ok :
    (src : List ℕ) (len : ℕ)
    → from_be_bytes (take 8 src) ≡ len
    → 8 + len ≤ length src
    → decode_frame src ≡ ok (Heap.from_parts [] (take len (drop 8 src)), 8 + len)
unfolding decode_frame Heap.push_back
decode_frame_ok src len e h = rw e (ground (arith, ap (λ j. take j (drop 8 src)) (unpadded len)))
  where
    unpadded : (k : ℕ) → 8 + k - 8 ≡ k
    unpadded k = omega arith

decode_frame_short :
    (src : List ℕ) → length src < 8 + from_be_bytes (take 8 src) → decode_frame src ≡ err incomplete
unfolding decode_frame
decode_frame_short src h = ground arith

module _ (m : Message) (fits : length (payload m) < 2 ^ 64) where
  length_field : List ℕ
  length_field = to_be_bytes 8 (length m.header + length m.body)

  total : length m.header + length m.body ≡ length (payload m)
  total = omega (arith, length-append m.header m.body)

  read_length_field :
      (more : List ℕ) → from_be_bytes (take 8 (length_field ++ more)) ≡ length (payload m)
  unfolding length_field
  read_length_field more =
      ap from_be_bytes (take-append 8 length_field more (length-to_be_bytes 8 _))
      ∙ from_be_bytes-to_be_bytes 8 _ (omega (arith, total))
      ∙ total

  -- A frame whose payload is shorter than 2^64 decodes to its payload and to the frame's length,
  -- whatever follows it.
  pub decode_frame-encode_frame :
      (rest : List ℕ)
      → decode_frame (encode_frame m ++ rest)
        ≡ ok (Heap.from_parts [] (payload m), length (encode_frame m))
  unfolding encode_frame length_field
  decode_frame-encode_frame rest = rw (append_assoc length_field (payload m) rest) (
      decode_frame_ok (length_field ++ (payload m ++ rest)) (length (payload m))
        (read_length_field _)
        (omega (
          arith,
          length-append length_field (payload m ++ rest),
          length-append (payload m) rest,
          length-to_be_bytes 8 (length m.header + length m.body),
        ))
      ∙ ap₂ (λ t k. ok (Heap.from_parts [] t, k)) body_read (sym (length-encode_frame m)))
    where
      body_read :
          take (length (payload m)) (drop 8 (length_field ++ (payload m ++ rest))) ≡ payload m
      body_read =
          ap (take (length (payload m))) (drop-append 8 length_field _ (length-to_be_bytes 8 _))
          ∙ take-append (length (payload m)) (payload m) rest refl

  -- Every proper prefix of a frame whose payload is shorter than 2^64 is Incomplete.
  pub decode_frame_prefix :
      (front back : List ℕ) (x : ℕ)
      → encode_frame m ≡ front ++ (x ∷ back)
      → decode_frame front ≡ err incomplete
  unfolding encode_frame length_field
  decode_frame_prefix front back x e = elim (dec_lt (length front) 8) [
    | yes short ↦ decode_frame_short front (omega arith)
    | no long ↦ decode_frame_short front (omega (arith, field long, shorter))
  ]
    where
      shorter : length front < 8 + length (payload m)
      shorter = omega (arith, ap length e, length-append front (x ∷ back), length-encode_frame m)

      field : ¬ (length front < 8) → from_be_bytes (take 8 front) ≡ length (payload m)
      field long =
          ap from_be_bytes
            (sym (take-append_le 8 front (x ∷ back) (omega arith)) ∙ ap (take 8) (sym e))
          ∙ read_length_field (payload m)

-- If a list of bytes decodes to a message and a count, the count is within the input and so many
-- bytes of it are the encoding of the message.
pub decode_frame_sound :
    (src : List ℕ) (m : Message) (n : ℕ)
    → All IsByte src
    → decode_frame src ≡ ok (m, n)
    → (n ≤ length src) × (take n src ≡ encode_frame m)
unfolding encode_frame
decode_frame_sound src m n v e = elim (dec_lt (length src) (8 + len)) [
  | yes short ↦ cc (decode_frame_short src short)
  | no long ↦
      let got = decode_frame_ok src len refl (omega arith) in
      let hm : Heap.from_parts [] (take len (drop 8 src)) ≡ m = ground (arith, got) in
      let hn : 8 + len ≡ n = ground (arith, got) in
      rw (← hm, ← hn)
        (omega arith, take-add 8 len src ∙ ap (λ t. t ++ body) (sym (field (omega arith))))
]
  where
    len : ℕ
    len = from_be_bytes (take 8 src)

    body : List ℕ
    body = take len (drop 8 src)

    field : 8 + len ≤ length src → to_be_bytes 8 (0 + length body) ≡ take 8 src
    field h =
        ap (to_be_bytes 8) (omega (arith, length-take len (drop 8 src), length-drop 8 src))
        ∙ to_be_bytes-from_be_bytes 8 (take 8 src) (All-take IsByte 8 src v)
            (omega (arith, length-take 8 src))
