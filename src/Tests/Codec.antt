-- ===== src/Tests/Codec.antt =====
-- Handshakes and frames of given bytes.
use nng_core.Prelude.{
  is_ok, false, ℕ, ◌≡◌, refl, arith, List, [], ◌∷◌, ◌++◌, take, length, ◌≤◌, ok, err,
}
use nng_core.Prelude.Bytes.{to_be_bytes, from_be_bytes}
use nng_core.Message.Heap.{Message, from_parts}
use nng_core.Codec.Protocol.{req0, rep0, sub0, expected_peer}
use nng_core.Codec.Handshake.{
  incompatible_protocol, incomplete, encode_handshake, decode_handshake, check_peer,
}
use nng_core.Codec.Handshake.Laws.{
  decode_handshake-encode_handshake, encode_handshake-decode_handshake, check_peer_table,
}
use nng_core.Codec.Frame.{encode_frame, decode_frame}
use nng_core.Codec.Frame.Laws.{decode_frame-encode_frame, decode_frame_prefix, decode_frame_sound}

abbrev hello : Message
hello = from_parts (7 ∷ []) (b'h' ∷ b'i' ∷ [])

abbrev hello_frame : List ℕ
hello_frame = 0 ∷ 0 ∷ 0 ∷ 0 ∷ 0 ∷ 0 ∷ 0 ∷ 3 ∷ 7 ∷ b'h' ∷ b'i' ∷ []

encoded : encode_frame hello ≡ hello_frame
unfolding encode_frame to_be_bytes
encoded = refl

decode_frame-encode_frame_example :
    decode_frame (encode_frame hello ++ (1 ∷ []))
    ≡ ok (from_parts [] (7 ∷ b'h' ∷ b'i' ∷ []), length (encode_frame hello))
decode_frame-encode_frame_example = decode_frame-encode_frame hello (omega arith) (1 ∷ [])

decode_frame_prefix_example : decode_frame (take 9 hello_frame) ≡ err incomplete
unfolding encode_frame to_be_bytes
decode_frame_prefix_example =
    decode_frame_prefix hello (omega arith) (take 9 hello_frame) (b'i' ∷ []) b'h' refl

decode_frame_sound_example :
    (11 ≤ length (hello_frame ++ (1 ∷ [])))
    × (take 11 (hello_frame ++ (1 ∷ [])) ≡ encode_frame (from_parts [] (7 ∷ b'h' ∷ b'i' ∷ [])))
unfolding decode_frame from_be_bytes nng_core.Message.Heap.push_back
decode_frame_sound_example =
    decode_frame_sound (hello_frame ++ (1 ∷ [])) (from_parts [] (7 ∷ b'h' ∷ b'i' ∷ [])) 11
      (ground arith) refl

decode_handshake-encode_handshake_example : decode_handshake (encode_handshake 0x31) ≡ ok 0x31
decode_handshake-encode_handshake_example = decode_handshake-encode_handshake rep0 (omega arith)

encode_handshake-decode_handshake_example :
    encode_handshake 0x31 ≡ (0 ∷ b'S' ∷ b'P' ∷ 0 ∷ 0 ∷ 0x31 ∷ 0 ∷ 0 ∷ [])
unfolding decode_handshake from_be_bytes
encode_handshake-decode_handshake_example =
    encode_handshake-decode_handshake (0 ∷ b'S' ∷ b'P' ∷ 0 ∷ 0 ∷ 0x31 ∷ 0 ∷ 0 ∷ []) 0x31 refl
      (ground arith) refl

-- A protocol with no name expects itself.
check_peer_table_example : is_ok (check_peer 0x99 0x98) ≡ false
check_peer_table_example = check_peer_table 0x99 0x98

refused : check_peer req0 sub0 ≡ err (incompatible_protocol req0 sub0)
unfolding check_peer expected_peer
refused = refl
