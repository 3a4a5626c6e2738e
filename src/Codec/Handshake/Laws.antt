-- ===== src/Codec/Handshake/Laws.antt =====
-- What the handshake accepts, and that the two ends agree.
use nng_core.Prelude.{
  ℕ, ◌≡◌, ◌↔◌, ap, sym, ◌∙◌, arith, List, [], ◌∷◌, Bool, false, not, is_ok, ◌==◌, ◌&&◌, ◌||◌, All,
  length, ok,
}
use nng_core.Prelude.Bytes.{IsByte, to_be_bytes, from_be_bytes}
use nng_core.Codec.Protocol.{
  ProtocolId, IsU16, expected_peer, named, req0, rep0, pub0, sub0, push0, pull0, surveyor0,
  respondent0, pair0, pair1, bus0,
}
use nng_core.Codec.Protocol.Laws.{expected_peer-expected_peer}
use nng_core.Codec.Handshake.{encode_handshake, decode_handshake, check_peer}

-- The handshake of a u16 protocol decodes to it.
pub decode_handshake-encode_handshake :
    (p : ProtocolId) → IsU16 p → decode_handshake (encode_handshake p) ≡ ok p
unfolding decode_handshake encode_handshake to_be_bytes from_be_bytes
decode_handshake-encode_handshake p h = ground arith

-- Eight bytes that decode to a protocol are its handshake.
pub encode_handshake-decode_handshake :
    (buf : List ℕ) (p : ProtocolId)
    → length buf ≡ 8
    → All IsByte buf
    → decode_handshake buf ≡ ok p
    → encode_handshake p ≡ buf
unfolding decode_handshake encode_handshake to_be_bytes from_be_bytes
encode_handshake-decode_handshake (a ∷ b ∷ c ∷ d ∷ e ∷ f ∷ g ∷ h ∷ []) p n v r = ground arith
encode_handshake-decode_handshake (a ∷ b ∷ c ∷ d ∷ e ∷ f ∷ g ∷ h ∷ i ∷ r) p n v _ =
    absurd (omega arith)
encode_handshake-decode_handshake _ p n v r = absurd (omega arith)

-- Which protocols speak with each other.
abbrev pub peers : List (ProtocolId × ProtocolId)
peers =
    (req0, rep0)
    ∷ (rep0, req0)
    ∷ (pub0, sub0)
    ∷ (sub0, pub0)
    ∷ (push0, pull0)
    ∷ (pull0, push0)
    ∷ (surveyor0, respondent0)
    ∷ (respondent0, surveyor0)
    ∷ (pair0, pair0)
    ∷ (pair1, pair1)
    ∷ (bus0, bus0)
    ∷ []

abbrev pub is_listed : List (ProtocolId × ProtocolId) → ProtocolId → ProtocolId → Bool
is_listed [] a b = false
is_listed (p ∷ ps) a b = (p.0 == a && p.1 == b) || is_listed ps a b

abbrev pub is_named : List ProtocolId → ProtocolId → Bool
is_named [] a = false
is_named (p ∷ ps) a = p == a || is_named ps a

-- check_peer accepts exactly the pairs of peers in the table, and for a local protocol without a
-- name that protocol itself.
pub check_peer_table :
    (local remote : ProtocolId)
    → is_ok (check_peer local remote)
      ≡ (is_listed peers local remote || not (is_named named local) && remote == local)
unfolding check_peer expected_peer
check_peer_table local remote = ground arith

-- check_peer accepts the expected peer and no other protocol, also where the local protocol has no
-- name.
pub check_peer_iff :
    (local remote : ProtocolId) → (check_peer local remote ≡ ok tt) ↔ (remote ≡ expected_peer local)
unfolding check_peer
check_peer_iff local remote = ground arith

-- For any two protocols, one end accepts the other exactly when the other accepts it.
pub check_peer_symm : (a b : ProtocolId) → (check_peer a b ≡ ok tt) ↔ (check_peer b a ≡ ok tt)
check_peer_symm a b = (go a b, go b a)
  where
    go : (x y : ProtocolId) → check_peer x y ≡ ok tt → check_peer y x ≡ ok tt
    go x y h =
        (check_peer_iff y x).1
          (sym (expected_peer-expected_peer x) ∙ ap expected_peer (sym ((check_peer_iff x y).0 h)))
