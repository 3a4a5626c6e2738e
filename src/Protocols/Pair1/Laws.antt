-- ===== src/Protocols/Pair1/Laws.antt =====
-- PAIR1's two operations fit together.
use nng_core.Prelude.{
  ℕ, ◌+◌, ◌≤◌, ◌≡◌, arith, List, [], ◌++◌, length, length-append, take-append, drop-append,
  ltb_of_le, done, ◌>>=◌, ok,
}
use nng_core.Prelude.Bits.{bit_and-low_mask, bit_or_marker}
use nng_core.Prelude.Bytes.{to_be_bytes, from_be_bytes-to_be_bytes, length-to_be_bytes}
use nng_core.Message.Heap.{message_buf, from_parts, header_push_back}
use nng_core.Message.Heap.Laws.{trim_front_ok}
use nng_core.Protocols.ReqRep.{delivered}
use nng_core.Protocols.Pair1.{Pair1State, new, attach_ttl, process_incoming}
use Prim.Native.Nat.{bit_or}

-- A TTL that Pair1State::new accepts, attached to a body, comes out at the other end, with the
-- body unchanged.
pub process_incoming-attach_ttl :
    (t : ℕ) (s : Pair1State) (body : List ℕ)
    → new t ≡ done s
    → (attach_ttl s (from_parts [] body) >>= λ m. process_incoming (delivered m))
      ≡ done (from_parts [] body, ok t)
unfolding new attach_ttl process_incoming message_buf header_push_back
process_incoming-attach_ttl t s body e =
    rw
      (
        ltb_of_le (length (word ++ body)) 4 long,
        trim_front_ok (from_parts [] (word ++ body)) 4 long,
        drop-append 4 word body four,
        take-append 4 word body four,
        from_be_bytes-to_be_bytes 4 (bit_or 0x8000_0000 s.max_ttl)
            (omega (arith, marked, in_range)),
        bit_and-low_mask 4 (bit_or 0x8000_0000 s.max_ttl),
        marked,
      )
      (ground (arith, in_range))
  where
    word : List ℕ
    word = to_be_bytes 4 (bit_or 0x8000_0000 s.max_ttl)

    four : length word ≡ 4
    four = length-to_be_bytes 4 (bit_or 0x8000_0000 s.max_ttl)

    long : 4 ≤ length (word ++ body)
    long = omega (arith, length-append word body, four)

    in_range : (s.max_ttl ≡ t) × (1 ≤ t) × (t ≤ 15)
    in_range = ground arith

    marked : bit_or 0x8000_0000 s.max_ttl ≡ 0x8000_0000 + s.max_ttl
    marked = bit_or_marker s.max_ttl (omega (arith, in_range))
