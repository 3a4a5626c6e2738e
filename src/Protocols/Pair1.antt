-- ===== src/Protocols/Pair1.antt =====
-- `Pair1State` (src/protocols/pair.rs): the hop limit in front of a payload.
use nng_core.Prelude.{
  ℕ, ◌≤◌, List, length, ltb, leb, ◌==◌, ◌&&◌, if◌then◌else◌, Exec, done, ◌>>=◌, ◌>>◌, assert,
  Result, ok, err,
}
use nng_core.Prelude.Bytes.{to_be_bytes}
use nng_core.Message.Buf.{MessageBuf}
use nng_core.Protocols.Words.{first_word}
use Prim.Native.Nat.{bit_and, bit_or}
pub mod Laws

-- `enum PairError`
pub data PairError : Type 0 where
  ttl_expired : PairError
  message_too_short : PairError

pub record Pair1State : Type 0 where
  pub max_ttl : ℕ

unfoldable pub new : ℕ → Exec Pair1State
new max_ttl = do assert (leb 1 max_ttl && leb max_ttl 15); done (record { max_ttl = max_ttl })

module _ {M : Type 0} ⦃b : MessageBuf M⦄ where
  unfoldable pub attach_ttl : Pair1State → M → Exec M
  attach_ttl s msg = b.header_push_back msg (to_be_bytes 4 (bit_or 0x8000_0000 s.max_ttl))

  -- The word is stripped before the limit is looked at. `as u8` changes nothing below 16.
  unfoldable pub process_incoming : M → Exec (M × Result ℕ PairError)
  process_incoming msg =
      if ltb (length (b.body msg)) 4 then done (msg, err message_too_short) else do
        let raw = first_word (b.body msg)
        msg' ← b.trim_front msg 4
        let ttl = bit_and raw 0x0f
        if ttl == 0 then done (msg', err ttl_expired) else done (msg', ok ttl)
