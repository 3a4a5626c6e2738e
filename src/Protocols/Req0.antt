-- ===== src/Protocols/Req0.antt =====
-- `Req0State` (src/protocols/reqrep.rs): the client's side of request and reply.
pub mod Laws
pub mod Ids
use nng_core.Prelude.{
  ℕ, List, length, ltb, ◌==◌, if◌then◌else◌, Exec, done, panic, ◌>>=◌, Result, ok, err,
}
use nng_core.Prelude.Bytes.{to_be_bytes}
use nng_core.Message.Buf.{MessageBuf}
use nng_core.Protocols.Words.{next_id_after, set_end_of_path, strip_end_of_path, first_word}

-- `enum ReqRepError`; the fields of `id_mismatch` are `got` and `expected`.
pub data ReqRepError : Type 0 where
  id_mismatch : ℕ → ℕ → ReqRepError
  message_too_short : ReqRepError

pub record Req0State : Type 0 where
  pub next_id : ℕ

abbrev pub new : Req0State
new = record { next_id = 1 }

module _ {M : Type 0} ⦃b : MessageBuf M⦄ where
  -- Returns the new state, the stamped message and the id.
  unfoldable pub prepare_outgoing : Req0State → M → Exec (Req0State × M × ℕ)
  prepare_outgoing s msg = do
    let id = s.next_id
    msg' ← b.header_push_back msg (to_be_bytes 4 (set_end_of_path id))
    done (record { next_id = next_id_after id }, msg', id)

  -- `&self` is not read. The message is changed also where the id does not match.
  unfoldable pub process_incoming : M → ℕ → Exec (M × Result (Unit {0}) ReqRepError)
  process_incoming msg sent_id =
      if ltb (length (b.body msg)) 4 then done (msg, err message_too_short) else do
        let wire_id = first_word (b.body msg)
        msg' ← b.trim_front msg 4
        let id = strip_end_of_path wire_id
        if id == sent_id then done (msg', ok tt) else done (msg', err (id_mismatch id sent_id))
