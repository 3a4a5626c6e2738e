-- ===== src/Protocols/Req0/Laws.antt =====
-- The ids that `prepare_outgoing` gives out, and what `process_incoming` does on every branch.
use nng_core.Prelude.{
  ◌^◌, dec_lt, ltb_of_le, ◌==◌, if◌then◌else◌, ℕ, ◌≤◌, ◌<◌, ◌≡◌, ◌≢◌, arith, List, ◌++◌, length,
  drop, done, ok, err,
}
use nng_core.Prelude.Bytes.{to_be_bytes, length-to_be_bytes}
use nng_core.Message.Buf.{MessageBuf, IsLawful}
use nng_core.Protocols.Words.{
  IsU32, next_id_after, set_end_of_path, strip_end_of_path, strip_end_of_path_lem, first_word,
}
use nng_core.Protocols.Req0.{
  id_mismatch, message_too_short, Req0State, prepare_outgoing, process_incoming,
}

pub record IsValid (s : Req0State) : Type 0 where
  pub pos : 1 ≤ s.next_id
  pub u32 : IsU32 s.next_id

module _ {M : Type 0} ⦃b : MessageBuf M⦄ (l : IsLawful b) (msg : M) (v : l.IsValid msg) where
  pub prepare_outgoing_lem :
      (s : Req0State)
      → l.HasHeaderRoom msg 4
      → (msg' : M) × (prepare_outgoing s msg
          ≡ done (record { next_id = next_id_after s.next_id }, msg', s.next_id))
        × l.IsValid msg'
        × (b.header msg' ≡ b.header msg ++ to_be_bytes 4 (set_end_of_path s.next_id))
        × (b.body msg' ≡ b.body msg)
  unfolding prepare_outgoing
  prepare_outgoing_lem s room =
      let (msg', e, v', h, d) =
        l.header_push_back_lem msg (word s) v
          (rw (length-to_be_bytes 4 (set_end_of_path s.next_id)) room) in
      (msg', rw e, v', h, d)
    where
      word : Req0State → List ℕ
      word s = to_be_bytes 4 (set_end_of_path s.next_id)

  pub process_incoming_short :
      (id : ℕ)
      → length (b.body msg) < 4
      → process_incoming msg id ≡ done (msg, err message_too_short)
  unfolding process_incoming
  process_incoming_short id h = ground arith

  -- With four bytes at least, the word and the answer are decided by the id on the wire.
  pub process_incoming_lem :
      (sent_id : ℕ)
      → 4 ≤ length (b.body msg)
      → let id = strip_end_of_path (first_word (b.body msg)) in
        (msg' : M) × (process_incoming msg sent_id
          ≡ done (msg', if id == sent_id then ok tt else err (id_mismatch id sent_id)))
        × l.IsValid msg'
        × (b.header msg' ≡ b.header msg)
        × (b.body msg' ≡ drop 4 (b.body msg))
  unfolding process_incoming
  process_incoming_lem sent_id h =
      let (msg', e, v', eh, ed) = l.trim_front_lem msg 4 v h in
      (msg', rw (ltb_of_le _ _ h, e) (ground arith), v', eh, ed)

  -- For any lawful message type and valid message, process_incoming never accepts a message for a
  -- request id of 2^31 or more.
  pub process_incoming_high :
      (sent_id : ℕ) (msg' : M)
      → 2 ^ 31 ≤ sent_id
      → process_incoming msg sent_id ≢ done (msg', ok tt)
  process_incoming_high sent_id msg' high e = elim (dec_lt (length (b.body msg)) 4) [
    | yes short ↦ cc (process_incoming_short sent_id short)
    | no long ↦
        let (m, r, _, _, _) = process_incoming_lem sent_id (omega arith) in
        ground (arith, r, strip_end_of_path_lem (first_word (b.body msg)))
  ]
