-- ===== src/Socket/Request/Laws.antt =====
-- The loops of `request` against a relation of their steps, and what they can return.
use nng_core.Prelude.{
  ℕ, zero, suc, ◌^◌, ◌%◌, ◌≤◌, ◌==◌, ==_iff, ==_of_ne, ℕ_discrete, dec_lt, ltb_of_le, length, drop,
  sym, if◌then◌else◌, ◌≡◌, ◌≢◌, ◌↔◌, refl, arith, Option, none, some, done, Result, ok, err,
}
use nng_core.Message.Heap.{Message, message_buf, header_push_back, from_parts}
use nng_core.Message.Heap.Laws.{message-IsLawful, trim_front_ok}
use nng_core.Prelude.Bytes.{to_be_bytes}
use nng_core.Protocols.Words.{set_end_of_path, first_word, strip_end_of_path_lem}
use nng_core.Protocols.Req0.Laws.{process_incoming_short}
use nng_core.Protocols.Req0
use nng_core.Protocols.Req0.{ReqRepError, id_mismatch, message_too_short, Req0State}
use nng_core.Socket.Error.{NngError}
use nng_core.Socket.Request.{
  Inner, Phase, sending, waiting, returns, after_send, after_process, after_recv, request_loop,
  request,
}

-- The id of a raw reply, without the bit that ends the path.
abbrev pub reply_id : Message → ℕ
reply_id raw = first_word raw.body % 2 ^ 31

-- What `process_incoming` does with a reply that has an id.
process_incoming_long :
    (raw : Message) (sent_id : ℕ)
    → 4 ≤ length raw.body
    → Req0.process_incoming raw sent_id
      ≡ done (
        from_parts raw.header (drop 4 raw.body),
        if reply_id raw == sent_id then ok tt else err (id_mismatch (reply_id raw) sent_id),
      )
unfolding Req0.process_incoming message_buf
process_incoming_long raw sent_id h =
    rw
      (
        ltb_of_le (length raw.body) 4 h,
        trim_front_ok raw 4 h,
        strip_end_of_path_lem (first_word raw.body),
      )
      (ground arith)

process_incoming_same :
    (raw : Message)
    → 4 ≤ length raw.body
    → Req0.process_incoming raw (reply_id raw)
      ≡ done (from_parts raw.header (drop 4 raw.body), ok tt)
process_incoming_same raw h =
    rw (process_incoming_long raw (reply_id raw) h, (==_iff (reply_id raw) (reply_id raw)).1 refl)
      refl

process_incoming_other :
    (raw : Message) (sent_id : ℕ)
    → 4 ≤ length raw.body
    → reply_id raw ≢ sent_id
    → Req0.process_incoming raw sent_id
      ≡ done (from_parts raw.header (drop 4 raw.body), err (id_mismatch (reply_id raw) sent_id))
process_incoming_other raw sent_id h other =
    rw (process_incoming_long raw sent_id h, ==_of_ne (reply_id raw) sent_id other) refl

module _ {I : Type 0} ⦃inner : Inner I⦄ (outgoing : Message) (sent_id : ℕ) where
  -- From a phase and a socket, `n` steps lead to this reply: each one sends the same message,
  -- goes back to sending it after a timeout, skips a reply with another id, or takes one with this
  -- id.
  pub data Gets (reply : Message) : ℕ → Phase → I → Type 0 where
    sends :
        (n : ℕ) (i : I)
        → (inner.send_raw i outgoing).0 ≡ ok tt
        → Gets reply n waiting (inner.send_raw i outgoing).1
        → Gets reply (suc n) sending i
    times_out :
        (n : ℕ) (i : I)
        → (inner.recv_raw i).0 ≡ none
        → Gets reply n sending (inner.recv_raw i).1
        → Gets reply (suc n) waiting i
    skips :
        (n : ℕ) (i : I) (raw : Message)
        → (inner.recv_raw i).0 ≡ some (ok raw)
        → 4 ≤ length raw.body
        → reply_id raw ≢ sent_id
        → Gets reply n waiting (inner.recv_raw i).1
        → Gets reply (suc n) waiting i
    takes :
        (i : I) (raw : Message)
        → (inner.recv_raw i).0 ≡ some (ok raw)
        → 4 ≤ length raw.body
        → reply_id raw ≡ sent_id
        → from_parts raw.header (drop 4 raw.body) ≡ reply
        → Gets reply 1 waiting i

  -- The steps are followed by the loops, if the fuel is enough.
  loop_follows :
      (reply : Message) (n fuel : ℕ) (phase : Phase) (i : I)
      → Gets reply n phase i
      → n ≤ fuel
      → (request_loop outgoing sent_id fuel phase i).0 ≡ returns (ok reply)
  unfolding request_loop after_send after_recv after_process
  loop_follows reply _ zero _ _ (sends n i e g) h = absurd (omega arith)
  loop_follows reply _ zero _ _ (times_out n i e g) h = absurd (omega arith)
  loop_follows reply _ zero _ _ (skips n i raw e four p g) h = absurd (omega arith)
  loop_follows reply _ zero _ _ (takes i raw e four p q) h = absurd (omega arith)
  loop_follows reply _ (suc fuel) _ _ (sends n i e g) h =
      rw (e) (loop_follows reply n fuel waiting _ g (omega arith))
  loop_follows reply _ (suc fuel) _ _ (times_out n i e g) h =
      rw (e) (loop_follows reply n fuel sending _ g (omega arith))
  loop_follows reply _ (suc fuel) _ _ (skips n i raw e four p g) h =
      rw (e, process_incoming_other raw sent_id four p)
        (loop_follows reply n fuel waiting _ g (omega arith))
  loop_follows reply _ (suc fuel) _ _ (takes i raw e four p q) h =
      rw (e, sym p, process_incoming_same raw four, q) refl

  -- What a reply of the loops came from, by the outcome of the round.
  abbrev Got : Message → ℕ → Phase → I → Type 0
  Got reply fuel phase i = (n : ℕ) × (n ≤ fuel) × Gets reply n phase i

  module _ (reply : Message) (fuel : ℕ)
      (rec : (phase : Phase) (i : I)
        → (request_loop outgoing sent_id fuel phase i).0 ≡ returns (ok reply)
        → Got reply fuel phase i) where
    after_send-Got :
        (i : I) (r : Result (Unit {0}) NngError)
        → (inner.send_raw i outgoing).0 ≡ r
        → (after_send outgoing sent_id
            (request_loop outgoing sent_id fuel)
            r
            (inner.send_raw i outgoing).1).0
          ≡ returns (ok reply)
        → Got reply (suc fuel) sending i
    unfolding after_send
    after_send-Got i (ok _) e h =
        let (n, le, g) = rec waiting _ h in (suc n, omega arith, sends n i e g)
    after_send-Got i (err x) e h = cc

    after_process-Got :
        (i : I) (raw : Message)
        → (inner.recv_raw i).0 ≡ some (ok raw)
        → (after_process outgoing sent_id
            (request_loop outgoing sent_id fuel)
            (Req0.process_incoming raw sent_id)
            (inner.recv_raw i).1).0
          ≡ returns (ok reply)
        → Got reply (suc fuel) waiting i
    unfolding after_process message-IsLawful
    after_process-Got i raw e h = elim (dec_lt (length raw.body) 4) [
      | yes short ↦ cc (rw (process_incoming_short message-IsLawful raw tt sent_id short) at h)
      | no long ↦ elim (ℕ_discrete (reply_id raw) sent_id) [
        | yes same ↦ (
          1,
          omega arith,
          takes i raw e (omega arith) same
              (ground (arith, process_incoming_same raw (omega arith), same, h)),
        )
        | no other ↦
            let (n, le, g) =
              rec waiting _ (rw (process_incoming_other raw sent_id (omega arith) other) at h) in
            (suc n, omega arith, skips n i raw e (omega arith) other g)
      ]
    ]

    after_recv-Got :
        (i : I) (r : Option (Result Message NngError))
        → (inner.recv_raw i).0 ≡ r
        → (after_recv outgoing sent_id
            (request_loop outgoing sent_id fuel)
            r
            (inner.recv_raw i).1).0
          ≡ returns (ok reply)
        → Got reply (suc fuel) waiting i
    unfolding after_recv
    after_recv-Got i (some (ok raw)) e h = after_process-Got i raw e h
    after_recv-Got i (some (err x)) e h = cc
    after_recv-Got i none e h =
        let (n, le, g) = rec sending _ h in (suc n, omega arith, times_out n i e g)

  loop_came :
      (reply : Message) (fuel : ℕ) (phase : Phase) (i : I)
      → (request_loop outgoing sent_id fuel phase i).0 ≡ returns (ok reply)
      → Got reply fuel phase i
  unfolding request_loop
  loop_came reply zero phase i h = cc
  loop_came reply (suc fuel) sending i h =
      after_send-Got reply fuel (loop_came reply fuel) i _ refl h
  loop_came reply (suc fuel) waiting i h =
      after_recv-Got reply fuel (loop_came reply fuel) i _ refl h

  -- With some fuel the loops of Req0::request return a reply exactly when a run of steps gets it:
  -- the same message is sent, again after each timeout; a raw reply of four bytes at least whose
  -- first word, without its top bit, is another id is skipped; and the first one where it is this
  -- id is returned, without these four bytes.
  pub request_loop_iff :
      (reply : Message) (phase : Phase) (i : I)
      → ((fuel : ℕ) × ((request_loop outgoing sent_id fuel phase i).0 ≡ returns (ok reply)))
        ↔ ((n : ℕ) × Gets reply n phase i)
  request_loop_iff reply phase i = (
    λ (fuel, h). let (n, _, g) = loop_came reply fuel phase i h in (n, g),
    λ (n, g). (n, loop_follows reply n n phase i g (omega arith)),
  )

  -- No step takes a reply if the id has the top bit.
  Gets-low :
      (reply : Message) (n : ℕ) (phase : Phase) (i : I)
      → 2 ^ 31 ≤ sent_id
      → Gets reply n phase i
      → ⊥
  Gets-low reply _ _ _ h (sends n i e g) = Gets-low reply n waiting _ h g
  Gets-low reply _ _ _ h (times_out n i e g) = Gets-low reply n sending _ h g
  Gets-low reply _ _ _ h (skips n i raw e four p g) = Gets-low reply n waiting _ h g
  Gets-low reply _ _ _ h (takes i raw e four p q) = omega (arith, p)

-- When the next id is 2^31 or more, request returns no reply, whatever the socket delivers and for
-- any fuel.
pub request-high :
    {I : Type 0} ⦃inner : Inner I⦄ (fuel : ℕ) (s s' : Req0State) (msg reply : Message) (i i' : I)
    → 2 ^ 31 ≤ s.next_id
    → request fuel s msg i ≢ done (s', returns (ok reply), i')
unfolding request Req0.prepare_outgoing message_buf
request-high fuel s s' msg reply i i' h e =
    let outgoing = header_push_back msg (to_be_bytes 4 (set_end_of_path s.next_id)) in
    let (n, g) = (request_loop_iff outgoing s.next_id reply sending i).0 (fuel, ground arith) in
    Gets-low outgoing s.next_id reply n sending i h g
