-- ===== src/Protocols/ReqRep.antt =====
-- A request and its reply through both machines (src/protocols/reqrep.rs). What the transport
-- delivers is a message with no header whose body is the sender's header and body
-- (`FramedTransport::send` and `recv`, or `encode_frame` and `decode_frame`).
use nng_core.Prelude.{
  ℕ, ◌-◌, ◌^◌, ◌≤◌, ◌≡◌, arith, List, [], ◌++◌, length, length-append, ltb_of_le, take-append,
  drop-append, ltb, ◌==◌, if◌then◌else◌, Exec, done, ◌>>=◌, Result, ok, err,
}
use nng_core.Prelude.Bytes.{
  from_be_bytes, from_be_bytes-to_be_bytes, to_be_bytes, length-to_be_bytes,
}
use nng_core.Message.Heap.{Message, message_buf, from_parts, header_push_back}
use nng_core.Message.Heap.Laws.{trim_front_ok}
use nng_core.Codec.Frame.Laws.{payload}
use nng_core.Protocols.Words.{
  IsU32, next_id_after, set_end_of_path, set_end_of_path_lem, strip_end_of_path,
  strip_end_of_path-set_end_of_path,
}
use nng_core.Protocols.Req0
use nng_core.Protocols.Rep0
use nng_core.Protocols.Req0.{ReqRepError, id_mismatch, Req0State}

-- The message that the other end receives.
abbrev pub delivered : Message → Message
delivered m = from_parts [] (payload m)

-- Both machines on a message whose body starts with a word of four bytes.
module _ (word rest h : List ℕ) (e : length word ≡ 4) where
  long : 4 ≤ length (word ++ rest)
  long = omega (arith, length-append word rest)

  pub rep_strips :
      Rep0.process_incoming (from_parts h (word ++ rest)) ≡ done (from_parts h rest, ok word)
  unfolding Rep0.process_incoming message_buf
  rep_strips = rw (
    ltb_of_le (length (word ++ rest)) 4 long,
    trim_front_ok (from_parts h (word ++ rest)) 4 long,
    drop-append 4 word rest e,
    take-append 4 word rest e,
  )

  req_strips :
      (sent_id : ℕ)
      → Req0.process_incoming (from_parts h (word ++ rest)) sent_id
        ≡ done (
          from_parts h rest,
          if strip_end_of_path (from_be_bytes word) == sent_id
              then ok tt
              else err (id_mismatch (strip_end_of_path (from_be_bytes word)) sent_id),
        )
  unfolding Req0.process_incoming message_buf
  req_strips sent_id =
      rw
        (
          ltb_of_le (length (word ++ rest)) 4 long,
          trim_front_ok (from_parts h (word ++ rest)) 4 long,
          drop-append 4 word rest e,
          take-append 4 word rest e,
        )
        (ground arith)

-- The server's side of a request: strip it, and stamp `reply` with the routing found.
unfoldable pub serve : Message → Message → Exec (Message × Result Message ReqRepError)
serve request reply = do
  (seen, routing) ← Rep0.process_incoming request
  elim routing [
    | ok r ↦ Rep0.prepare_reply reply r >>= λ stamped. done (seen, ok stamped)
    | err e ↦ done (seen, err e)
  ]

-- One exchange: stamp the query, serve it, take the reply in. Returns the client's new state, the
-- query as the server saw it, the reply as the client saw it, and the client's verdict.
unfoldable pub exchange :
    Req0State
    → Message
    → Message
    → Exec (Req0State × Message × Message × Result (Unit {0}) ReqRepError)
unfolding serve
exchange s query reply = do
  (s', stamped, id) ← Req0.prepare_outgoing s query
  (seen, answer) ← serve (delivered stamped) reply
  elim answer [
    | ok r ↦
        Req0.process_incoming (delivered r) id >>= λ (got, verdict). done (s', seen, got, verdict)
    | err e ↦ done (s', seen, stamped, err e)
  ]

-- A request from a state whose id is a u32 and its reply over a faithful transport: both bodies
-- arrive, and the client accepts the reply if the id is below 2^31 and rejects it with IdMismatch
-- from there on.
pub exchange_lem :
    (s : Req0State) (query reply : List ℕ)
    → IsU32 s.next_id
    → exchange s (from_parts [] query) (from_parts [] reply)
      ≡ done (
        record { next_id = next_id_after s.next_id },
        from_parts [] query,
        from_parts [] reply,
        if ltb s.next_id (2 ^ 31) then ok tt else err (id_mismatch (s.next_id - 2 ^ 31) s.next_id),
      )
unfolding exchange Req0.prepare_outgoing message_buf header_push_back Rep0.prepare_reply
exchange_lem s query reply h =
    rw
      (
        rep_strips word query [] four,
        req_strips word reply [] four s.next_id,
        from_be_bytes-to_be_bytes 4 (set_end_of_path s.next_id)
            (omega (arith, set_end_of_path_lem s.next_id h)),
        strip_end_of_path-set_end_of_path s.next_id h,
      )
      (ground arith)
  where
    word : List ℕ
    word = to_be_bytes 4 (set_end_of_path s.next_id)

    four : length word ≡ 4
    four = length-to_be_bytes 4 (set_end_of_path s.next_id)
