-- ===== src/Tests/Protocols.antt =====
-- The protocol state machines on given messages.
use nng_core.Prelude.{
  ◌>>=◌, refl, ℕ, ◌+◌, ◌^◌, ◌≡◌, ◌↔◌, arith, List, [], ◌∷◌, ◌++◌, true, false, done, ok, err,
}
use nng_core.Prelude.Bytes.{from_be_bytes}
use nng_core.Message.Heap.{Message, from_parts, message_buf}
use nng_core.Protocols.ReqRep.{exchange, exchange_lem}
use nng_core.Protocols.Req0
use nng_core.Protocols.Req0.{Req0State, id_mismatch}
use nng_core.Protocols.Surveyor0
use nng_core.Protocols.Surveyor0.{Surveyor0State, stale_survey_id}
use nng_core.Protocols.ReqRep.{delivered}
use nng_core.Protocols.Survey.{survey_round, survey_round_lem}
use nng_core.Protocols.Pair1
use nng_core.Protocols.Pair1.{Pair1State, ttl_expired, attach_ttl}
use nng_core.Protocols.Pair1.Laws.{process_incoming-attach_ttl}
use nng_core.Protocols.Sub0.{new, matches}
use nng_core.Protocols.Sub0.Laws.{Op, add, del, run, active, matches-run}

abbrev ping : List ℕ
ping = b'p' ∷ b'i' ∷ []

abbrev pong : List ℕ
pong = b'p' ∷ b'o' ∷ []

exchange_lem_example :
    exchange Req0.new (from_parts [] ping) (from_parts [] pong)
    ≡ done (record { next_id = 2 }, from_parts [] ping, from_parts [] pong, ok tt)
exchange_lem_example = exchange_lem Req0.new ping pong (omega arith)

-- The id 2 ^ 31: the reply is refused.
high_id :
    exchange (record { next_id = 2 ^ 31 }) (from_parts [] ping) (from_parts [] pong)
    ≡ done (
      record { next_id = 2 ^ 31 + 1 },
      from_parts [] ping,
      from_parts [] pong,
      err (id_mismatch 0 (2 ^ 31)),
    )
high_id = exchange_lem (record { next_id = 2 ^ 31 }) ping pong (omega arith)

survey_round_lem_example :
    survey_round Surveyor0.new (from_parts [] ping) [] (from_parts [] pong)
    ≡ done (from_parts [] ping, from_parts [] pong, ok tt)
survey_round_lem_example =
    survey_round_lem Surveyor0.new ping pong [] (omega arith) (omega arith) (omega arith)

-- The surveyor has gone on to its second survey: the answer to the first one is stale.
stale_round :
    survey_round Surveyor0.new (from_parts [] ping) (from_parts [] pong ∷ []) (from_parts [] pong)
    ≡ done (from_parts [] ping, from_parts [] pong, err (stale_survey_id 1 2))
stale_round =
    survey_round_lem Surveyor0.new ping pong (from_parts [] pong ∷ []) (omega arith) (omega arith)
      (omega arith)

-- The word has the low bits 0: expired, though bit 4 is set.
bit_four :
    Pair1.process_incoming (from_parts [] (0x80 ∷ 0 ∷ 0 ∷ 16 ∷ ping))
    ≡ done (from_parts [] ping, err ttl_expired)
unfolding Pair1.process_incoming message_buf nng_core.Message.Heap.trim_front
    nng_core.Message.Heap.drain_front from_be_bytes
bit_four = refl

process_incoming-attach_ttl_example :
    (attach_ttl (record { max_ttl = 8 }) (from_parts [] ping) >>= λ m.
    Pair1.process_incoming (delivered m))
    ≡ done (from_parts [] ping, ok 8)
unfolding Pair1.new
process_incoming-attach_ttl_example =
    process_incoming-attach_ttl 8 (record { max_ttl = 8 }) ping refl

abbrev calls : List Op
calls = add (1 ∷ []) ∷ add (2 ∷ 3 ∷ []) ∷ del (1 ∷ []) ∷ []

matches-run_example : (matches (run new calls) (from_parts [] (2 ∷ 3 ∷ 4 ∷ [])) ≡ true) ↔ (
    (t : List ℕ) × (rest : List ℕ) × (active false calls t ≡ true)
    × (message_buf.body (from_parts [] (2 ∷ 3 ∷ 4 ∷ [])) ≡ t ++ rest))
matches-run_example = matches-run calls (from_parts [] (2 ∷ 3 ∷ 4 ∷ []))
