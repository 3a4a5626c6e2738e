-- ===== src/Socket/Survey/Answers.antt =====
-- What an answer to a survey is, and what `process_response` does on every branch.
use nng_core.Prelude.{
  ℕ, zero, suc, ◌+◌, ◌≤◌, ◌<◌, ◌≡◌, refl, arith, List, [], ◌∷◌, All, All-append, All-take, All-drop,
  length, length-append, length-take, length-drop, take, drop, Bool, Option, some, get_elem?,
  if◌then◌else◌, lt→ltb, ltb_of_le, ◌==◌, done, Result, ok, err,
}
use nng_core.Message.Heap.{Message, message_buf, from_parts}
use nng_core.Message.Heap.Laws.{trim_front_ok}
use nng_core.Protocols.Words.{first_word}
use nng_core.Protocols.Surveyor0
use nng_core.Protocols.Surveyor0.{SurveyError, message_too_short, stale_survey_id, Surveyor0State}
use nng_core.Socket.Error.{NngError}
use nng_core.Socket.FanOut.{set}
use nng_core.Prelude.Last.{IsIn}

module _ {T : Type 0} (send : T → Message → Bool × T)
    (poll : T → Option (Result Message NngError) × T) where
  -- A respondent as it is after this message was sent to it and it was polled some times.
  pub data Reached (outgoing : Message) (ts : List T) : T → Type 0 where
    asked : (t : T) → IsIn t ts → Reached outgoing ts (send t outgoing).1
    polled : (t : T) → Reached outgoing ts t → Reached outgoing ts (poll t).1

  -- A poll of a transport as `P` says gave a raw message of four bytes at least whose first word is
  -- the id; the response is this message without these bytes.
  pub record IsAnswer (P : T → Type 0) (id : ℕ) (response : Message) : Type 0 where
    pub respondent : T
    pub is_respondent : P respondent
    pub raw : Message
    pub gave : (poll respondent).0 ≡ some (ok raw)
    pub long : 4 ≤ length raw.body
    pub carries : first_word raw.body ≡ id
    pub stripped : response ≡ from_parts raw.header (drop 4 raw.body)

pub get_elem_in :
    {T : Type 0} (P : T → Type 0) (ts : List T) (i : ℕ)
    → i < length ts
    → All P ts
    → (t : T) × (get_elem? ts i ≡ some t) × P t
get_elem_in P [] i h a = absurd (omega arith)
get_elem_in P (t ∷ ts) zero h a = (t, refl, a.0)
get_elem_in P (t ∷ ts) (suc i) h a = get_elem_in P ts i (omega arith) a.1

pub set-All :
    {T : Type 0} (P : T → Type 0) (ts : List T) (i : ℕ) (t : T)
    → All P ts
    → P t
    → All P (set ts i t)
unfolding set
set-All P ts i t a p =
    All-append P (take i ts) (t ∷ drop (i + 1) ts) (All-take P i ts a) (p, All-drop P (i + 1) ts a)

pub length-set :
    {T : Type 0} (ts : List T) (i : ℕ) (t : T) → i < length ts → length (set ts i t) ≡ length ts
unfolding set
length-set ts i t h = omega (
  arith,
  length-append (take i ts) (t ∷ drop (i + 1) ts),
  length-take i ts,
  length-drop (i + 1) ts,
)

pub process_response_short :
    (s : Surveyor0State) (raw : Message)
    → length raw.body < 4
    → Surveyor0.process_response s raw ≡ done (raw, err message_too_short)
unfolding Surveyor0.process_response message_buf
process_response_short s raw h = rw (lt→ltb (length raw.body) 4 h) refl

pub process_response_long :
    (s : Surveyor0State) (raw : Message)
    → 4 ≤ length raw.body
    → Surveyor0.process_response s raw
      ≡ done (
        from_parts raw.header (drop 4 raw.body),
        if first_word raw.body == s.current_id
            then ok tt
            else err (stale_survey_id (first_word raw.body) s.current_id),
      )
unfolding Surveyor0.process_response message_buf
process_response_long s raw h =
    rw (ltb_of_le (length raw.body) 4 h, trim_front_ok raw 4 h) (ground arith)
