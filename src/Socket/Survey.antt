-- ===== src/Socket/Survey.antt =====
-- `Surveyor0::survey_with_timeout` (src/socket/survey0.rs): send a survey to every respondent, poll
-- those that are pending until each answered or the deadline is over.
pub mod Laws
pub mod Sends
pub mod Answers
use nng_core.Prelude.{
  ℕ, zero, suc, ◌+◌, List, [], ◌∷◌, ◌++◌, Bool, Option, none, some, get_elem?, if◌then◌else◌, Exec,
  done, panic, ◌>>=◌, Result, ok, err,
}
use nng_core.Message.Heap.{Message, message_buf}
use nng_core.Protocols.Surveyor0
use nng_core.Protocols.Surveyor0.{Surveyor0State}
use nng_core.Socket.Error.{NngError}
use nng_core.Socket.FanOut.{set}

-- A respondent's transport: `send` gives whether it was `ok`; `poll` is one poll of `recv`, with
-- `none` for pending.
module _ {T : Type 0} (send : T → Message → Bool × T)
    (poll : T → Option (Result Message NngError) × T) where
  -- The respondents from index `i` on, after the send, and the indices of those to wait for.
  unfoldable pub send_survey : ℕ → Message → List T → List T × List ℕ
  send_survey i outgoing [] = ([], [])
  send_survey i outgoing (t ∷ ts) =
      let (is_ok, t') = send t outgoing in
      let (ts', pending) = send_survey (i + 1) outgoing ts in
      (t' ∷ ts', if is_ok then i ∷ pending else pending)

  module _ (s : Surveyor0State) where
    -- What one poll adds to `still_pending` and to `responses`. An answer that is refused adds
    -- nothing, and its respondent is not polled again.
    unfoldable pub after_poll : ℕ → Option (Result Message NngError) → Exec (List ℕ × List Message)
    after_poll i none = done (i ∷ [], [])
    after_poll i (some (err e)) = done ([], [])
    after_poll i (some (ok raw)) = do
      (response, verdict) ← Surveyor0.process_response s raw
      elim verdict [ ok _ ↦ done ([], response ∷ []) | err _ ↦ done ([], []) ]

    -- `&mut self.respondents[i]`; out of range it panics.
    unfoldable pub poll_at : ℕ → Option T → List T → Exec (List T × List ℕ × List Message)
    poll_at i none ts = panic
    poll_at i (some t) ts = do
      let (r, t') = poll t
      (still, got) ← after_poll i r
      done (set ts i t', still, got)

    -- One pass over the pending respondents.
    unfoldable pub poll_pending : List ℕ → List T → Exec (List T × List ℕ × List Message)
    poll_pending [] ts = done (ts, [], [])
    poll_pending (i ∷ pending) ts = do
      (ts', still, got) ← poll_at i (get_elem? ts i) ts
      (ts'', still', got') ← poll_pending pending ts'
      done (ts'', still ++ still', got ++ got')

    -- As many passes as there is time for before the deadline.
    unfoldable pub collect : ℕ → List ℕ → List T → Exec (List T × List Message)
    collect passes [] ts = done (ts, [])
    collect zero (i ∷ pending) ts = done (ts, [])
    collect (suc passes) (i ∷ pending) ts = do
      (ts', still, got) ← poll_pending (i ∷ pending) ts
      (ts'', got') ← collect passes still ts'
      done (ts'', got ++ got')

  -- Returns the state, the respondents and the responses.
  unfoldable pub survey_with_timeout :
      ℕ → Surveyor0State → Message → List T → Exec (Surveyor0State × List T × List Message)
  survey_with_timeout passes s msg ts = do
    (s', outgoing, _) ← Surveyor0.prepare_survey s msg
    let (ts', pending) = send_survey 0 outgoing ts
    (ts'', responses) ← collect s' passes pending ts'
    done (s', ts'', responses)
