-- ===== src/Protocols/Surveyor0.antt =====
-- `Surveyor0State` (src/protocols/survey.rs): the side that asks.
use nng_core.Prelude.{ℕ, length, ltb, ◌==◌, if◌then◌else◌, Exec, done, ◌>>=◌, Result, ok, err}
use nng_core.Prelude.Bytes.{to_be_bytes}
use nng_core.Message.Buf.{MessageBuf}
use nng_core.Protocols.Words.{next_id_after, first_word}

-- `enum SurveyError`; the fields of `stale_survey_id` are `got` and `expected`.
pub data SurveyError : Type 0 where
  stale_survey_id : ℕ → ℕ → SurveyError
  message_too_short : SurveyError

pub record Surveyor0State : Type 0 where
  pub next_id : ℕ
  pub current_id : ℕ

abbrev pub new : Surveyor0State
new = record { next_id = 1; current_id = 0 }

module _ {M : Type 0} ⦃b : MessageBuf M⦄ where
  unfoldable pub prepare_survey : Surveyor0State → M → Exec (Surveyor0State × M × ℕ)
  prepare_survey s msg = do
    let id = s.next_id
    msg' ← b.header_push_back msg (to_be_bytes 4 id)
    done (record { next_id = next_id_after id; current_id = id }, msg', id)

  unfoldable pub process_response : Surveyor0State → M → Exec (M × Result (Unit {0}) SurveyError)
  process_response s msg =
      if ltb (length (b.body msg)) 4 then done (msg, err message_too_short) else do
        let id = first_word (b.body msg)
        msg' ← b.trim_front msg 4
        if id == s.current_id
            then done (msg', ok tt)
            else done (msg', err (stale_survey_id id s.current_id))
