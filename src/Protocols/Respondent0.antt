-- ===== src/Protocols/Respondent0.antt =====
-- `Respondent0State` (src/protocols/survey.rs): the side that answers. It keeps no state.
use nng_core.Prelude.{ℕ, List, length, take, ltb, if◌then◌else◌, Exec, done, ◌>>=◌, Result, ok, err}
use nng_core.Message.Buf.{MessageBuf}
use nng_core.Protocols.Surveyor0.{SurveyError, message_too_short}

-- `SurveyRoutingInfo(pub [u8; 4])`
abbrev pub SurveyRoutingInfo : Type 0
SurveyRoutingInfo = List ℕ

module _ {M : Type 0} ⦃b : MessageBuf M⦄ where
  unfoldable pub process_incoming : M → Exec (M × Result SurveyRoutingInfo SurveyError)
  process_incoming msg =
      if ltb (length (b.body msg)) 4 then done (msg, err message_too_short) else do
        let id_bytes = take 4 (b.body msg)
        msg' ← b.trim_front msg 4
        done (msg', ok id_bytes)

  unfoldable pub prepare_response : M → SurveyRoutingInfo → Exec M
  prepare_response msg routing = b.header_push_back msg routing
