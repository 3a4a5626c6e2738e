-- ===== src/Protocols/Rep0.antt =====
-- `Rep0State` (src/protocols/reqrep.rs): the server's side. It keeps no state between requests.
use nng_core.Prelude.{ℕ, List, length, take, ltb, if◌then◌else◌, Exec, done, ◌>>=◌, Result, ok, err}
use nng_core.Message.Buf.{MessageBuf}
use nng_core.Protocols.Req0.{ReqRepError, message_too_short}

-- `RoutingInfo(pub [u8; 4])`
abbrev pub RoutingInfo : Type 0
RoutingInfo = List ℕ

module _ {M : Type 0} ⦃b : MessageBuf M⦄ where
  unfoldable pub process_incoming : M → Exec (M × Result RoutingInfo ReqRepError)
  process_incoming msg =
      if ltb (length (b.body msg)) 4 then done (msg, err message_too_short) else do
        let id_bytes = take 4 (b.body msg)
        msg' ← b.trim_front msg 4
        done (msg', ok id_bytes)

  unfoldable pub prepare_reply : M → RoutingInfo → Exec M
  prepare_reply msg routing = b.header_push_back msg routing
