-- ===== src/Transport/Ws.antt =====
-- `WsTransport` (src/transport/ws.rs): one binary WebSocket message for each SP message. The
-- WebSocket streams and the HTTP upgrade are the library's (tokio-tungstenite), and parameters.
pub mod Upgrade
pub mod Laws
use nng_core.Prelude.{ℕ, zero, suc, List, ◌++◌, Option, none, some, Result, ok, err, map_err}
use nng_core.Message.Heap
use nng_core.Message.Heap.{Message}
use Prim.Native.String.{String}

-- `tungstenite::Message`
pub data WsMessage : Type 0 where
  text : String → WsMessage
  binary : List ℕ → WsMessage
  ping : List ℕ → WsMessage
  pong : List ℕ → WsMessage
  close : WsMessage
  frame : List ℕ → WsMessage

-- The errors of the library are their texts.
pub data WsError : Type 0 where
  tungstenite : String → WsError
  subprotocol_mismatch : (expected got : String) → WsError
  invalid_header : String → WsError
  closed : WsError
  tls : String → WsError

-- `WebSocketStream`, as a `Sink` and as a `Stream` of messages.
pub record WsStream (W : Type 0) : Type 0 where
  pub send : W → WsMessage → Result (Unit {0}) String × W
  pub next : W → Option (Result WsMessage String) × W

-- A dialled stream, an accepted one, and one accepted through TLS.
pub data WsInner (D A T : Type 0) : Type 0 where
  dial : D → WsInner D A T
  accept : A → WsInner D A T
  accept_tls : T → WsInner D A T

-- A loop that ends with a result, or that was still running when its fuel was spent.
pub data Looped (A : Type 0) : Type 0 where
  ends : A → Looped A
  loops_on : Looped A

-- What `recv` does with an item: it returns, or skips it (`none`).
unfoldable pub classify : Option (Result WsMessage String) → Option (Result Message WsError)
classify (some (ok (binary bytes))) = some (ok (Heap.push_back Heap.new bytes))
classify (some (ok close)) = some (err closed)
classify none = some (err closed)
classify (some (ok (text s))) = none
classify (some (ok (ping b))) = none
classify (some (ok (pong b))) = none
classify (some (ok (frame b))) = none
classify (some (err e)) = some (err (tungstenite e))

module _ {D A T : Type 0} ⦃wd : WsStream D⦄ ⦃wa : WsStream A⦄ ⦃wt : WsStream T⦄ where
  unfoldable pub send_inner : WsInner D A T → WsMessage → Result (Unit {0}) String × WsInner D A T
  send_inner (dial ws) m = let (r, ws') = wd.send ws m in (r, dial ws')
  send_inner (accept ws) m = let (r, ws') = wa.send ws m in (r, accept ws')
  send_inner (accept_tls ws) m = let (r, ws') = wt.send ws m in (r, accept_tls ws')

  unfoldable pub next_inner : WsInner D A T → Option (Result WsMessage String) × WsInner D A T
  next_inner (dial ws) = let (i, ws') = wd.next ws in (i, dial ws')
  next_inner (accept ws) = let (i, ws') = wa.next ws in (i, accept ws')
  next_inner (accept_tls ws) = let (i, ws') = wt.next ws in (i, accept_tls ws')

  unfoldable pub send : WsInner D A T → Message → Result (Unit {0}) WsError × WsInner D A T
  send inner msg =
      let (r, inner') = send_inner inner (binary (msg.header ++ msg.body)) in
      (map_err tungstenite r, inner')

  unfoldable pub after_item :
      (WsInner D A T → Looped (Result Message WsError) × WsInner D A T)
      → Option (Result Message WsError)
      → WsInner D A T
      → Looped (Result Message WsError) × WsInner D A T
  after_item again (some r) inner = (ends r, inner)
  after_item again none inner = again inner

  -- `loop { match next { … } }`, with fuel for the items that are skipped.
  unfoldable pub recv : ℕ → WsInner D A T → Looped (Result Message WsError) × WsInner D A T
  recv zero inner = (loops_on, inner)
  recv (suc fuel) inner =
      let (item, inner') = next_inner inner in after_item (recv fuel) (classify item) inner'
