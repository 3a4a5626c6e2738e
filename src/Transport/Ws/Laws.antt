-- ===== src/Transport/Ws/Laws.antt =====
-- What `recv` returns, whatever control frames and texts come first.
use nng_core.Prelude.{
  ℕ, zero, suc, ◌<◌, ◌≡◌, refl, ap, sym, arith, List, [], ◌∷◌, All, length, Option, none, some,
  Result, ok, err,
}
use nng_core.Message.Heap
use nng_core.Message.Heap.{Message}
use nng_core.Transport.Ws.{
  WsMessage, text, binary, ping, pong, close, frame, WsError, closed, tungstenite, WsStream,
  WsInner, ends, classify, next_inner, after_item, recv,
}
use Prim.Native.String.{String}

-- A message that `recv` is to skip: no data and not the end.
abbrev pub IsSkipped : WsMessage → Type 0
IsSkipped (text s) = Unit {0}
IsSkipped (binary b) = ⊥
IsSkipped (ping b) = Unit {0}
IsSkipped (pong b) = Unit {0}
IsSkipped close = ⊥
IsSkipped (frame b) = Unit {0}

-- What the first item that is not skipped makes `recv` return.
abbrev pub Settled : Option (Result WsMessage String) → Result Message WsError → Type 0
Settled none r = r ≡ err closed
Settled (some (err e)) r = r ≡ err (tungstenite e)
Settled (some (ok close)) r = r ≡ err closed
Settled (some (ok (binary b))) r = r ≡ ok (Heap.from_parts [] b)
Settled (some (ok (text s))) r = ⊥
Settled (some (ok (ping b))) r = ⊥
Settled (some (ok (pong b))) r = ⊥
Settled (some (ok (frame b))) r = ⊥

classify-Settled :
    (item : Option (Result WsMessage String)) (r : Result Message WsError)
    → Settled item r
    → classify item ≡ some r
unfolding classify Heap.push_back
classify-Settled none r e = ap some (sym e)
classify-Settled (some (err x)) r e = ap some (sym e)
classify-Settled (some (ok close)) r e = ap some (sym e)
classify-Settled (some (ok (binary b))) r e = ap some (sym e)
classify-Settled (some (ok (text s))) r e = absurd e
classify-Settled (some (ok (ping b))) r e = absurd e
classify-Settled (some (ok (pong b))) r e = absurd e
classify-Settled (some (ok (frame b))) r e = absurd e

classify-IsSkipped : (m : WsMessage) → IsSkipped m → classify (some (ok m)) ≡ none
unfolding classify
classify-IsSkipped (text s) h = refl
classify-IsSkipped (binary b) h = absurd h
classify-IsSkipped (ping b) h = refl
classify-IsSkipped (pong b) h = refl
classify-IsSkipped close h = absurd h
classify-IsSkipped (frame b) h = refl

module _ {D A T : Type 0} ⦃wd : WsStream D⦄ ⦃wa : WsStream A⦄ ⦃wt : WsStream T⦄ where
  -- From `w` the next messages are these, then comes this item, and leaves `w'`.
  abbrev pub Yields :
      WsInner D A T → List WsMessage → Option (Result WsMessage String) → WsInner D A T → Type 0
  Yields w [] item w' = next_inner w ≡ (item, w')
  Yields w (m ∷ ms) item w' = ((next_inner w).0 ≡ some (ok m)) × Yields (next_inner w).1 ms item w'

  -- If the stream gives some pings, pongs, texts or raw frames and then another item, recv with
  -- fuel for more items than those returns by that item: the binary data as the body of a message
  -- without a header, an error for the stream's error, closed for a close frame or the end.
  pub recv-Settled :
      (skipped : List WsMessage) (fuel : ℕ) (w w' : WsInner D A T)
      (item : Option (Result WsMessage String)) (r : Result Message WsError)
      → All IsSkipped skipped
      → Yields w skipped item w'
      → Settled item r
      → length skipped < fuel
      → recv fuel w ≡ (ends r, w')
  unfolding recv after_item
  recv-Settled [] zero w w' item r h y e lt = absurd (omega arith)
  recv-Settled (m ∷ ms) zero w w' item r h y e lt = absurd (omega arith)
  recv-Settled [] (suc fuel) w w' item r h y e lt = rw (y, classify-Settled item r e) refl
  recv-Settled (m ∷ ms) (suc fuel) w w' item r h y e lt =
      rw (y.0, classify-IsSkipped m h.0) (recv-Settled ms fuel _ w' item r h.1 y.1 e (omega arith))
