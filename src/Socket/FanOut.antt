-- ===== src/Socket/FanOut.antt =====
-- Sending one message to every peer and dropping those whose connection is broken: the loop of
-- `Pub0::publish` (src/socket/pubsub0.rs) and of `Bus0::broadcast` (src/socket/bus0.rs).
pub mod Laws
use nng_core.Prelude.{
  ℕ, zero, suc, ◌+◌, List, [], ◌∷◌, ◌++◌, Bool, true, false, Option, none, some, length, take, drop,
  get_elem?, ltb, if◌then◌else◌,
}
use nng_core.Message.Heap.{Message}

module _ {T : Type 0} where
  -- The last element moved to the front.
  abbrev pub last_first : List T → List T
  last_first [] = []
  last_first (x ∷ []) = x ∷ []
  last_first (x ∷ y ∷ xs) = elim (last_first (y ∷ xs)) [ [] ↦ x ∷ [] | z ∷ zs ↦ z ∷ x ∷ zs ]

  -- `Vec::swap_remove`: the last element takes the place of the one removed.
  unfoldable pub swap_remove : List T → ℕ → List T
  swap_remove xs i = take i xs ++ last_first (drop (i + 1) xs)

  -- `xs[i]` changed in place.
  unfoldable pub set : List T → ℕ → T → List T
  set xs i x = take i xs ++ (x ∷ drop (i + 1) xs)

  -- `send(&msg)` of a peer's transport: whether it was an error, and the transport after it.
  module _ (send : T → Message → Bool × T) (msg : Message) where
    unfoldable pub after_send : (ℕ → List T → List T) → ℕ → List T → Option T → List T
    after_send again i peers none = peers
    after_send again i peers (some peer) =
        let (is_err, peer') = send peer msg in
        let dropped = again i (swap_remove peers i) in
        let kept = again (i + 1) (set peers i peer') in if is_err then dropped else kept

    -- `while i < peers.len()`: every round drops a peer or goes on to the next one.
    unfoldable pub broadcast_loop : ℕ → ℕ → List T → List T
    broadcast_loop zero i peers = peers
    broadcast_loop (suc fuel) i peers =
        if ltb i (length peers)
        then after_send (broadcast_loop fuel) i peers (get_elem? peers i)
        else peers

    unfoldable pub broadcast : List T → List T
    broadcast peers = broadcast_loop (length peers) 0 peers
