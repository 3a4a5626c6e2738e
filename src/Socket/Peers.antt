-- ===== src/Socket/Peers.antt =====
-- Admitting peers: `Pub0::wait_for_subscribers` and `drain_incoming` (src/socket/pubsub0.rs), which
-- `Bus0` and `Surveyor0` repeat; and receiving from any of them: `Bus0::recv_any`
-- (src/socket/bus0.rs).
pub mod Laws
use nng_core.Prelude.{
  ℕ, zero, suc, ◌+◌, List, [], ◌∷◌, ◌++◌, Option, none, some, length, get_elem?, ltb, if◌then◌else◌,
  Result, ok, err,
}
use nng_core.Message.Heap.{Message}
use nng_core.Socket.Error.{NngError, no_peers}
use nng_core.Socket.FanOut.{swap_remove, set}

-- How a loop ends; `runs_on` where the fuel ran out.
pub data Ends (A : Type 0) : Type 0 where
  returns : A → Ends A
  runs_on : Ends A

-- `if let Ok(t) = … { push(t) }`
unfoldable pub admit : {T : Type 0} → List T → Result T NngError → List T
admit peers (ok t) = peers ++ (t ∷ [])
admit peers (err e) = peers

-- `while self.subscribers.len() < n { … }`; accepting a connection with its handshake is a
-- parameter.
module _ {L T : Type 0} (accept_as_transport : L → Result T NngError × L) where
  unfoldable pub wait_for : ℕ → ℕ → List T → L → Ends (List T) × L
  wait_for zero n peers l = (if ltb (length peers) n then runs_on else returns peers, l)
  wait_for (suc fuel) n peers l =
      let (r, l') = accept_as_transport l in
      let rest = wait_for fuel n (admit peers r) l' in
      if ltb (length peers) n then rest else (returns peers, l)

-- `accept_raw` ends with `none` where no connection waits; `into_transport` is the handshake.
module _ {L R T : Type 0} (accept_raw : L → Option (Result R NngError) × L)
    (into_transport : R → Result T NngError) where
  unfoldable pub after_accept :
      (List T → L → Ends (List T) × L) → List T → Option (Result R NngError) → L → Ends (List T) × L
  after_accept again peers none l = (returns peers, l)
  after_accept again peers (some (err e)) l = (returns peers, l)
  after_accept again peers (some (ok raw)) l = again (admit peers (into_transport raw)) l

  -- `drain_incoming` and `accept_pending`; each connection is one unit of fuel.
  unfoldable pub drain_incoming : ℕ → List T → L → Ends (List T) × L
  drain_incoming zero peers l = (runs_on, l)
  drain_incoming (suc fuel) peers l =
      let (r, l') = accept_raw l in after_accept (drain_incoming fuel) peers r l'

-- `poll` is one poll of a peer's `recv`, with `none` for pending.
module _ {T : Type 0} (poll : T → Option (Result Message NngError) × T) where
  unfoldable pub after_poll :
      (ℕ → List T → Option Message × List T)
      → ℕ
      → List T
      → Option (Result Message NngError)
      → T
      → Option Message × List T
  after_poll again i peers (some (ok msg)) t = (some msg, set peers i t)
  after_poll again i peers (some (err e)) t = again i (swap_remove peers i)
  after_poll again i peers none t = again (i + 1) (set peers i t)

  unfoldable pub poll_at :
      (ℕ → List T → Option Message × List T) → ℕ → List T → Option T → Option Message × List T
  poll_at again i peers none = (none, peers)
  poll_at again i peers (some t) = let (r, t') = poll t in after_poll again i peers r t'

  -- One pass over the peers from index `i` on; every round drops a peer or goes on to the next.
  unfoldable pub poll_peers : ℕ → ℕ → List T → Option Message × List T
  poll_peers zero i peers = (none, peers)
  poll_peers (suc fuel) i peers = poll_at (poll_peers fuel) i peers (get_elem? peers i)

  -- `recv_any`, with a bound on the passes.
  unfoldable pub recv_any : ℕ → List T → Ends (Result Message NngError) × List T
  recv_any passes [] = (returns (err no_peers), [])
  recv_any zero (t ∷ ts) = (runs_on, t ∷ ts)
  recv_any (suc passes) (t ∷ ts) =
      let (r, peers) = poll_peers (length (t ∷ ts)) 0 (t ∷ ts) in
      let rest = recv_any passes peers in
      elim r [ some msg ↦ (returns (ok msg), peers) | none ↦ rest ]
