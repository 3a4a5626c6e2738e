-- ===== src/Tests/Fan.antt =====
-- The pulling fan with one sender that gives a message and goes.
use nng_core.Prelude.{◌≡◌, ◌≢◌, refl, arith, [], ◌∷◌, ok, err}
use nng_core.Message.Heap.{from_parts}
use nng_core.Socket.Error.{connection_closed}
use nng_core.Socket.Pull0Fan.{
  Fan, Reach, start, later, spawn_reader, received, sent, gave_up, took, no_peers, pull_any,
}
use nng_core.Socket.Pull0Fan.Laws.{IsOrdered, Reach-IsOrdered, pull_any-open}

-- The message is in the channel, and the task waits to put the error behind it.
waiting : (s : Fan) × Reach 4 s
waiting = (
  _,
  later
      (later
        (later (later start (spawn_reader 0 refl)) (received 0 (ok (from_parts [] (7 ∷ []))) refl))
        (sent 0 (from_parts [] (7 ∷ [])) refl (omega arith)))
      (received 0 (err connection_closed) refl),
)

-- The message was taken out, the task has ended and the channel is empty.
left : (s : Fan) × Reach 4 s
unfolding waiting
left = (
  _,
  later
      (later (later waiting.1 (gave_up 0 connection_closed [] [] refl (omega arith) refl))
        (took _ _ refl))
      (took _ _ refl),
)

Reach-IsOrdered_example : IsOrdered 4 waiting.0
Reach-IsOrdered_example = Reach-IsOrdered waiting.1

all_gone : (left.0.queue ≡ []) × (left.0.live ≡ [])
unfolding left waiting
all_gone = (refl, refl)

pull_any-open_example : (pull_any left.0.senders left.0.queue).0 ≢ no_peers
pull_any-open_example = pull_any-open left.1
