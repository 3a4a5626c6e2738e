-- ===== src/Socket/Push0Fan.antt =====
-- `Push0Fan` (src/socket/pipeline0.rs): messages go to the workers in turn.
pub mod Laws
use nng_core.Prelude.{
  ℕ, ◌+◌, ◌%◌, List, [], ◌∷◌, Option, none, some, length, get_elem?, Exec, done, panic, ◌>>=◌,
  Result, ok, err,
}
use nng_core.Message.Heap.{Message}
use nng_core.Socket.Error.{NngError, no_peers}
use nng_core.Socket.FanOut.{set}

pub record Push0Fan (T : Type 0) : Type 0 where
  pub workers : List T
  pub next : ℕ

-- What `listen_and_accept` returns, once the workers are connected.
abbrev pub new : {T : Type 0} → List T → Push0Fan T
new workers = record { workers = workers; next = 0 }

-- `send` of a worker's transport is a parameter.
module _ {T : Type 0} (send : T → Message → Result (Unit {0}) NngError × T) where
  -- `workers[i].send(&msg)`; out of range it panics.
  unfoldable pub send_to :
      Push0Fan T → Option T → ℕ → Message → Exec (Push0Fan T × Result (Unit {0}) NngError)
  send_to fan none i msg = panic
  send_to fan (some worker) i msg =
      let (r, worker') = send worker msg in
      done (record fan { workers = set fan.workers i worker' }, r)

  -- The turn passes on also where the send fails.
  unfoldable pub push : Push0Fan T → Message → Exec (Push0Fan T × Result (Unit {0}) NngError)
  push fan msg = elim fan.workers [
    | [] ↦ done (fan, err no_peers)
    | _ ∷ _ ↦
        send_to (record fan { next = (fan.next + 1) % length fan.workers })
          (get_elem? fan.workers fan.next) fan.next msg
  ]

  -- Messages pushed one after the other, with the outcome of each.
  unfoldable pub push_all :
      Push0Fan T → List Message → Exec (Push0Fan T × List (Result (Unit {0}) NngError))
  push_all fan [] = done (fan, [])
  push_all fan (msg ∷ msgs) = do
    (fan', r) ← push fan msg
    (fan'', rs) ← push_all fan' msgs
    done (fan'', r ∷ rs)
