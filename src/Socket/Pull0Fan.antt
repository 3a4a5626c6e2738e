-- ===== src/Socket/Pull0Fan.antt =====
-- `Pull0Fan` (src/socket/pipeline0.rs): a reader task for each sender, all of which put what they
-- receive into one bounded channel, and `pull_any`, which takes it out.
pub mod Laws
use nng_core.Prelude.{
  ℕ, suc, ◌+◌, ◌-◌, ◌<◌, ◌≡◌, List, [], ◌∷◌, ◌++◌, length, ◌==◌, if◌then◌else◌, Result, ok, err,
}
use nng_core.Message.Heap.{Message}
use nng_core.Socket.Error.{NngError}

-- What a task's transport gave.
abbrev pub Item : Type 0
Item = Result Message NngError

-- Where a reader task stands: not spawned, in `transport.recv()`, in `tx.send(…)`, or done.
pub data Phase : Type 0 where
  absent : Phase
  reading : Phase
  sending : Item → Phase
  finished : Phase

-- `received` is what the transport gave so far, the oldest first.
pub record Task : Type 0 where
  pub phase : Phase
  pub received : List Item

abbrev pub no_task : Task
no_task = record { phase = absent; received = [] }

-- `Pull0Fan` with its tasks. `senders` counts the `Sender`s of the channel: the fan's own `tx` and
-- a clone in every task in `live`. An item is kept with its task's number; `pulled` are the items
-- taken out so far.
pub record Fan : Type 0 where
  pub tasks : ℕ → Task
  pub live : List ℕ
  pub senders : ℕ
  pub queue : List (ℕ × Item)
  pub pulled : List (ℕ × Item)
  pub n : ℕ

-- `bind`, and `listen_and_accept` before its first connection.
abbrev pub new : Fan
new = record { tasks = λ i. no_task; live = []; senders = 1; queue = []; pulled = []; n = 0 }

abbrev pub update : (ℕ → Task) → ℕ → Task → ℕ → Task
update tasks i t j = if j == i then t else tasks j

-- One step of a task, of the fan's owner or of the channel, while the fan is alive: the `watch`
-- channel that stops the tasks is closed only when the fan is dropped.
pub data Step (capacity : ℕ) (s : Fan) : Fan → Type 0 where
  -- `spawn_reader`
  spawn_reader :
      (i : ℕ)
      → (s.tasks i).phase ≡ absent
      → Step capacity s (record s {
        tasks = update s.tasks i (record (s.tasks i) { phase = reading });
        live = i ∷ s.live;
        senders = suc s.senders;
        n = suc s.n;
      })
  -- `transport.recv()` returns
  received :
      (i : ℕ) (r : Item)
      → (s.tasks i).phase ≡ reading
      → Step capacity s (record s {
        tasks =
            update s.tasks i
              (record { phase = sending r; received = (s.tasks i).received ++ (r ∷ []) });
      })
  -- `tx.send(Ok(msg))` finds room, and the loop goes on
  sent :
      (i : ℕ) (msg : Message)
      → (s.tasks i).phase ≡ sending (ok msg)
      → length s.queue < capacity
      → Step capacity s (record s {
        tasks = update s.tasks i (record (s.tasks i) { phase = reading });
        queue = s.queue ++ ((i, ok msg) ∷ []);
      })
  -- `tx.send(Err(e))` finds room, the loop ends and the task's `Sender` is dropped
  gave_up :
      (i : ℕ) (e : NngError) (before after : List ℕ)
      → (s.tasks i).phase ≡ sending (err e)
      → length s.queue < capacity
      → s.live ≡ before ++ (i ∷ after)
      → Step capacity s (record s {
        tasks = update s.tasks i (record (s.tasks i) { phase = finished });
        live = before ++ after;
        senders = s.senders - 1;
        queue = s.queue ++ ((i, err e) ∷ []);
      })
  -- `rx.recv()` gives an item
  took :
      (x : ℕ × Item) (rest : List (ℕ × Item))
      → s.queue ≡ x ∷ rest
      → Step capacity s (record s { queue = rest; pulled = s.pulled ++ (x ∷ []) })

pub data Reach (capacity : ℕ) : Fan → Type 0 where
  start : Reach capacity new
  later : {s t : Fan} → Reach capacity s → Step capacity s t → Reach capacity t

-- How a call of `pull_any` ends when no task moves meanwhile: with a message, with `NoPeers`, or it
-- waits.
pub data Pulled : Type 0 where
  message : Message → Pulled
  no_peers : Pulled
  waits : Pulled

-- `pull_any`: `rx.recv()` gives `None` when the queue is empty and no `Sender` is left.
unfoldable pub pull_any : ℕ → List (ℕ × Item) → Pulled × List (ℕ × Item)
pull_any senders [] = (if senders == 0 then no_peers else waits, [])
pull_any senders ((i, ok msg) ∷ queue) = (message msg, queue)
pull_any senders ((i, err e) ∷ queue) = pull_any senders queue

abbrev pub sender_count : Fan → ℕ
sender_count s = s.n
