-- ===== src/Socket/Push0Fan/Laws.antt =====
-- The turn: no push panics, and a round of pushes reaches every worker once.
use nng_core.Prelude.{
  ◌+◌, ◌%◌, ◌<◌, ◌≡◌, refl, ap, ap₂, sym, ◌∙◌, arith, List, [], ◌∷◌, ◌++◌, append-nil, append_assoc,
  length, length-append, done, Result,
}
use nng_core.Message.Heap.{Message}
use nng_core.Socket.Error.{NngError}
use nng_core.Socket.FanOut.Laws.{get_elem_here, set_here}
use nng_core.Socket.FanOut.{set}
use nng_core.Socket.Push0Fan.{new, send_to, push, push_all}
use native.Mathlib.Nat.{mod_self, mod-eq_of_lt, zero-mod}

module _ {T : Type 0} (send : T → Message → Result (Unit {0}) NngError × T) where
  -- Each worker after it was sent the message of its place, and the outcomes.
  abbrev pub each_sent : List T → List Message → List T
  each_sent [] msgs = []
  each_sent (w ∷ ws) [] = w ∷ ws
  each_sent (w ∷ ws) (msg ∷ msgs) = (send w msg).1 ∷ each_sent ws msgs

  abbrev pub outcomes : List T → List Message → List (Result (Unit {0}) NngError)
  outcomes [] msgs = []
  outcomes (w ∷ ws) [] = []
  outcomes (w ∷ ws) (msg ∷ msgs) = (send w msg).0 ∷ outcomes ws msgs

  -- A push when it is the turn of the worker behind `before`.
  push_here :
      (before : List T) (w : T) (after : List T) (msg : Message)
      → push send (record { workers = before ++ (w ∷ after); next = length before }) msg
        ≡ done (
          record {
            workers = (before ++ ((send w msg).1 ∷ [])) ++ after;
            next = (length before + 1) % length (before ++ (w ∷ after));
          },
          (send w msg).0,
        )
  unfolding push send_to set
  push_here [] w after msg = refl
  push_here (d ∷ before) w after msg =
      rw (get_elem_here (d ∷ before) w after, set_here (d ∷ before) w after (send w msg).1)

  -- From the turn of the first worker behind `before` to the end of the round.
  push_all-turn :
      (before rest : List T) (msgs : List Message)
      → length msgs ≡ length rest
      → push_all send
          (record { workers = before ++ rest; next = length before % length (before ++ rest) })
          msgs
        ≡ done (record { workers = before ++ each_sent rest msgs; next = 0 }, outcomes rest msgs)
  unfolding push_all
  push_all-turn before [] [] e = rw (append-nil before, mod_self (length before))
  push_all-turn before [] (msg ∷ msgs) e = absurd (omega arith)
  push_all-turn before (w ∷ rest) [] e = absurd (omega arith)
  push_all-turn before (w ∷ rest) (msg ∷ msgs) e = rw (
    mod-eq_of_lt turn,
    push_here before w rest msg,
    next_turn,
    push_all-turn (before ++ ((send w msg).1 ∷ [])) rest msgs (omega arith),
    append_assoc before ((send w msg).1 ∷ []) (each_sent rest msgs),
  )
    where
      turn : length before < length (before ++ (w ∷ rest))
      turn = omega (arith, length-append before (w ∷ rest))

      next_turn :
          (length before + 1) % length (before ++ (w ∷ rest))
          ≡ length (before ++ ((send w msg).1 ∷ []))
            % length ((before ++ ((send w msg).1 ∷ [])) ++ rest)
      next_turn = ap₂ ◌%◌ (omega (arith, length-append before ((send w msg).1 ∷ []))) (
          omega (
            arith,
            length-append before (w ∷ rest),
            length-append (before ++ ((send w msg).1 ∷ [])) rest,
            length-append before ((send w msg).1 ∷ []),
          ))

  -- As many pushes as there are workers on a new Push0Fan: none panics, every worker is sent
  -- exactly the message of its place, the outcomes are theirs, and it is the first worker's turn
  -- again.
  pub push_all-round :
      (workers : List T) (msgs : List Message)
      → length msgs ≡ length workers
      → push_all send (new workers) msgs
        ≡ done (new (each_sent workers msgs), outcomes workers msgs)
  push_all-round workers msgs e =
      ap (λ i. push_all send (record { workers = workers; next = i }) msgs)
        (sym (zero-mod (length workers)))
      ∙ push_all-turn [] workers msgs e
