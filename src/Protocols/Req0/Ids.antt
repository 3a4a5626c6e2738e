-- ===== src/Protocols/Req0/Ids.antt =====
-- The request ids that one `Req0State` gives out over its life.
use nng_core.Prelude.{
  ℕ, zero, suc, ◌+◌, ◌-◌, ◌%◌, ◌^◌, ◌≡◌, refl, ap, ◌∙◌, arith, List, [], ◌∷◌, length, Exec, done,
  ◌>>=◌,
}
use nng_core.Message.Heap.{Message, message_buf}
use nng_core.Message.Heap.Laws.{message-IsLawful}
use nng_core.Protocols.Words.{next_id_after}
use nng_core.Protocols.Req0.{Req0State, new, prepare_outgoing}
use nng_core.Protocols.Req0.Laws.{prepare_outgoing_lem}

-- The ids given to these messages, one after the other.
pub ids_of : Req0State → List Message → Exec (List ℕ)
ids_of s [] = done []
ids_of s (m ∷ ms) = do (s', m', id) ← prepare_outgoing s m; ids ← ids_of s' ms; done (id ∷ ids)

-- `n` ids in a row from the k-th on: 1, 2, ..., 2 ^ 32 - 1 and then 1 again.
abbrev pub id_of : ℕ → ℕ
id_of k = k % (2 ^ 32 - 1) + 1

abbrev pub consecutive_ids : ℕ → ℕ → List ℕ
consecutive_ids k zero = []
consecutive_ids k (suc n) = id_of k ∷ consecutive_ids (k + 1) n

next_id_after-id_of : (k : ℕ) → next_id_after (id_of k) ≡ id_of (k + 1)
next_id_after-id_of k = omega arith

ids_of-consecutive :
    (k : ℕ) (s : Req0State) (ms : List Message)
    → s.next_id ≡ id_of k
    → ids_of s ms ≡ done (consecutive_ids k (length ms))
unfolding ids_of message-IsLawful
ids_of-consecutive k s [] e = refl
ids_of-consecutive k s (m ∷ ms) e =
    let (m', p, _, _, _) = prepare_outgoing_lem message-IsLawful m tt s tt in
    rw (
      p,
      ids_of-consecutive (k + 1) (record { next_id = next_id_after s.next_id }) ms
          (ap next_id_after e ∙ next_id_after-id_of k),
      e,
    )

-- A new Req0State gives its requests the ids 1, 2, 3 and so on up to 2^32 - 1 and then 1 again.
pub ids_of-new : (ms : List Message) → ids_of new ms ≡ done (consecutive_ids 0 (length ms))
ids_of-new ms = ids_of-consecutive 0 new ms refl
