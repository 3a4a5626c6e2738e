-- ===== src/Protocols/Sub0/Laws.antt =====
-- What a subscriber filters, after any sequence of its calls.
use nng_core.Prelude.{
  ℕ, ◌≡◌, ◌↔◌, refl, sym, ap, ◌∙◌, List, [], ◌∷◌, ◌++◌, Bool, true, false, ◌||◌, ◌&&◌, not,
}
use nng_core.Message.Buf.{MessageBuf}
use nng_core.Protocols.Sub0.{Sub0State, new, subscribe, unsubscribe, matches}
use nng_core.Protocols.Sub0.Topics.{starts_with}
use nng_core.Protocols.Sub0.Topics.Laws.{
  IsSorted, same, contains, insert-IsSorted, remove-IsSorted, contains-insert, contains-remove,
}
use nng_core.Protocols.Sub0.Topics.Range.{
  any-range_to, any-contains, contains-any, starts_with_sound, starts_with_complete,
}

pub data Op : Type 0 where
  add : List ℕ → Op
  del : List ℕ → Op

unfoldable pub run : Sub0State → List Op → Sub0State
run s [] = s
run s (add p ∷ ops) = run (subscribe s p) ops
run s (del p ∷ ops) = run (unsubscribe s p) ops

-- The last call about the topic was a subscription; `before` answers if there was none.
abbrev pub active : Bool → List Op → List ℕ → Bool
active before [] t = before
active before (add p ∷ ops) t = active (same t p || before) ops t
active before (del p ∷ ops) t = active (not (same t p) && before) ops t

-- The calls keep the set ascending, and it holds exactly the active topics.
run-contains :
    (ops : List Op) (s : Sub0State)
    → IsSorted s.subscriptions
    → IsSorted (run s ops).subscriptions
      × ((t : List ℕ)
          → contains t (run s ops).subscriptions ≡ active (contains t s.subscriptions) ops t)
unfolding run subscribe unsubscribe
run-contains [] s v = (v, λ t. refl)
run-contains (add p ∷ ops) s v =
    let (w, c) = run-contains ops (subscribe s p) (insert-IsSorted p s.subscriptions v) in
    (w, λ t. c t ∙ ap (λ b. active b ops t) (contains-insert t p s.subscriptions))
run-contains (del p ∷ ops) s v =
    let (w, c) = run-contains ops (unsubscribe s p) (remove-IsSorted p s.subscriptions v) in
    (w, λ t. c t ∙ ap (λ b. active b ops t) (contains-remove t p s.subscriptions v))

module _ {M : Type 0} ⦃b : MessageBuf M⦄ where
  -- After any sequence of subscribe and unsubscribe on a new Sub0State, a message matches exactly
  -- if some topic whose last call subscribed it is a prefix of its body.
  pub matches-run :
      (ops : List Op) (msg : M)
      → (matches (run new ops) msg ≡ true)
        ↔ ((t : List ℕ) × (rest : List ℕ) × (active false ops t ≡ true) × (b.body msg ≡ t ++ rest))
  unfolding matches
  matches-run ops msg = (passes, blocks)
    where
      subs : List (List ℕ)
      subs = (run new ops).subscriptions

      sorted : IsSorted subs
      sorted = (run-contains ops new tt).0

      holds : (t : List ℕ) → contains t subs ≡ active false ops t
      holds = (run-contains ops new tt).1

      passes :
          matches (run new ops) msg ≡ true
          → (t : List ℕ) × (rest : List ℕ) × (active false ops t ≡ true) × (b.body msg ≡ t ++ rest)
      passes h =
          let (t, c, e) =
            any-contains (starts_with (b.body msg)) subs
              (sym (any-range_to (b.body msg) subs sorted) ∙ h) in
          let (rest, p) = starts_with_sound (b.body msg) t e in (t, rest, sym (holds t) ∙ c, p)

      blocks :
          (t : List ℕ) × (rest : List ℕ) × (active false ops t ≡ true) × (b.body msg ≡ t ++ rest)
          → matches (run new ops) msg ≡ true
      blocks (t, rest, a, p) =
          any-range_to (b.body msg) subs sorted
          ∙ contains-any (starts_with (b.body msg)) subs t (holds t ∙ a)
              (rw p (starts_with_complete t rest))
