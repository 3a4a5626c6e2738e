-- ===== src/Socket/Pull0Fan/Laws.antt =====
-- In every order of steps: no item is lost, doubled or overtaken by one of the same sender.
use nng_core.Prelude.{
  ℕ, suc, ◌≤◌, ◌<◌, ◌≡◌, ◌≢◌, refl, ap, sym, ◌∙◌, subst, arith, ℕ_discrete, List, [], ◌∷◌, ◌++◌,
  append-nil, append_assoc, length, length-append, ◌==◌, ==_refl, ==_of_ne, Bool-cases, inl, inr,
  if◌then◌else◌, ok, err,
}
use nng_core.Socket.Pull0Fan.{
  Item, Phase, absent, reading, sending, finished, Task, Fan, update, Step, spawn_reader, received,
  sent, gave_up, took, Reach, start, later, Pulled, message, no_peers, waits, pull_any,
}

-- The items of one task.
abbrev pub of : ℕ → List (ℕ × Item) → List Item
of i [] = []
of i ((j, r) ∷ items) = if i == j then r ∷ of i items else of i items

-- The item that a task holds.
abbrev pub held : Phase → List Item
held absent = []
held reading = []
held (sending r) = r ∷ []
held finished = []

of-append : (i : ℕ) (xs ys : List (ℕ × Item)) → of i (xs ++ ys) ≡ of i xs ++ of i ys
of-append i [] ys = refl
of-append i ((j, r) ∷ xs) ys = elim (Bool-cases (i == j)) [
  | inl e ↦ rw e (ap (λ l. r ∷ l) (of-append i xs ys))
  | inr e ↦ rw e (of-append i xs ys)
]

of_self : (i : ℕ) (r : Item) → of i ((i, r) ∷ []) ≡ r ∷ []
of_self i r = rw (==_refl i) refl

of_other : (i j : ℕ) (r : Item) → i ≢ j → of j ((i, r) ∷ []) ≡ []
of_other i j r ne = rw (==_of_ne j i (λ e. ne (sym e))) refl

-- The items of a task, in all places together.
abbrev pub all_of : List (ℕ × Item) → List (ℕ × Item) → ℕ → Phase → List Item
all_of pulled queue i p = of i pulled ++ (of i queue ++ held p)

pub record IsOrdered (capacity : ℕ) (s : Fan) : Type 0 where
  pub in_order : (i : ℕ) → (s.tasks i).received ≡ all_of s.pulled s.queue i (s.tasks i).phase
  pub counted : s.senders ≡ suc (length s.live)
  pub bounded : length s.queue ≤ capacity

-- A change of one task, as each task sees it.
update-all :
    (P : ℕ → Task → Type 0) (tasks : ℕ → Task) (i : ℕ) (t : Task)
    → P i t
    → ((j : ℕ) → i ≢ j → P j (tasks j))
    → (j : ℕ) → P j (update tasks i t j)
update-all P tasks i t h others j = elim (ℕ_discrete j i) [
  | yes e ↦ rw (e, ==_refl i) h
  | no ne ↦ rw (==_of_ne j i ne) (others j (λ q. ne (sym q)))
]

module _ (s : Fan)
    (order : (i : ℕ) → (s.tasks i).received ≡ all_of s.pulled s.queue i (s.tasks i).phase)
    (i : ℕ) where
  -- A task that has a new phase in which it holds as much as before.
  moved-in_order :
      (next : Phase)
      → held (s.tasks i).phase ≡ held next
      → (j : ℕ)
      → (update s.tasks i (record (s.tasks i) { phase = next }) j).received
        ≡ all_of s.pulled s.queue j (update s.tasks i (record (s.tasks i) { phase = next }) j).phase
  moved-in_order next e =
      update-all (λ j t. t.received ≡ all_of s.pulled s.queue j t.phase) s.tasks i
        (record (s.tasks i) { phase = next })
        (order i ∙ ap (λ h. of i s.pulled ++ (of i s.queue ++ h)) e) (λ j ne. order j)

  received-in_order :
      (r : Item)
      → (s.tasks i).phase ≡ reading
      → (s.tasks i).received ++ (r ∷ []) ≡ all_of s.pulled s.queue i (sending r)
  received-in_order r e =
      ap (λ l. l ++ (r ∷ []))
        (order i
          ∙ ap (λ p. of i s.pulled ++ (of i s.queue ++ held p)) e
          ∙ ap (λ q. of i s.pulled ++ q) (append-nil (of i s.queue)))
      ∙ append_assoc (of i s.pulled) (of i s.queue) (r ∷ [])

  -- An item that goes from its task into the queue.
  put-in_order :
      (r : Item) (next : Phase)
      → held next ≡ []
      → (s.tasks i).phase ≡ sending r
      → (j : ℕ)
      → (update s.tasks i (record (s.tasks i) { phase = next }) j).received
        ≡ all_of s.pulled
            (s.queue ++ ((i, r) ∷ []))
            j
            (update s.tasks i (record (s.tasks i) { phase = next }) j).phase
  put-in_order r next none e =
      update-all (λ j t. t.received ≡ all_of s.pulled (s.queue ++ ((i, r) ∷ [])) j t.phase) s.tasks
        i (record (s.tasks i) { phase = next })
        (order i
          ∙ ap (λ p. of i s.pulled ++ (of i s.queue ++ held p)) e
          ∙ ap (λ q. of i s.pulled ++ q)
              (ap (λ l. of i s.queue ++ l) (sym (of_self i r))
                ∙ sym (of-append i s.queue ((i, r) ∷ []))
                ∙ sym (append-nil _)
                ∙ ap (λ h. of i (s.queue ++ ((i, r) ∷ [])) ++ h) (sym none)))
        (λ j ne.
          order j
          ∙ ap (λ q. of j s.pulled ++ (q ++ held (s.tasks j).phase))
              (sym (append-nil (of j s.queue))
                ∙ ap (λ l. of j s.queue ++ l) (sym (of_other i j r ne))
                ∙ sym (of-append j s.queue ((i, r) ∷ []))))

-- An item that is taken out of the queue.
took-in_order :
    (x : ℕ × Item) (rest pulled : List (ℕ × Item)) (j : ℕ) (p : Phase)
    → all_of pulled (x ∷ rest) j p ≡ all_of (pulled ++ (x ∷ [])) rest j p
took-in_order x rest pulled j p =
    ap (λ q. of j pulled ++ (q ++ held p)) (of-append j (x ∷ []) rest)
    ∙ ap (λ q. of j pulled ++ q) (append_assoc (of j (x ∷ [])) (of j rest) (held p))
    ∙ sym (append_assoc (of j pulled) (of j (x ∷ [])) (of j rest ++ held p))
    ∙ ap (λ l. l ++ (of j rest ++ held p)) (sym (of-append j pulled (x ∷ [])))

Step-IsOrdered :
    {capacity : ℕ} {s t : Fan} → Step capacity s t → IsOrdered capacity s → IsOrdered capacity t
Step-IsOrdered {s} (spawn_reader i e) h = record {
  in_order = moved-in_order s h.in_order i reading (ap held e);
  counted = omega (arith, h.counted);
  bounded = h.bounded;
}
Step-IsOrdered {s} (received i r e) h = record {
  in_order =
      update-all (λ j t. t.received ≡ all_of s.pulled s.queue j t.phase) s.tasks i _
        (received-in_order s h.in_order i r e) (λ j ne. h.in_order j);
  counted = h.counted;
  bounded = h.bounded;
}
Step-IsOrdered {s} (sent i msg e room) h = record {
  in_order = put-in_order s h.in_order i (ok msg) reading refl e;
  counted = h.counted;
  bounded = omega (arith, length-append s.queue ((i, ok msg) ∷ []));
}
Step-IsOrdered {s} (gave_up i x before after e room l) h = record {
  in_order = put-in_order s h.in_order i (err x) finished refl e;
  counted =
      omega (
        arith,
        h.counted,
        ap length l,
        length-append before (i ∷ after),
        length-append before after,
      );
  bounded = omega (arith, length-append s.queue ((i, err x) ∷ []));
}
Step-IsOrdered {s} (took x rest e) h = record {
  in_order = λ j.
      h.in_order j
      ∙ ap (λ q. all_of s.pulled q j (s.tasks j).phase) e
      ∙ took-in_order x rest s.pulled j (s.tasks j).phase;
  counted = h.counted;
  bounded = omega (arith, h.bounded, ap length e);
}

-- In every state that any interleaving of the reader tasks and the fan's owner reaches from a new
-- fan, what each task's transport gave is, in order, what pull_any took out of it, then what stands
-- in the channel, then what the task holds; the channel has a sender for the fan and one for each
-- running task, and holds no more than its capacity.
pub Reach-IsOrdered : {capacity : ℕ} {s : Fan} → Reach capacity s → IsOrdered capacity s
Reach-IsOrdered start = record {
  in_order = λ i. refl;
  counted = omega arith;
  bounded = omega arith;
}
Reach-IsOrdered (later r x) = Step-IsOrdered x (Reach-IsOrdered r)

abbrev IsNoPeers : Pulled → Type 0
IsNoPeers (message m) = ⊥
IsNoPeers no_peers = Unit {0}
IsNoPeers waits = ⊥

pull_any-waits :
    (senders : ℕ) (queue : List (ℕ × Item)) → 0 < senders → IsNoPeers (pull_any senders queue).0 → ⊥
unfolding pull_any
pull_any-waits senders [] h = rw (==_of_ne senders 0 (omega arith)) (λ x. x)
pull_any-waits senders ((i, ok m) ∷ queue) h = λ x. x
pull_any-waits senders ((i, err e) ∷ queue) h = pull_any-waits senders queue h

-- In no state that any interleaving reaches does pull_any return NoPeers, not even when every
-- sender is gone and the channel is empty: the fan's own sender keeps the channel open.
pub pull_any-open :
    {capacity : ℕ} {s : Fan} → Reach capacity s → (pull_any s.senders s.queue).0 ≢ no_peers
pull_any-open {s} r e =
    pull_any-waits s.senders s.queue (omega (arith, (Reach-IsOrdered r).counted))
      (subst IsNoPeers (sym e) tt)
