-- ===== src/Socket/FanOut/Laws.antt =====
-- Every peer gets the message once, and exactly those stay whose send succeeded.
use nng_core.Prelude.{
  ℕ, zero, suc, ◌+◌, ◌≤◌, ◌≡◌, refl, ap, ap₂, sym, ◌∙◌, subst₂, arith, List, [], ◌∷◌, ◌++◌,
  append_assoc, Bool, true, false, Bool-cases, inl, inr, some, length, length-append, drop,
  take-append, drop-append, drop-drop, get_elem?, ltb_of_le, lt→ltb, if◌then◌else◌,
}
use nng_core.Message.Heap.{Message}
use nng_core.Socket.FanOut.{last_first, swap_remove, set, after_send, broadcast_loop, broadcast}
use mathlib.Core.List.{Perm, perm_middle}
use mathlib.Core.List.Perm

module _ {T : Type 0} where
  get_elem_at :
      (done : List T) (n : ℕ)
      → length done ≡ n
      → (x : T) (xs : List T) → get_elem? (done ++ (x ∷ xs)) n ≡ some x
  get_elem_at [] zero e x xs = refl
  get_elem_at [] (suc n) e x xs = absurd (omega arith)
  get_elem_at (d ∷ done) zero e x xs = absurd (omega arith)
  get_elem_at (d ∷ done) (suc n) e x xs = get_elem_at done n (omega arith) x xs

  -- `done` in front, what comes behind it.
  module _ (done : List T) (x : T) (xs : List T) where
    pub get_elem_here : get_elem? (done ++ (x ∷ xs)) (length done) ≡ some x
    get_elem_here = get_elem_at done (length done) refl x xs

    drop_here : drop (length done + 1) (done ++ (x ∷ xs)) ≡ xs
    drop_here =
        sym (drop-drop 1 (length done) (done ++ (x ∷ xs)))
        ∙ ap (drop 1) (drop-append (length done) done (x ∷ xs) refl)

    swap_remove_here : swap_remove (done ++ (x ∷ xs)) (length done) ≡ done ++ last_first xs
    unfolding swap_remove
    swap_remove_here =
        ap₂ (λ a b. a ++ last_first b) (take-append (length done) done (x ∷ xs) refl) drop_here

    pub set_here : (x' : T) → set (done ++ (x ∷ xs)) (length done) x' ≡ (done ++ (x' ∷ [])) ++ xs
    unfolding set
    set_here x' =
        ap₂ (λ a b. a ++ (x' ∷ b)) (take-append (length done) done (x ∷ xs) refl) drop_here
        ∙ sym (append_assoc done (x' ∷ []) xs)

  module _ (send : T → Message → Bool × T) (msg : Message) where
    -- What a peer leaves behind: its transport after the send, if that succeeded.
    abbrev pub keep : T → List T
    keep peer = if (send peer msg).0 then [] else (send peer msg).1 ∷ []

    -- Every peer is sent the message once; those whose send fails are dropped.
    abbrev pub survivors : List T → List T
    survivors [] = []
    survivors (peer ∷ peers) = keep peer ++ survivors peers

    keep_swap : (x y : T) (r : List T) → Perm (keep y ++ (keep x ++ r)) (keep x ++ (keep y ++ r))
    keep_swap x y r =
        elim ((send x msg).0)
          as (λ b.
            Perm (keep y ++ ((if b then [] else (send x msg).1 ∷ []) ++ r))
              ((if b then [] else (send x msg).1 ∷ []) ++ (keep y ++ r))) [
                | true ↦ Perm.refl (keep y ++ r)
                | false ↦ perm_middle (keep y) r
              ]

    survivors-step :
        (x : T) (peers moved : List T)
        → Perm (survivors moved) (survivors peers)
        → Perm
            (survivors (elim moved [ [] ↦ x ∷ [] | z ∷ zs ↦ z ∷ x ∷ zs ]))
            (keep x ++ survivors peers)
    survivors-step x peers [] p = Perm.append_left (keep x) p
    survivors-step x peers (z ∷ zs) p =
        Perm.trans (keep_swap x z (survivors zs)) (Perm.append_left (keep x) p)

    survivors-last_first : (xs : List T) → Perm (survivors (last_first xs)) (survivors xs)
    survivors-last_first [] = Perm.refl []
    survivors-last_first (x ∷ []) = Perm.refl (keep x ++ [])
    survivors-last_first (x ∷ y ∷ xs) =
        survivors-step x (y ∷ xs) (last_first (y ∷ xs)) (survivors-last_first (y ∷ xs))

    length-last_first : (xs : List T) → length (last_first xs) ≡ length xs
    length-last_first [] = refl
    length-last_first (x ∷ []) = refl
    length-last_first (x ∷ y ∷ xs) =
        elim (last_first (y ∷ xs))
            as (λ moved.
              length moved ≡ length (y ∷ xs)
              → length (elim moved [ [] ↦ x ∷ [] | z ∷ zs ↦ z ∷ x ∷ zs ]) ≡ suc (length (y ∷ xs))) [
                | [] ↦ λ e. absurd (omega arith)
                | z ∷ zs ↦ λ e. omega arith
              ]
          (length-last_first (y ∷ xs))

    -- The loop at a peer with those before it done.
    loop-Perm :
        (fuel : ℕ) (done rest : List T)
        → length rest ≤ fuel
        → Perm (broadcast_loop send msg fuel (length done) (done ++ rest)) (done ++ survivors rest)
    unfolding broadcast_loop after_send
    loop-Perm zero done [] h = Perm.refl _
    loop-Perm zero done (x ∷ xs) h = absurd (omega arith)
    loop-Perm (suc fuel) done [] h =
        rw (ltb_of_le (length done) (length (done ++ [])) (omega (arith, length-append done [])))
          (Perm.refl _)
    loop-Perm (suc fuel) done (x ∷ xs) h =
        rw
          (
            lt→ltb (length done) (length (done ++ (x ∷ xs)))
                (omega (arith, length-append done (x ∷ xs))),
            get_elem_here done x xs,
          )
          (elim (Bool-cases (send x msg).0) [
            | inl failed ↦
                rw (failed, swap_remove_here done x xs)
                  (Perm.trans
                    (loop-Perm fuel done (last_first xs) (omega (arith, length-last_first xs)))
                    (Perm.append_left done (survivors-last_first xs)))
            | inr sent ↦
                let x' = (send x msg).1 in
                rw (sent, set_here done x xs x')
                  (subst₂
                    (λ n r. Perm (broadcast_loop send msg fuel n ((done ++ (x' ∷ [])) ++ xs)) r)
                    (length-append done (x' ∷ [])) (append_assoc done (x' ∷ []) (survivors xs))
                    (loop-Perm fuel (done ++ (x' ∷ [])) xs (omega arith)))
          ])

    -- The loop of publish and broadcast ends with a permutation of the peers whose send of the
    -- message succeeded, each as it is after one send: none is skipped when another takes its
    -- place, and exactly those whose send failed are gone.
    pub broadcast-Perm : (peers : List T) → Perm (broadcast send msg peers) (survivors peers)
    unfolding broadcast
    broadcast-Perm peers = loop-Perm (length peers) [] peers (omega arith)
