-- ===== src/Socket/Peers/Laws.antt =====
-- How many peers are admitted, and which message is received.
use nng_core.Prelude.{
  ℕ, zero, suc, ◌≤◌, ◌<◌, ◌≡◌, sym, subst, ◌∙◌, arith, max, List, [], ◌∷◌, ◌++◌, append-nil,
  append_assoc, length, length-append, ltb_of_le, lt→ltb, dec_lt, Result, ok, err,
}
use nng_core.Socket.Error.{NngError}
use nng_core.Socket.Peers.{returns, admit, wait_for}

module _ {T : Type 0} where
  -- The first peers stay where they are; those that were admitted stand behind them.
  pub record Admits (n : ℕ) (before after : List T) : Type 0 where
    pub admitted : List T
    pub behind : after ≡ before ++ admitted
    pub count : length after ≡ max n (length before)

  admit-Admits :
      (n : ℕ) (peers : List T) (r : Result T NngError) (after : List T)
      → length peers < n
      → Admits n (admit peers r) after
      → Admits n peers after
  unfolding admit
  admit-Admits n peers (ok t) after lt x = record {
    admitted = t ∷ x.admitted;
    behind = x.behind ∙ append_assoc peers (t ∷ []) x.admitted;
    count = omega (arith, x.count, length-append peers (t ∷ []));
  }
  admit-Admits n peers (err e) after lt x = x

  Admits-none : (n : ℕ) (peers : List T) → n ≤ length peers → Admits n peers peers
  Admits-none n peers h = record {
    admitted = [];
    behind = sym (append-nil peers);
    count = omega arith;
  }

module _ {L T : Type 0} (accept_as_transport : L → Result T NngError × L) where
  -- When waiting for `n` peers ends, those that were there before stand in front, and there are
  -- `n` of them, or as many as before if these were more: none is admitted beyond the `n`.
  pub wait_for-Admits :
      (fuel n : ℕ) (peers : List T) (l : L) (after : List T)
      → (wait_for accept_as_transport fuel n peers l).0 ≡ returns after
      → Admits n peers after
  unfolding wait_for
  wait_for-Admits zero n peers l after h = elim (dec_lt (length peers) n) [
    | yes more ↦ absurd (ground (arith, lt→ltb (length peers) n more))
    | no enough ↦
        subst (Admits n peers) (ground (arith, ltb_of_le (length peers) n))
          (Admits-none n peers (omega arith))
  ]
  wait_for-Admits (suc fuel) n peers l after h = elim (dec_lt (length peers) n) [
    | yes more ↦ admit-Admits n peers _ after more (
        wait_for-Admits fuel n (admit peers (accept_as_transport l).0) (accept_as_transport l).1
          after (ground (arith, lt→ltb (length peers) n more)))
    | no enough ↦
        subst (Admits n peers) (ground (arith, ltb_of_le (length peers) n))
          (Admits-none n peers (omega arith))
  ]
