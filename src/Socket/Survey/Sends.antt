-- ===== src/Socket/Survey/Sends.antt =====
-- Sending a survey to every respondent: who is waited for.
use nng_core.Prelude.{
  ℕ, suc, ◌+◌, ◌≤◌, ◌<◌, ◌≡◌, refl, ap, subst, arith, List, [], ◌∷◌, All, length, Bool, Bool-cases,
  inl, inr, Option, Result,
}
use nng_core.Message.Heap.{Message}
use nng_core.Socket.Error.{NngError}
use nng_core.Socket.Survey.{send_survey}

module _ {T : Type 0} (send : T → Message → Bool × T)
    (poll : T → Option (Result Message NngError) × T) where
  -- What sending a survey leaves: as many respondents, and indices of some of them.
  pub record Sends (i : ℕ) (ts ts' : List T) (pending : List ℕ) : Type 0 where
    pub sized : length ts' ≡ length ts
    pub in_range : All (λ j. j < i + length ts) pending
    pub few : length pending ≤ length ts

  pub send_survey-Sends :
      (i : ℕ) (msg : Message) (ts : List T)
      → Sends i ts (send_survey send poll i msg ts).0 (send_survey send poll i msg ts).1
  unfolding send_survey
  send_survey-Sends i msg [] = record { sized = refl; in_range = tt; few = omega arith }
  send_survey-Sends i msg (t ∷ ts) =
      let rest = send_survey-Sends (i + 1) msg ts in
      let later : All (λ j. j < i + length (t ∷ ts)) (send_survey send poll (i + 1) msg ts).1 =
        subst (λ n. All (λ j. j < n) (send_survey send poll (i + 1) msg ts).1) (omega arith)
          rest.in_range in
      elim (Bool-cases (send t msg).0) [
        | inl sent ↦ rw (sent) (record {
          sized = ap suc rest.sized;
          in_range = (omega arith, later);
          few = omega (arith, rest.few);
        })
        | inr failed ↦
            rw (failed) (record {
              sized = ap suc rest.sized;
              in_range = later;
              few = omega (arith, rest.few);
            })
      ]

  pub send_survey-All :
      (P : T → Type 0) (i : ℕ) (msg : Message) (ts : List T)
      → All (λ t. P (send t msg).1) ts
      → All P (send_survey send poll i msg ts).0
  unfolding send_survey
  send_survey-All P i msg [] h = tt
  send_survey-All P i msg (t ∷ ts) h = (h.0, send_survey-All P (i + 1) msg ts h.1)
