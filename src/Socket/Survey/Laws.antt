-- ===== src/Socket/Survey/Laws.antt =====
-- A survey returns, with answers to this survey alone and at most one of each respondent.
use nng_core.Prelude.{
  ℕ, zero, suc, ◌+◌, ◌≤◌, ◌<◌, ◌≡◌, refl, subst, sym, ◌∙◌, arith, List, [], ◌∷◌, ◌++◌, All,
  All-append, ℕ_discrete, ==_iff, ==_of_ne, length, length-append, drop, Bool, Option, none, some,
  get_elem?, dec_lt, done, Result, ok, err,
}
use nng_core.Message.Heap.{Message, message_buf, header_push_back, from_parts}
use nng_core.Prelude.Bytes.{to_be_bytes}
use nng_core.Protocols.Words.{next_id_after, first_word}
use nng_core.Protocols.Surveyor0
use nng_core.Protocols.Surveyor0.{SurveyError, message_too_short, stale_survey_id, Surveyor0State}
use nng_core.Socket.Error.{NngError}
use nng_core.Socket.FanOut.{set}
use nng_core.Socket.Survey.Sends.{send_survey-Sends, send_survey-All}
use nng_core.Prelude.Last.{IsIn-All}
use nng_core.Socket.Survey.{
  send_survey, after_poll, poll_at, poll_pending, collect, survey_with_timeout,
}
use nng_core.Socket.Survey.Answers.{
  Reached, polled, IsAnswer, get_elem_in, set-All, length-set, process_response_short,
  process_response_long,
}

module _ {T : Type 0} (send : T → Message → Bool × T)
    (poll : T → Option (Result Message NngError) × T) (s : Surveyor0State) (P : T → Type 0)
    (keeps : (t : T) → P t → P (poll t).1) where
  -- A pass over `pending` with `n` respondents: what it leaves pending and what it collects.
  record Collects (n most : ℕ) (still : List ℕ) (got : List Message) : Type 0 where
    in_range : All (λ i. i < n) still
    answers : All (IsAnswer send poll P s.current_id) got
    few : length got + length still ≤ most

  after_poll-Collects :
      (n i : ℕ) (t : T) (r : Option (Result Message NngError))
      → i < n
      → P t
      → (poll t).0 ≡ r
      → (still : List ℕ) × (got : List Message) × (after_poll send poll s i r ≡ done (still, got))
        × Collects n 1 still got
  unfolding after_poll
  after_poll-Collects n i t none h p g =
      (i ∷ [], [], refl, record { in_range = (h, tt); answers = tt; few = omega arith })
  after_poll-Collects n i t (some (err e)) h p g =
      ([], [], refl, record { in_range = tt; answers = tt; few = omega arith })
  after_poll-Collects n i t (some (ok raw)) h p g = elim (dec_lt (length raw.body) 4) [
    | yes short ↦ (
      [],
      [],
      rw (process_response_short s raw short) refl,
      record { in_range = tt; answers = tt; few = omega arith },
    )
    | no long ↦ elim (ℕ_discrete (first_word raw.body) s.current_id) [
      | yes same ↦ (
        [],
        from_parts raw.header (drop 4 raw.body) ∷ [],
        rw
            (
              process_response_long s raw (omega arith),
              (==_iff (first_word raw.body) s.current_id).1 same,
            )
            refl,
        record {
          in_range = tt;
          answers = (
            record {
              respondent = t;
              is_respondent = p;
              raw = raw;
              gave = g;
              long = omega arith;
              carries = same;
              stripped = refl;
            },
            tt,
          );
          few = omega arith;
        },
      )
      | no other ↦ (
        [],
        [],
        rw
            (
              process_response_long s raw (omega arith),
              ==_of_ne (first_word raw.body) s.current_id other,
            )
            refl,
        record { in_range = tt; answers = tt; few = omega arith },
      )
    ]
  ]

  poll_at-Collects :
      (ts : List T) (i : ℕ)
      → i < length ts
      → All P ts
      → (ts' : List T) × (still : List ℕ) × (got : List Message) × (poll_at send poll s i
            (get_elem? ts i)
            ts
          ≡ done (ts', still, got))
        × (length ts' ≡ length ts)
        × All P ts'
        × Collects (length ts) 1 still got
  unfolding poll_at
  poll_at-Collects ts i h a =
      let (t, e, p) = get_elem_in P ts i h a in
      let (still, got, q, c) = after_poll-Collects (length ts) i t (poll t).0 h p refl in
      (
        set ts i (poll t).1,
        still,
        got,
        rw (e, q) refl,
        length-set ts i (poll t).1 h,
        set-All P ts i (poll t).1 a (keeps t p),
        c,
      )

  Collects-append :
      (n a b : ℕ) (still still' : List ℕ) (got got' : List Message)
      → Collects n a still got
      → Collects n b still' got'
      → Collects n (a + b) (still ++ still') (got ++ got')
  Collects-append n a b still still' got got' c d = record {
    in_range = All-append (λ i. i < n) still still' c.in_range d.in_range;
    answers = All-append (IsAnswer send poll P s.current_id) got got' c.answers d.answers;
    few = omega (arith, length-append still still', length-append got got', c.few, d.few);
  }

  poll_pending-Collects :
      (pending : List ℕ) (ts : List T)
      → All (λ i. i < length ts) pending
      → All P ts
      → (ts' : List T) × (still : List ℕ) × (got : List Message) × (poll_pending send poll s pending
            ts
          ≡ done (ts', still, got))
        × (length ts' ≡ length ts)
        × All P ts'
        × Collects (length ts) (length pending) still got
  unfolding poll_pending
  poll_pending-Collects [] ts h a =
      (ts, [], [], refl, refl, a, record { in_range = tt; answers = tt; few = omega arith })
  poll_pending-Collects (i ∷ pending) ts h a =
      let (ts', still, got, e, sz, a', c) = poll_at-Collects ts i h.0 a in
      let (ts'', still', got', e', sz', a'', d) =
        poll_pending-Collects pending ts' (subst (λ n. All (λ i. i < n) pending) (sym sz) h.1) a' in
      (
        ts'',
        still ++ still',
        got ++ got',
        rw (e, e') refl,
        sz' ∙ sz,
        a'',
        subst (λ n. Collects (length ts) n (still ++ still') (got ++ got')) (omega arith)
            (Collects-append (length ts) 1 (length pending) still still' got got' c
              (subst (λ n. Collects n (length pending) still' got') sz d)),
      )

  pub collect-answers :
      (passes : ℕ) (pending : List ℕ) (ts : List T)
      → All (λ i. i < length ts) pending
      → All P ts
      → (ts' : List T) × (got : List Message) × (collect send poll s passes pending ts
          ≡ done (ts', got))
        × All (IsAnswer send poll P s.current_id) got
        × (length got ≤ length pending)
  unfolding collect
  collect-answers passes [] ts h a = (ts, [], refl, tt, omega arith)
  collect-answers zero (i ∷ pending) ts h a = (ts, [], refl, tt, omega arith)
  collect-answers (suc passes) (i ∷ pending) ts h a =
      let (ts', still, got, e, sz, a', c) = poll_pending-Collects (i ∷ pending) ts h a in
      let (ts'', got', e', g, few) =
        collect-answers passes still ts' (subst (λ n. All (λ i. i < n) still) (sym sz) c.in_range)
          a' in
      (
        ts'',
        got ++ got',
        rw (e, e') refl,
        All-append (IsAnswer send poll P s.current_id) got got' c.answers g,
        omega (arith, length-append got got', c.few),
      )

-- For any respondents and any number of passes before the deadline, survey_with_timeout returns
-- without a panic, its id is then the current one, and there are at most as many responses as
-- respondents. Each response is a raw message without its first four bytes, which are the current
-- id, and a poll of a respondent gave this raw message after the survey was sent to it.
pub survey_with_timeout-answers :
    {T : Type 0} (send : T → Message → Bool × T) (poll : T → Option (Result Message NngError) × T)
    (s : Surveyor0State) (passes : ℕ) (msg : Message) (ts : List T)
    → (s' : Surveyor0State) × (ts' : List T) × (responses : List Message) × (survey_with_timeout
          send poll passes s msg ts
        ≡ done (s', ts', responses))
      × (s'.current_id ≡ s.next_id)
      × All
          (IsAnswer send poll
            (Reached send poll (header_push_back msg (to_be_bytes 4 s.next_id)) ts)
            s'.current_id)
          responses
      × (length responses ≤ length ts)
unfolding survey_with_timeout Surveyor0.prepare_survey message_buf
survey_with_timeout-answers send poll s passes msg ts =
    let s' : Surveyor0State = record {
      next_id = next_id_after s.next_id;
      current_id = s.next_id;
    } in
    let outgoing = header_push_back msg (to_be_bytes 4 s.next_id) in
    let x = send_survey-Sends send poll 0 outgoing ts in
    let asked = (send_survey send poll 0 outgoing ts).1 in
    let (ts', responses, e, answers, few) =
      collect-answers send poll s' (Reached send poll outgoing ts) (λ t r. polled t r) passes asked
        (send_survey send poll 0 outgoing ts).0
        (subst (λ n. All (λ j. j < n) asked) (omega (arith, x.sized)) x.in_range)
        (send_survey-All send poll (Reached send poll outgoing ts) 0 outgoing ts
          (IsIn-All (λ t. Reached send poll outgoing ts (send t outgoing).1) ts Reached.asked)) in
    (s', ts', responses, rw (e) refl, refl, answers, omega (arith, few, x.few))
