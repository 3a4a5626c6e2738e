-- ===== src/Protocols/Survey.antt =====
-- Surveys and responses through both machines (src/protocols/survey.rs), delivered as in ReqRep.
use nng_core.Prelude.{
  ℕ, ◌+◌, ◌-◌, ◌%◌, ◌^◌, ◌<◌, ◌≤◌, ◌∷◌, ◌∙◌, ap, sym, ℕ_discrete, ==_iff, ==_of_ne, ◌≡◌, ◌≢◌, refl,
  arith, List, [], ◌++◌, length, length-append, ltb_of_le, take-append, drop-append, ◌==◌,
  if◌then◌else◌, Exec, done, ◌>>=◌, Result, ok, err,
}
use nng_core.Prelude.Bytes.{
  to_be_bytes, from_be_bytes, length-to_be_bytes, from_be_bytes-to_be_bytes,
}
use nng_core.Message.Heap.{Message, message_buf, from_parts, header_push_back}
use nng_core.Message.Heap.Laws.{trim_front_ok}
use nng_core.Protocols.Words.{IsU32, next_id_after}
use nng_core.Protocols.ReqRep.{delivered}
use nng_core.Protocols.Surveyor0
use nng_core.Protocols.Respondent0
use nng_core.Protocols.Surveyor0.{SurveyError, stale_survey_id, Surveyor0State}

module _ (word rest h : List ℕ) (e : length word ≡ 4) where
  long : 4 ≤ length (word ++ rest)
  long = omega (arith, length-append word rest)

  respondent_strips :
      Respondent0.process_incoming (from_parts h (word ++ rest)) ≡ done (from_parts h rest, ok word)
  unfolding Respondent0.process_incoming message_buf
  respondent_strips = rw (
    ltb_of_le (length (word ++ rest)) 4 long,
    trim_front_ok (from_parts h (word ++ rest)) 4 long,
    drop-append 4 word rest e,
    take-append 4 word rest e,
  )

  surveyor_strips :
      (s : Surveyor0State)
      → Surveyor0.process_response s (from_parts h (word ++ rest))
        ≡ done (
          from_parts h rest,
          if from_be_bytes word == s.current_id
              then ok tt
              else err (stale_survey_id (from_be_bytes word) s.current_id),
        )
  unfolding Surveyor0.process_response message_buf
  surveyor_strips s =
      rw
        (
          ltb_of_le (length (word ++ rest)) 4 long,
          trim_front_ok (from_parts h (word ++ rest)) 4 long,
          drop-append 4 word rest e,
          take-append 4 word rest e,
        )
        (ground arith)

-- A respondent's answer to a survey that it received: what it saw, and the stamped response.
unfoldable pub answer : Message → Message → Exec (Message × Result Message SurveyError)
answer survey response = do
  (seen, routing) ← Respondent0.process_incoming survey
  elim routing [
    | ok r ↦ Respondent0.prepare_response response r >>= λ stamped. done (seen, ok stamped)
    | err e ↦ done (seen, err e)
  ]

-- The id of the k-th survey after the one with this id: they count up to 2^32 - 1 and then go on
-- from 1.
abbrev pub nth_id : ℕ → ℕ → ℕ
nth_id id k = (id - 1 + k) % (2 ^ 32 - 1) + 1

zero_add : (n : ℕ) → 0 + n ≡ n
zero_add n = omega arith

-- The id of a later survey is another one.
verdict_lem : (id k : ℕ) → 1 ≤ id → IsU32 id → k < 2 ^ 32 - 1 → (id == nth_id id k) ≡ (k == 0)
verdict_lem id k pos u few = elim (ℕ_discrete k 0) [
  | yes none ↦ (==_iff id (nth_id id k)).1 (omega (arith, none)) ∙ sym ((==_iff k 0).1 none)
  | no some ↦ ==_of_ne id (nth_id id k) (λ e. some (omega (arith, e))) ∙ sym (==_of_ne k 0 some)
]

-- The surveyor asks these queries, one after the other.
unfoldable pub ask : Surveyor0State → List Message → Exec Surveyor0State
ask s [] = done s
ask s (query ∷ queries) = do (s', stamped, id) ← Surveyor0.prepare_survey s query; ask s' queries

-- A survey goes out; before its answer comes back, the surveyor asks other queries.
unfoldable pub survey_round :
    Surveyor0State
    → Message
    → List Message
    → Message
    → Exec (Message × Message × Result (Unit {0}) SurveyError)
unfolding answer
survey_round s query others response = do
  (s', stamped, id) ← Surveyor0.prepare_survey s query
  (seen, answered) ← answer (delivered stamped) response
  later ← ask s' others
  elim answered [
    | ok r ↦ Surveyor0.process_response later (delivered r) >>= λ (got, verdict).
        done (seen, got, verdict)
    | err e ↦ done (seen, stamped, err e)
  ]

ask_lem :
    (s : Surveyor0State) (queries : List Message) (id k : ℕ)
    → 1 ≤ id
    → IsU32 id
    → s.next_id ≡ nth_id id (k + 1)
    → s.current_id ≡ nth_id id k
    → (s' : Surveyor0State) × (ask s queries ≡ done s')
      × (s'.current_id ≡ nth_id id (k + length queries))
unfolding ask Surveyor0.prepare_survey message_buf
ask_lem s [] id k pos u n c = (s, refl, omega (arith, c))
ask_lem s (query ∷ queries) id k pos u n c =
    let (s', e, d) =
      ask_lem (record { next_id = next_id_after s.next_id; current_id = s.next_id }) queries id
        (k + 1) pos u (omega (arith, n)) n in
    (s', e, d ∙ omega arith)

-- A survey and its answer over a faithful transport, with the surveyor asking fewer than 2^32 - 1
-- other queries in between, from a state whose next id is a u32 and not 0: both bodies arrive, and
-- the surveyor accepts the answer exactly if it asked none in between; else the answer is stale,
-- with the survey's id and that of the latest query.
pub survey_round_lem :
    (s : Surveyor0State) (query response : List ℕ) (others : List Message)
    → 1 ≤ s.next_id
    → IsU32 s.next_id
    → length others < 2 ^ 32 - 1
    → survey_round s (from_parts [] query) others (from_parts [] response)
      ≡ done (
        from_parts [] query,
        from_parts [] response,
        if length others == 0
            then ok tt
            else err (stale_survey_id s.next_id (nth_id s.next_id (length others))),
      )
unfolding survey_round Surveyor0.prepare_survey message_buf header_push_back
    Respondent0.prepare_response
survey_round_lem s query response others pos h few =
    let (later, e, c) =
      ask_lem (record { next_id = next_id_after s.next_id; current_id = s.next_id }) others
        s.next_id 0 pos h (omega arith) (omega arith) in
    rw
      (
        respondent_strips (to_be_bytes 4 s.next_id) query [] (length-to_be_bytes 4 s.next_id),
        e,
        surveyor_strips (to_be_bytes 4 s.next_id) response [] (length-to_be_bytes 4 s.next_id)
            later,
        from_be_bytes-to_be_bytes 4 s.next_id h,
        c ∙ ap (nth_id s.next_id) (zero_add (length others)),
        ← verdict_lem s.next_id (length others) pos h few,
      )
      refl

-- The surveyor's ids are words, the next one is not 0 and not the current one.
pub record IsValid (s : Surveyor0State) : Type 0 where
  pub u32 : IsU32 s.next_id
  pub pos : 1 ≤ s.next_id
  pub fresh : s.next_id ≢ s.current_id

pub new-IsValid : IsValid Surveyor0.new
new-IsValid = omega arith

-- prepare_survey keeps a state valid, returns the next id, and makes it the current one in place
-- of another.
pub prepare_survey-IsValid :
    (s : Surveyor0State) (query : Message)
    → IsValid s
    → (s' : Surveyor0State) × (query' : Message) × (Surveyor0.prepare_survey s query
        ≡ done (s', query', s.next_id))
      × IsValid s'
      × (s'.current_id ≡ s.next_id)
      × (s'.current_id ≢ s.current_id)
unfolding Surveyor0.prepare_survey message_buf
prepare_survey-IsValid s query v = (
  record { next_id = next_id_after s.next_id; current_id = s.next_id },
  header_push_back query (to_be_bytes 4 s.next_id),
  refl,
  omega (arith, v),
  refl,
  v.fresh,
)
