-- ===== src/Message/ZeroCopy/Refine.antt =====
-- What a `ZeroCopyMessage` promises: it behaves as a `Message` whose header and body are bounded.
-- The space in front of a trimmed body is not used again, so the body's bound counts all bytes
-- ever pushed.
use nng_core.Prelude.{
  ℕ, ◌+◌, ◌-◌, ◌^◌, ◌<◌, ◌≡◌, All, refl, arith, List, [], ◌∷◌, length, leb, ◌⊎◌, inl, inr, dec_lt,
  Exec, done, panic, ◌>>=◌, ◌>>◌, assert, map_exec,
}
use nng_core.Prelude.Slices.{copy_at}
use nng_core.Message.Heap
use nng_core.Message.Heap.{Message, message_buf}
use nng_core.Message.Heap.Laws
use nng_core.Message.ZeroCopy
use nng_core.Message.ZeroCopy.{ZeroCopyMessage, header_cap, body_capacity}
use nng_core.Message.ZeroCopy.Laws.{
  IsValid, length-header, push_back_ok, push_back_full, header_push_back_ok, header_push_back_full,
  trim_front_ok, trim_front_over,
}

-- The calls that change a message.
pub data Op : Type 0 where
  push_back : List ℕ → Op
  header_push_back : List ℕ → Op
  trim_front : ℕ → Op

-- The sum in `trim_front` stays below 2^64.
abbrev pub InRange : ℕ → Op → Type 0
InRange n (push_back src) = Unit {0}
InRange n (header_push_back src) = Unit {0}
InRange n (trim_front k) = n + k < 2 ^ 64

-- The specification's state: a message, and how many bytes were pushed to its body.
pub record Bounded : Type 0 where
  pub msg : Message
  pub pushed : ℕ

module _ (n : ℕ) where
  unfoldable pub spec_step : Bounded → Op → Exec Bounded
  spec_step s (push_back src) = do
    assert (leb (s.pushed + length src) (body_capacity n))
    done (record { msg = Heap.push_back s.msg src; pushed = s.pushed + length src })
  spec_step s (header_push_back src) = do
    assert (leb (length s.msg.header + length src) (header_cap n))
    done (record s { msg = Heap.header_push_back s.msg src })
  spec_step s (trim_front k) = do msg' ← Heap.trim_front s.msg k; done (record s { msg = msg' })

  unfoldable pub spec_run : Bounded → List Op → Exec Bounded
  spec_run s [] = done s
  spec_run s (o ∷ os) = do s' ← spec_step s o; spec_run s' os

module _ {n : ℕ} where
  unfoldable pub step : ZeroCopyMessage n → Op → Exec (ZeroCopyMessage n)
  step m (push_back src) = ZeroCopy.push_back m src
  step m (header_push_back src) = ZeroCopy.header_push_back m src
  step m (trim_front k) = ZeroCopy.trim_front m k

  unfoldable pub run : ZeroCopyMessage n → List Op → Exec (ZeroCopyMessage n)
  run m [] = done m
  run m (o ∷ os) = do m' ← step m o; run m' os

  unfoldable pub view : ZeroCopyMessage n → Bounded
  view m = record {
    msg = record { header = ZeroCopy.header m; body = ZeroCopy.body m };
    pushed = m.b_end - header_cap n;
  }

  b_end-push_back :
      (m : ZeroCopyMessage n) (src : List ℕ) {m' : ZeroCopyMessage n}
      → ZeroCopy.push_back m src ≡ done m'
      → m'.b_end ≡ m.b_end + length src
  unfolding ZeroCopy.push_back copy_at
  b_end-push_back m src e = ground arith

  b_end-header_push_back :
      (m : ZeroCopyMessage n) (src : List ℕ) {m' : ZeroCopyMessage n}
      → ZeroCopy.header_push_back m src ≡ done m'
      → m'.b_end ≡ m.b_end
  unfolding ZeroCopy.header_push_back copy_at
  b_end-header_push_back m src e = ground arith

  b_end-trim_front :
      (m : ZeroCopyMessage n) (k : ℕ) {m' : ZeroCopyMessage n}
      → ZeroCopy.trim_front m k ≡ done m'
      → m'.b_end ≡ m.b_end
  unfolding ZeroCopy.trim_front
  b_end-trim_front m k e = ground arith

  module _ (m : ZeroCopyMessage n) (v : IsValid m) where
    -- The outcome of one call that returned: a valid message that is viewed as the specification's.
    abbrev Refines : Exec (ZeroCopyMessage n) → Exec Bounded → Type 0
    Refines r s =
        ((m' : ZeroCopyMessage n) × (r ≡ done m') × IsValid m' × (s ≡ done (view m')))
        ⊎ ((r ≡ panic) × (s ≡ panic))

    push_back-Refines :
        (src : List ℕ) → Refines (step m (push_back src)) (spec_step n (view m) (push_back src))
    unfolding step spec_step view Heap.push_back
    push_back-Refines src = elim (dec_lt n (m.b_end + length src)) [
      | yes full ↦ inr (push_back_full m v src full, ground arith)
      | no room ↦
          let (m', e, v', h, b) = push_back_ok m v src (omega arith) in
          inl (m', e, v', ground (arith, b_end-push_back m src e, h, b))
    ]

    header_push_back-Refines :
        (src : List ℕ)
        → Refines (step m (header_push_back src)) (spec_step n (view m) (header_push_back src))
    unfolding step spec_step view Heap.header_push_back
    header_push_back-Refines src = elim (dec_lt (header_cap n) (m.h_end + length src)) [
      | yes full ↦ inr (header_push_back_full m v src full, ground (arith, length-header m v))
      | no room ↦
          let (m', e, v', h, b) = header_push_back_ok m v src (omega arith) in
          inl (m', e, v', ground (arith, length-header m v, b_end-header_push_back m src e, h, b))
    ]

    trim_front-Refines :
        (k : ℕ)
        → n + k < 2 ^ 64
        → Refines (step m (trim_front k)) (spec_step n (view m) (trim_front k))
    unfolding step spec_step view
    trim_front-Refines k r = elim (dec_lt (length (ZeroCopy.body m)) k) [
      | yes over ↦ inr (trim_front_over m v k over r, rw (Laws.trim_front_over seen k over))
      | no h ↦
          let (m', e, v', eh, eb) = trim_front_ok m v k (omega arith) in
          inl (
            m',
            e,
            v',
            rw (Laws.trim_front_ok seen k (omega arith))
                (ground (arith, b_end-trim_front m k e, eh, eb)),
          )
    ]
      where
        seen : Message
        seen = record { header = ZeroCopy.header m; body = ZeroCopy.body m }

    step-Refines : (o : Op) → InRange n o → Refines (step m o) (spec_step n (view m) o)
    step-Refines (push_back src) r = push_back-Refines src
    step-Refines (header_push_back src) r = header_push_back-Refines src
    step-Refines (trim_front k) r = trim_front-Refines k r

  -- From a valid ZeroCopyMessage every sequence of calls, in which no length to trim overflows when
  -- it is added to the capacity, ends with the header, the body and the count of pushed bytes of a
  -- bounded Message after the same calls, or both panic.
  pub run_refines :
      (os : List Op) (m : ZeroCopyMessage n)
      → IsValid m
      → All (InRange n) os
      → map_exec view (run m os) ≡ spec_run n (view m) os
  unfolding run spec_run
  run_refines [] m v r = refl
  run_refines (o ∷ os) m v r = elim (step-Refines m v o r.0) [
    | inl (m', e, v', s) ↦ rw (e, s) (run_refines os m' v' r.1)
    | inr (e, s) ↦ rw (e, s)
  ]
