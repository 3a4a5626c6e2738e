-- ===== src/Socket/Receivers/Laws.antt =====
-- What `Sub0::next` returns, and a request through `Rep0::receive` and `reply`.
use nng_core.Prelude.{
  ℕ, zero, suc, ◌<◌, ◌≡◌, refl, List, [], ◌++◌, length, done, Bool-cases, inl, inr, true, false,
  Option, none, some, Result, ok, err, arith,
}
use nng_core.Message.Heap.{Message, message_buf, from_parts, header_push_back}
use nng_core.Protocols.Rep0
use nng_core.Protocols.ReqRep.{rep_strips}
use nng_core.Protocols.Sub0
use nng_core.Protocols.Sub0.{Sub0State}
use nng_core.Socket.Error.{NngError}
use nng_core.Socket.Reconnect.{ReconnectOptions}
use nng_core.Socket.Raw.{
  Link, Socket, Returns, returned, runs_on, after_attempt, recv_raw, send_raw,
}
use nng_core.Socket.Receivers.{
  resume, after_failure, after_recv, next, routed, after_wait, rep_receive, reply,
}

module _ {T W : Type 0} ⦃link : Link T⦄ (connect_transport : W → Option T × W) (attempts : ℕ)
    (subs : Sub0State) where
  module _ (msg : Message) (again : Socket T → W → Returns Message × Socket T × W)
      (rec : (s : Socket T) (w : W)
        → (again s w).0 ≡ returned (ok msg)
        → Sub0.matches subs msg ≡ true) where
    resume-matches :
        (o : Returns (Unit {0})) (s : Socket T) (w : W)
        → (resume connect_transport attempts again o s w).0 ≡ returned (ok msg)
        → Sub0.matches subs msg ≡ true
    unfolding resume
    resume-matches (returned (ok _)) s w h = rec s w h
    resume-matches (returned (err e)) s w h = cc
    resume-matches runs_on s w h = cc

    after_failure-matches :
        (e : NngError) (opts : Option ReconnectOptions) (s : Socket T) (w : W)
        → (after_failure connect_transport attempts again e opts s w).0 ≡ returned (ok msg)
        → Sub0.matches subs msg ≡ true
    unfolding after_failure
    after_failure-matches e none s w h = cc
    after_failure-matches e (some opts) s w h = resume-matches _ _ _ h

    after_recv-matches :
        (r : Result Message NngError) (s : Socket T) (w : W)
        → (after_recv connect_transport attempts again subs r s w).0 ≡ returned (ok msg)
        → Sub0.matches subs msg ≡ true
    unfolding after_recv
    after_recv-matches (ok m) s w h = elim (Bool-cases (Sub0.matches subs m)) [
      | inl passes ↦ ground (arith, rec s w)
      | inr other ↦ rec s w (ground arith)
    ]
    after_recv-matches (err e) s w h = after_failure-matches e s.reconnect s w h

  -- A message that `Sub0::next` returns matches the subscriptions, however many messages it
  -- discarded and however often it had to reconnect.
  pub next-matches :
      (fuel : ℕ) (s : Socket T) (w : W) (msg : Message)
      → (next connect_transport attempts fuel subs s w).0 ≡ returned (ok msg)
      → Sub0.matches subs msg ≡ true
  unfolding next
  next-matches zero s w msg h = cc
  next-matches (suc fuel) s w msg h =
      after_recv-matches msg (next connect_transport attempts fuel subs)
        (λ s' w'. next-matches fuel s' w' msg) _ _ w h

-- The first `k` messages of the transport arrive and match no subscription.
abbrev pub Skips : {T : Type 0} ⦃link : Link T⦄ → Sub0State → ℕ → T → Type 0
Skips subs zero t = Unit {0}
Skips ⦃link⦄ subs (suc k) t =
    ((m : Message) × ((link.recv t).0 ≡ ok m) × (Sub0.matches subs m ≡ false))
    × Skips subs k (link.recv t).1

-- The transport after `k` receives.
abbrev pub after_recvs : {T : Type 0} ⦃link : Link T⦄ → ℕ → T → T
after_recvs zero t = t
after_recvs ⦃link⦄ (suc k) t = after_recvs k (link.recv t).1

-- If k messages that match no subscription arrive and then one that matches, Sub0::next returns
-- that one after exactly these receives, given fuel for them.
pub next-delivers :
    {T W : Type 0} ⦃link : Link T⦄ (connect_transport : W → Option T × W) (attempts : ℕ)
    (subs : Sub0State) (k fuel : ℕ) (s : Socket T) (w : W) (msg : Message)
    → Skips subs k s.transport
    → (link.recv (after_recvs k s.transport)).0 ≡ ok msg
    → Sub0.matches subs msg ≡ true
    → k < fuel
    → next connect_transport attempts fuel subs s w
      ≡ (returned (ok msg), record s { transport = after_recvs (suc k) s.transport }, w)
unfolding next after_recv
next-delivers c a subs k zero s w msg f e y lt = absurd (omega arith)
next-delivers c a subs zero (suc fuel) s w msg f e y lt = rw (e, y) refl
next-delivers ⦃link⦄ c a subs (suc k) (suc fuel) s w msg f e y lt =
    let (m, got, other) = f.0 in
    rw (got, other)
      (next-delivers c a subs k fuel (record s { transport = (link.recv s.transport).1 }) w msg f.1
        e y (omega arith))

-- For a request of a word of four bytes and a body, Rep0::receive gives the body and the word, and
-- reply sends the word in front of the reply.
pub rep_receive-reply :
    {T W : Type 0} ⦃link : Link T⦄ (connect_transport : W → Option T × W) (attempts : ℕ)
    (s : Socket T) (w : W) (word query answer : List ℕ)
    → length word ≡ 4
    → (link.recv s.transport).0 ≡ ok (from_parts [] (word ++ query))
    → let s' = record s { transport = (link.recv s.transport).1 } in
      (rep_receive connect_transport attempts s w
        ≡ done (returned (ok (from_parts [] query, word)), s', w))
      × (reply connect_transport attempts s' word (from_parts [] answer) w
          ≡ done (send_raw connect_transport attempts s' (from_parts word answer) w))
unfolding rep_receive reply recv_raw after_attempt after_wait routed Rep0.prepare_reply message_buf
    header_push_back
rep_receive-reply connect_transport attempts s w word query answer four e =
    (rw (e, rep_strips word query [] four) refl, refl)
