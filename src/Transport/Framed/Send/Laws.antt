-- ===== src/Transport/Framed/Send/Laws.antt =====
-- What `send` puts on the stream.
use nng_core.Prelude.{
  subst, ℕ, ◌+◌, ◌≡◌, refl, ap, sym, ◌∙◌, List, [], ◌∷◌, ◌++◌, append_assoc, append-nil, length,
  length-append, ap₂, ok, err,
}
use nng_core.Prelude.Bytes.{to_be_bytes}
use nng_core.Message.Heap.{Message}
use nng_core.Codec.Frame.Laws.{payload}
use nng_core.Transport.Stream
use nng_core.Transport.Stream.{Stream}
use nng_core.Transport.Fill.{End, io_error, dropped, write_all}
use nng_core.Transport.Fill.Write.{Wrote, write_all-Wrote}
use nng_core.Transport.Framed.{FrameFormat, tcp, ipc, FramedTransport, Outcome, finished}
use nng_core.Transport.Framed.Recv.Held.{frame}
use nng_core.Transport.Framed.Send.{unless_empty, type_part, after_part, write_parts, send}

-- What may be left unwritten when a call that writes ends so.
abbrev pub LeavesUnsent : Outcome (Unit {0}) → List ℕ → Type 0
LeavesUnsent (finished (ok _)) rest = rest ≡ []
LeavesUnsent (finished (err _)) rest = Unit {0}
LeavesUnsent Outcome.cancelled rest = Unit {0}
LeavesUnsent Outcome.stuck rest = ⊥

-- The parts, one behind the other.
abbrev joined : List (List ℕ) → List ℕ
joined [] = []
joined (p ∷ ps) = p ++ joined ps

joined-append : (ps qs : List (List ℕ)) → joined (ps ++ qs) ≡ joined ps ++ joined qs
joined-append [] qs = refl
joined-append (p ∷ ps) qs =
    ap (λ t. p ++ t) (joined-append ps qs) ∙ sym (append_assoc p (joined ps) (joined qs))

joined-unless_empty : (p : List ℕ) → joined (unless_empty p) ≡ p
joined-unless_empty [] = refl
joined-unless_empty (x ∷ p) = append-nil (x ∷ p)

joined-payload :
    (msg : Message) → joined (unless_empty msg.header ++ unless_empty msg.body) ≡ payload msg
joined-payload msg =
    joined-append (unless_empty msg.header) (unless_empty msg.body)
    ∙ ap₂ ◌++◌ (joined-unless_empty msg.header) (joined-unless_empty msg.body)

total-payload : (msg : Message) → length msg.header + length msg.body ≡ length (payload msg)
total-payload msg = sym (length-append msg.header msg.body)

-- The parts that `send` writes are the frame of the payload.
joined-parts :
    (format : FrameFormat) (msg : Message)
    → joined (
        type_part format
        ++ (to_be_bytes 8 (length msg.header + length msg.body)
            ∷ (unless_empty msg.header ++ unless_empty msg.body)))
      ≡ frame format (payload msg)
joined-parts tcp msg = ap₂ (λ n b. to_be_bytes 8 n ++ b) (total-payload msg) (joined-payload msg)
joined-parts ipc msg =
    ap₂ (λ n b. 0x01 ∷ (to_be_bytes 8 n ++ b)) (total-payload msg) (joined-payload msg)

module _ {S : Type 0} ⦃s : Stream S⦄ (l : Stream.IsLawful s) where
  -- What a call that was to write `bytes` wrote of them.
  pub record Sent (from : S) (bytes : List ℕ) (o : Outcome (Unit {0})) (to : S) : Type 0 where
    pub sent : List ℕ
    pub rest : List ℕ
    pub split : bytes ≡ sent ++ rest
    pub written : l.written to ≡ l.written from ++ sent
    pub leaves : LeavesUnsent o rest

  -- A part that was not written to its end.
  Sent-stopped :
      (from to : S) (part later : List ℕ) (e : End) (o : Outcome (Unit {0}))
      → Wrote l from part e to
      → ((rest : List ℕ) → LeavesUnsent o rest)
      → Sent from (part ++ later) o to
  Sent-stopped from to part later e o w any = record {
    sent = w.sent;
    rest = w.rest ++ later;
    split = ap (λ b. b ++ later) w.split ∙ append_assoc w.sent w.rest later;
    written = w.written;
    leaves = any (w.rest ++ later);
  }

  after_part-Sent :
      (next : S → Outcome (Unit {0}) × S) (from to : S) (part later : List ℕ) (e : End)
      → Wrote l from part e to
      → Sent to later (next to).0 (next to).1
      → Sent from (part ++ later) (after_part next e to).0 (after_part next e to).1
  unfolding after_part
  after_part-Sent next from to part later End.full w x = record {
    sent = part ++ x.sent;
    rest = x.rest;
    split = ap (λ b. part ++ b) x.split ∙ sym (append_assoc part x.sent x.rest);
    written =
        x.written
        ∙ ap (λ b. b ++ x.sent)
            (w.written
              ∙ ap (λ b. l.written from ++ b)
                  (sym (w.split ∙ ap (λ b. w.sent ++ b) w.leaves ∙ append-nil w.sent)))
        ∙ append_assoc (l.written from) part x.sent;
    leaves = x.leaves;
  }
  after_part-Sent next from to part later End.closed w x =
      Sent-stopped from to part later _ _ w (λ r. tt)
  after_part-Sent next from to part later (io_error e) w x =
      Sent-stopped from to part later _ _ w (λ r. tt)
  after_part-Sent next from to part later dropped w x =
      Sent-stopped from to part later _ _ w (λ r. tt)
  after_part-Sent next from to part later End.stuck w x = absurd w.leaves

  write_parts-Sent :
      (parts : List (List ℕ)) (from : S)
      → Sent from (joined parts) (write_parts parts from).0 (write_parts parts from).1
  unfolding write_parts
  write_parts-Sent [] from = record {
    sent = [];
    rest = [];
    split = refl;
    written = sym (append-nil _);
    leaves = refl;
  }
  write_parts-Sent (p ∷ ps) from =
      after_part-Sent (write_parts ps) from _ p (joined ps) _ (write_all-Wrote l from p)
        (write_parts-Sent ps (write_all from p).1)

  -- On a lawful stream send writes the frame of the header and the body, all of it if it returns
  -- ok and otherwise a prefix of it, and its loops end.
  pub send-Sent :
      (t : FramedTransport S) (msg : Message)
      → Sent t.inner (frame t.format (payload msg)) (send t msg).0 (send t msg).1.inner
  unfolding send
  send-Sent t msg =
      subst (λ b. Sent t.inner b (send t msg).0 (send t msg).1.inner) (joined-parts t.format msg)
        (write_parts-Sent _ t.inner)
