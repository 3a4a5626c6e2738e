-- ===== src/Message/Heap/Laws.antt =====
-- What the methods of `Message` do, on every branch.
use nng_core.Prelude.{
  ℕ, ◌+◌, ◌≤◌, ◌<◌, ◌≡◌, refl, ap, ◌∙◌, arith, List, ◌++◌, append-nil, length, take, drop, done,
  panic, length-append, length-take, length-replicate, take-append, drop_all, replicate,
}
use nng_core.Prelude.Slices.{copy_at_ok, copy_at_front, resize_grow}
use nng_core.Message.Buf.{IsLawful}
use nng_core.Message.Heap.{
  Message, drain_front, push_vec_front, message_buf, push_back, header_push_back, trim_front,
  push_front, header_push_front,
}

-- `push_front` and `header_push_front` grow the vector, move it up and copy the data in: no copy is
-- out of range, and the outcome is the data followed by the old contents.
pub push_vec_front_lem : (xs src : List ℕ) → push_vec_front xs src ≡ done (src ++ xs)
unfolding push_vec_front
push_vec_front_lem xs src =
    rw
      (
        resize_grow xs (length src) 0,
        take-append (length xs) xs zeros refl,
        copy_at_ok (xs ++ zeros) (length src) xs (omega (arith, total)),
      )
      (copy_at_front (take (length src) (xs ++ zeros)) src (xs ++ past)
          (omega (arith, total, length-take (length src) (xs ++ zeros)))
        ∙ ap (λ t. done (src ++ (xs ++ t))) (drop_all _ (xs ++ zeros) (omega (arith, total)))
        ∙ ap (λ t. done (src ++ t)) (append-nil xs))
  where
    zeros : List ℕ
    zeros = replicate (length src) 0

    past : List ℕ
    past = drop (length src + length xs) (xs ++ zeros)

    total : length (xs ++ zeros) ≡ length xs + length src
    total = omega (arith, length-append xs zeros, length-replicate {A = ℕ} (length src) 0)

-- push_front, which grows the vector, moves it up and copies the data in, never panics, and puts
-- the data in front of the body.
pub push_front_lem :
    (m : Message) (src : List ℕ) → push_front m src ≡ done (record m { body = src ++ m.body })
unfolding push_front
push_front_lem m src = rw (push_vec_front_lem m.body src)

pub header_push_front_lem :
    (m : Message) (src : List ℕ)
    → header_push_front m src ≡ done (record m { header = src ++ m.header })
unfolding header_push_front
header_push_front_lem m src = rw (push_vec_front_lem m.header src)

drain_front_ok : (xs : List ℕ) (n : ℕ) → n ≤ length xs → drain_front xs n ≡ done (drop n xs)
unfolding drain_front
drain_front_ok xs n h = ground arith

drain_front_over : (xs : List ℕ) (n : ℕ) → length xs < n → drain_front xs n ≡ panic
unfolding drain_front
drain_front_over xs n h = ground arith

pub trim_front_ok :
    (m : Message) (n : ℕ)
    → n ≤ length m.body
    → trim_front m n ≡ done (record m { body = drop n m.body })
unfolding trim_front
trim_front_ok m n h = rw (drain_front_ok m.body n h)

pub trim_front_over : (m : Message) (n : ℕ) → length m.body < n → trim_front m n ≡ panic
unfolding trim_front
trim_front_over m n h = rw (drain_front_over m.body n h)

-- `Message` keeps the promises of `MessageBuf`; it always has room.
unfoldable pub message-IsLawful : IsLawful message_buf
unfolding message_buf push_back header_push_back
message-IsLawful = record {
  IsValid = λ m. Unit {0};
  HasHeaderRoom = λ m n. Unit {0};
  HasBodyRoom = λ m n. Unit {0};
  push_back_lem = λ m d v r. (record m { body = m.body ++ d }, refl, tt, refl, refl);
  header_push_back_lem = λ m d v r. (record m { header = m.header ++ d }, refl, tt, refl, refl);
  trim_front_lem =
      λ m n v h. (record m { body = drop n m.body }, trim_front_ok m n h, tt, refl, refl);
  trim_front_over = λ m n v h r. trim_front_over m n h;
}
