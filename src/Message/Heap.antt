-- ===== src/Message/Heap.antt =====
-- `struct Message` (src/message.rs): two byte vectors, and its methods.
pub mod Laws
use nng_core.Prelude.{
  ℕ, ◌+◌, ◌-◌, List, [], ◌++◌, Bool, ◌&&◌, length, take, drop, ltb, ◌==◌, if◌then◌else◌, Exec, done,
  panic, ◌>>=◌,
}
use nng_core.Prelude.Slices.{copy_at, resize}
use nng_core.Message.Buf.{MessageBuf}

pub record Message : Type 0 where
  pub header : List ℕ
  pub body : List ℕ

-- `Message::new` is the default value; `with_capacity` differs in its allocation alone.
abbrev pub new : Message
new = record { header = []; body = [] }

abbrev pub from_parts : List ℕ → List ℕ → Message
from_parts h b = record { header = h; body = b }

abbrev pub into_parts : Message → List ℕ × List ℕ
into_parts m = (m.header, m.body)

-- `Vec::drain(..n)`
unfoldable pub drain_front : List ℕ → ℕ → Exec (List ℕ)
drain_front xs n = if ltb (length xs) n then panic else done (drop n xs)

-- `truncate(len.saturating_sub(n))`; subtraction on ℕ stops at 0 as `saturating_sub` does.
unfoldable pub trim_vec_back : List ℕ → ℕ → List ℕ
trim_vec_back xs n = take (length xs - n) xs

-- The body of `push_front` and of `header_push_front`: grow, move up, copy in.
unfoldable pub push_vec_front : List ℕ → List ℕ → Exec (List ℕ)
push_vec_front xs src = do
  let old_len = length xs
  let grown = resize xs (old_len + length src) 0
  moved ← copy_at grown (length src) (take old_len grown)
  copy_at moved 0 src

unfoldable pub push_back : Message → List ℕ → Message
push_back m src = record m { body = m.body ++ src }

unfoldable pub header_push_back : Message → List ℕ → Message
header_push_back m src = record m { header = m.header ++ src }

unfoldable pub trim_front : Message → ℕ → Exec Message
trim_front m n = do rest ← drain_front m.body n; done (record m { body = rest })

unfoldable pub header_trim_front : Message → ℕ → Exec Message
header_trim_front m n = do rest ← drain_front m.header n; done (record m { header = rest })

unfoldable pub trim_back : Message → ℕ → Message
trim_back m n = record m { body = trim_vec_back m.body n }

unfoldable pub header_trim_back : Message → ℕ → Message
header_trim_back m n = record m { header = trim_vec_back m.header n }

unfoldable pub push_front : Message → List ℕ → Exec Message
push_front m src = do body' ← push_vec_front m.body src; done (record m { body = body' })

unfoldable pub header_push_front : Message → List ℕ → Exec Message
header_push_front m src = do
  header' ← push_vec_front m.header src
  done (record m { header = header' })

unfoldable pub len : Message → ℕ
len m = length m.header + length m.body

unfoldable pub is_empty : Message → Bool
is_empty m = length m.header == 0 && length m.body == 0

instance unfoldable pub message_buf : MessageBuf Message
message_buf = record {
  body = λ m. m.body;
  header = λ m. m.header;
  push_back = λ m src. done (push_back m src);
  header_push_back = λ m src. done (header_push_back m src);
  trim_front = trim_front;
}
