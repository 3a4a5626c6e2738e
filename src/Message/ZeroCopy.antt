-- ===== src/Message/ZeroCopy.antt =====
-- `struct ZeroCopyMessage<N>` (src/message.rs): header and body in one fixed buffer of `n` bytes,
-- the header in front of `header_cap n`, the body behind it.
pub mod Laws
pub mod Refine
use nng_core.Prelude.{
  ℕ, ◌+◌, ◌-◌, ◌/◌, ◌%◌, ◌^◌, ◌≤◌, ◌≡◌, List, length, replicate, leb, Exec, done, ◌>>=◌, ◌>>◌,
  assert,
}
use nng_core.Prelude.Slices.{slice, copy_at}
use nng_core.Message.Buf.{MessageBuf}

pub record ZeroCopyMessage (n : ℕ) : Type 0 where
  pub buf : List ℕ
  pub h_end : ℕ
  pub b_start : ℕ
  pub b_end : ℕ

-- `Self::HEADER_CAP`, also `header_capacity()`
abbrev pub header_cap : ℕ → ℕ
header_cap n = n / 4

-- `body_capacity()`
abbrev pub body_capacity : ℕ → ℕ
body_capacity n = n - header_cap n

unfoldable pub new : (n : ℕ) → ZeroCopyMessage n
new n = record { buf = replicate n 0; h_end = 0; b_start = header_cap n; b_end = header_cap n }

module _ {n : ℕ} where
  unfoldable pub body_remaining : ZeroCopyMessage n → ℕ
  body_remaining m = n - m.b_end

  unfoldable pub body : ZeroCopyMessage n → List ℕ
  body m = slice m.buf m.b_start m.b_end

  unfoldable pub header : ZeroCopyMessage n → List ℕ
  header m = slice m.buf 0 m.h_end

  unfoldable pub push_back : ZeroCopyMessage n → List ℕ → Exec (ZeroCopyMessage n)
  push_back m src = do
    let new_end = m.b_end + length src
    assert (leb new_end n)
    buf' ← copy_at m.buf m.b_end src
    done (record m { buf = buf'; b_end = new_end })

  unfoldable pub header_push_back : ZeroCopyMessage n → List ℕ → Exec (ZeroCopyMessage n)
  header_push_back m src = do
    let new_end = m.h_end + length src
    assert (leb new_end (header_cap n))
    buf' ← copy_at m.buf m.h_end src
    done (record m { buf = buf'; h_end = new_end })

  -- The sum of two `usize` wraps around, as it does in a release build; where overflow is checked it
  -- panics. The sums of the other methods are below 2^64, since no slice or array is longer than
  -- `isize::MAX`.
  unfoldable pub trim_front : ZeroCopyMessage n → ℕ → Exec (ZeroCopyMessage n)
  trim_front m k = do
    let start = (m.b_start + k) % 2 ^ 64
    assert (leb start m.b_end)
    done (record m { b_start = start })

  instance unfoldable pub zero_copy_buf : MessageBuf (ZeroCopyMessage n)
  zero_copy_buf = record {
    body = body;
    header = header;
    push_back = push_back;
    header_push_back = header_push_back;
    trim_front = trim_front;
  }
