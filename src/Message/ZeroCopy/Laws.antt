-- ===== src/Message/ZeroCopy/Laws.antt =====
-- The representation invariant of `ZeroCopyMessage`, and what its methods do on every branch.
use nng_core.Prelude.{
  ℕ, ◌+◌, ◌-◌, ◌%◌, ◌^◌, ◌≤◌, ◌<◌, ◌≡◌, refl, ap, sym, ◌∙◌, arith, List, ◌++◌, length, take, drop,
  length-replicate, drop-drop, done, panic,
}
use nng_core.Prelude.Slices.{
  slice, copy_at_ok, written, length-written, slice_before, slice_grows, slice_after, drop-take,
  length-slice,
}
use nng_core.Message.Buf.{IsLawful}
use nng_core.Message.ZeroCopy.{
  ZeroCopyMessage, header_cap, new, body, header, push_back, header_push_back, trim_front,
  zero_copy_buf,
}

-- The buffer has its `n` bytes, the header stays in its part, and the body lies behind it; no array
-- has more than `isize::MAX` bytes.
pub record IsValid {n : ℕ} (m : ZeroCopyMessage n) : Type 0 where
  pub sized : length m.buf ≡ n
  pub header_in : m.h_end ≤ header_cap n
  pub body_from : header_cap n ≤ m.b_start
  pub body_order : m.b_start ≤ m.b_end
  pub body_in : m.b_end ≤ n
  pub addressable : n < 2 ^ 63

pub new-IsValid : (n : ℕ) → n < 2 ^ 63 → IsValid (new n)
unfolding new
new-IsValid n h = omega (arith, length-replicate {A = ℕ} n 0)

module _ {n : ℕ} (m : ZeroCopyMessage n) (v : IsValid m) where
  pub length-body : length (body m) ≡ m.b_end - m.b_start
  unfolding body
  length-body = omega (arith, v, length-slice m.buf m.b_start m.b_end)

  pub length-header : length (header m) ≡ m.h_end
  unfolding header
  length-header = omega (arith, v, length-slice m.buf 0 m.h_end)

  -- With room, `push_back` appends to the body, keeps the header and the invariant.
  pub push_back_ok :
      (src : List ℕ)
      → m.b_end + length src ≤ n
      → (m' : ZeroCopyMessage n) × (push_back m src ≡ done m')
        × IsValid m'
        × (header m' ≡ header m)
        × (body m' ≡ body m ++ src)
  unfolding push_back body header
  push_back_ok src room = (
    record m { buf = written m.buf src m.b_end; b_end = m.b_end + length src },
    ground (arith, copy_at_ok m.buf m.b_end src),
    omega (arith, length-written m.buf src m.b_end (omega arith)),
    slice_before m.buf src m.b_end (omega arith) 0 m.h_end (omega arith) (omega arith),
    slice_grows m.buf src m.b_end (omega arith) m.b_start (omega arith),
  )

  pub push_back_full : (src : List ℕ) → n < m.b_end + length src → push_back m src ≡ panic
  unfolding push_back
  push_back_full src full = ground arith

  -- With room, `header_push_back` appends to the header, keeps the body and the invariant.
  pub header_push_back_ok :
      (src : List ℕ)
      → m.h_end + length src ≤ header_cap n
      → (m' : ZeroCopyMessage n) × (header_push_back m src ≡ done m')
        × IsValid m'
        × (header m' ≡ header m ++ src)
        × (body m' ≡ body m)
  unfolding header_push_back body header
  header_push_back_ok src room = (
    record m { buf = written m.buf src m.h_end; h_end = m.h_end + length src },
    ground (arith, copy_at_ok m.buf m.h_end src),
    omega (arith, length-written m.buf src m.h_end (omega arith)),
    slice_grows m.buf src m.h_end (omega arith) 0 (omega arith),
    slice_after m.buf src m.h_end (omega arith) m.b_start m.b_end (omega arith),
  )

  pub header_push_back_full :
      (src : List ℕ) → header_cap n < m.h_end + length src → header_push_back m src ≡ panic
  unfolding header_push_back
  header_push_back_full src full = ground arith

  unwrapped : (k : ℕ) → n + k < 2 ^ 64 → (m.b_start + k) % 2 ^ 64 ≡ m.b_start + k
  unwrapped k h = omega (arith, v)

  pub trim_front_ok :
      (k : ℕ)
      → k ≤ length (body m)
      → (m' : ZeroCopyMessage n) × (trim_front m k ≡ done m')
        × IsValid m'
        × (header m' ≡ header m)
        × (body m' ≡ drop k (body m))
  unfolding trim_front body header
  trim_front_ok k h = (
    record m { b_start = m.b_start + k },
    rw (unwrapped k (omega (arith, length-body, v))) (ground (arith, length-body)),
    omega (arith, length-body),
    refl,
    ap (λ t. take (m.b_end - (m.b_start + k)) t) (sym (drop-drop k m.b_start m.buf))
        ∙ ap (λ j. take j (drop k (drop m.b_start m.buf))) (omega arith)
        ∙ sym (drop-take k (m.b_end - m.b_start) (drop m.b_start m.buf)),
  )

  pub trim_front_over : (k : ℕ) → length (body m) < k → n + k < 2 ^ 64 → trim_front m k ≡ panic
  unfolding trim_front
  trim_front_over k h r = rw (unwrapped k r) (ground (arith, length-body))

  -- Where overflow is not checked, trim_front of a valid message by 2^64 - j, for some 0 < j up to
  -- where its body starts, does not panic: the body starts j bytes earlier and is j bytes longer.
  pub trim_front_wraps :
      (j : ℕ)
      → 0 < j
      → j ≤ m.b_start
      → (m' : ZeroCopyMessage n) × (trim_front m (2 ^ 64 - j) ≡ done m')
        × (body m' ≡ slice m.buf (m.b_start - j) m.b_end)
        × (length (body m') ≡ length (body m) + j)
  unfolding trim_front body
  trim_front_wraps j h le =
      let back : (m.b_start + (2 ^ 64 - j)) % 2 ^ 64 ≡ m.b_start - j = omega (arith, v) in
      (
        record m { b_start = m.b_start - j },
        rw (back) (ground (arith, v)),
        refl,
        omega (
          arith,
          v,
          length-slice m.buf m.b_start m.b_end,
          length-slice m.buf (m.b_start - j) m.b_end,
        ),
      )

-- `ZeroCopyMessage` keeps the promises of `MessageBuf`, as far as its two parts have room.
unfoldable pub zero_copy-IsLawful : (n : ℕ) → IsLawful (zero_copy_buf {n = n})
unfolding zero_copy_buf
zero_copy-IsLawful n = record {
  IsValid = IsValid;
  HasHeaderRoom = λ m k. m.h_end + k ≤ header_cap n;
  HasBodyRoom = λ m k. m.b_end + k ≤ n;
  push_back_lem = λ m d v room. push_back_ok m v d room;
  header_push_back_lem = λ m d v room. header_push_back_ok m v d room;
  trim_front_lem = λ m k v h. trim_front_ok m v k h;
  trim_front_over = λ m k v h r. trim_front_over m v k h (omega (arith, v, r));
}
