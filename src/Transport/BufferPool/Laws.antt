-- ===== src/Transport/BufferPool/Laws.antt =====
-- The pool keeps its bound, gives back what it took, and serves `recv_pooled` as `recv` is served.
use nng_core.Prelude.{
  ℕ, ◌≤◌, ◌<◌, ◌≡◌, refl, ap, arith, List, [], ◌∷◌, ◌++◌, length, length-append, length-replicate,
  lt→ltb, leb_of_le,
}
use nng_core.Prelude.Slices.{length-resize}
use nng_core.Message.Heap.{Message}
use nng_core.Transport.Stream
use nng_core.Transport.Stream.{Stream}
use nng_core.Transport.Framed.{FramedTransport}
use nng_core.Transport.Framed.Recv.Held.{held, IsValid}
use nng_core.Transport.Framed.Recv.Ledger.{Accounts}
use nng_core.Transport.Framed.Recv.Calls.{recv_inner-Accounts}
use nng_core.Transport.BufferPool.{
  BufferPool, recycle, take, pop_or_default, fresh_body, pooled_body, recv, recv_pooled,
}

-- The pool holds no more buffers than it may.
abbrev pub IsWithin : BufferPool → Type 0
IsWithin pool = length pool.bufs ≤ pool.max_bufs

pop_or_default-append :
    (bs : List (List ℕ)) (b : List ℕ) → pop_or_default (bs ++ (b ∷ [])) ≡ (b, bs)
pop_or_default-append [] b = refl
pop_or_default-append (c ∷ []) b = refl
pop_or_default-append (c ∷ d ∷ bs) b = ap (λ r. (r.0, c ∷ r.1)) (pop_or_default-append (d ∷ bs) b)

length-pop_or_default : (bs : List (List ℕ)) → length (pop_or_default bs).1 ≤ length bs
length-pop_or_default [] = omega arith
length-pop_or_default (b ∷ []) = omega arith
length-pop_or_default (b ∷ c ∷ bs) = omega (arith, length-pop_or_default (c ∷ bs))

-- Recycling a message keeps a pool within its count of buffers, whatever the capacity of the body.
pub recycle-IsWithin :
    (pool : BufferPool) (msg : Message) (capacity : ℕ)
    → IsWithin pool
    → IsWithin (recycle pool msg capacity)
unfolding recycle
recycle-IsWithin pool msg capacity v = ground (arith, length-append pool.bufs (msg.body ∷ []))

-- Where the pool has room and the capacity is not too large, the buffer taken after recycling a
-- message is its body, and the pool is as before.
pub take-recycle :
    (pool : BufferPool) (msg : Message) (capacity : ℕ)
    → length pool.bufs < pool.max_bufs
    → capacity ≤ pool.max_buf_bytes
    → take (recycle pool msg capacity) ≡ (msg.body, pool)
unfolding take recycle
take-recycle pool msg capacity room small =
    rw (lt→ltb (length pool.bufs) pool.max_bufs room, leb_of_le capacity pool.max_buf_bytes small)
      (ap (λ r. (r.0, record pool { bufs = r.1 })) (pop_or_default-append pool.bufs msg.body))

pub pooled_body-IsWithin :
    (pool : BufferPool) (n : ℕ) → IsWithin pool → IsWithin (pooled_body pool n).1
unfolding pooled_body take
pooled_body-IsWithin pool n v = omega (arith, length-pop_or_default pool.bufs)

length-pooled_body : (pool : BufferPool) (n : ℕ) → length (pooled_body pool n).0 ≡ n
unfolding pooled_body take
length-pooled_body pool n = length-resize (pop_or_default pool.bufs).0 n 0

module _ {S : Type 0} ⦃s : Stream S⦄ (l : Stream.IsLawful s) where
  -- On a lawful stream and from a valid state `recv` loses and doubles no byte, as `recv_inner`.
  pub recv-Accounts :
      (t : FramedTransport S)
      → IsValid t.format t.rx
      → Accounts l (held t.format t.rx) t (recv t).0 (recv t).1
  unfolding recv
  recv-Accounts t v = recv_inner-Accounts l fresh_body (λ p n. length-replicate n 0) t tt v

  -- One call of recv_pooled on a lawful stream from a valid state accounts for all bytes as
  -- recv_inner does, whatever the buffers of the pool hold.
  pub recv_pooled-Accounts :
      (t : FramedTransport S) (pool : BufferPool)
      → IsValid t.format t.rx
      → Accounts l (held t.format t.rx) t (recv_pooled t pool).0 (recv_pooled t pool).1
  unfolding recv_pooled
  recv_pooled-Accounts t pool v = recv_inner-Accounts l pooled_body length-pooled_body t pool v
