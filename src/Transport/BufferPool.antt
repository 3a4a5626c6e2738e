-- ===== src/Transport/BufferPool.antt =====
-- `BufferPool` (src/transport.rs), and the two ways to receive that differ in where the body comes from.
pub mod Laws
use nng_core.Prelude.{
  ℕ, ◌*◌, ◌+◌, List, [], ◌∷◌, ◌++◌, Bool, ◌&&◌, length, replicate, ltb, leb, ◌==◌, if◌then◌else◌,
}
use nng_core.Prelude.Slices.{resize}
use nng_core.Message.Heap.{Message, into_parts}
use nng_core.Transport.Stream.{Stream}
use nng_core.Transport.Framed.{FramedTransport, Outcome}
use nng_core.Transport.Framed.Recv.{recv_inner}

pub record BufferPool : Type 0 where
  -- the last one is the last of the list
  pub bufs : List (List ℕ)
  pub max_bufs : ℕ
  pub max_buf_bytes : ℕ

abbrev pub with_capacity : ℕ → ℕ → BufferPool
with_capacity max_bufs max_buf_bytes = record {
  bufs = [];
  max_bufs = max_bufs;
  max_buf_bytes = max_buf_bytes;
}

abbrev pub new : BufferPool
new = with_capacity 16 (64 * 1024)

abbrev pub len : BufferPool → ℕ
len pool = length pool.bufs

abbrev pub is_empty : BufferPool → Bool
is_empty pool = len pool == 0

-- `capacity` is `body.capacity()`, which the allocator decides.
unfoldable pub recycle : BufferPool → Message → ℕ → BufferPool
recycle pool msg capacity =
    let (_, body) = into_parts msg in
    if ltb (length pool.bufs) pool.max_bufs && leb capacity pool.max_buf_bytes
    then record pool { bufs = pool.bufs ++ (body ∷ []) }
    else pool

-- `Vec::pop().unwrap_or_default()`: the last element and the others.
abbrev pub pop_or_default : List (List ℕ) → List ℕ × List (List ℕ)
pop_or_default [] = ([], [])
pop_or_default (b ∷ []) = (b, [])
pop_or_default (b ∷ c ∷ bs) = let (last, others) = pop_or_default (c ∷ bs) in (last, b ∷ others)

unfoldable pub take : BufferPool → List ℕ × BufferPool
take pool = let (buf, others) = pop_or_default pool.bufs in (buf, record pool { bufs = others })

-- The closure of `recv`.
abbrev pub fresh_body : Unit {0} → ℕ → List ℕ × Unit {0}
fresh_body _ n = (replicate n 0, tt)

-- The closure of `recv_pooled`.
unfoldable pub pooled_body : BufferPool → ℕ → List ℕ × BufferPool
unfolding take
pooled_body pool n = let (buf, pool') = take pool in (resize buf n 0, pool')

module _ {S : Type 0} ⦃s : Stream S⦄ where
  unfoldable pub recv : FramedTransport S → Outcome Message × FramedTransport S
  recv t = let (o, t', _) = recv_inner fresh_body t tt in (o, t')

  unfoldable pub recv_pooled :
      FramedTransport S → BufferPool → Outcome Message × FramedTransport S × BufferPool
  recv_pooled t pool = recv_inner pooled_body t pool
