-- ===== src/BufferPool/Contents.antt =====
-- What BufferPool::Acquire hands out.
use helianthus.Prelude.{
  ℕ, suc, ◌<◌, ◌≡◌, ◌≢◌, refl, ap, inl, inr, true, Bool-cases, List, [], ◌∷◌, arith, ltb, ltb→lt,
  length, count, replicate,
}
use helianthus.BufferPool.{
  Heap, BufferPool, Acquired, grow_pool, acquire_unpooled, take_available, after_growing,
  acquire_from, acquire,
}
use helianthus.BufferPool.Clients.{Client, Inv, growing}
use helianthus.BufferPool.Growth.{grow_pool-Inv}

-- A buffer that nobody holds, from the pool or from outside it: it is not lent, not null, and no
-- longer available; with zero initialisation it holds zeros. It has the pool's size.
pub record IsFree (lent un : List ℕ) (r : Acquired) : Type 0 where
  pub unlent : count r.buffer.data_ptr lent ≡ 0
  pub unheld : count r.buffer.data_ptr un ≡ 0
  pub unavailable : count r.buffer.data_ptr r.pool.available_buffers ≡ 0
  pub not_null : 0 < r.buffer.data_ptr
  pub size : r.buffer.buffer_size ≡ r.pool.config.buffer_size
  pub zeros :
      r.pool.config.enable_zero_init ≡ true
      → r.heap.cell r.buffer.data_ptr ≡ replicate r.buffer.buffer_size 0

acquire_unpooled-IsFree :
    (lent un : List ℕ) (p : BufferPool) (h : Heap)
    → Inv (growing lent un (p, h))
    → IsFree lent un (acquire_unpooled p h)
unfolding acquire_unpooled
acquire_unpooled-IsFree lent un p h v = record {
  unlent = ground (arith, v.fresh h.next, v.balanced h.next);
  unheld = ground (arith, v.outside h.next);
  unavailable = ground (arith, v.fresh h.next, v.balanced h.next);
  not_null = v.not_null.0;
  size = refl;
  zeros = λ on. ground (arith, on);
}

positive : (a : ℕ) → a ≢ 0 → 0 < a
positive a h = ground (arith, h)

take_available-IsFree :
    (avail lent un : List ℕ) (p : BufferPool) (h : Heap)
    → p.available_buffers ≡ avail
    → Inv (growing lent un (p, h))
    → IsFree lent un (take_available avail (p, h))
unfolding take_available
take_available-IsFree [] lent un p h e v = acquire_unpooled-IsFree lent un p h v
take_available-IsFree (x ∷ rest) lent un p h e v =
    let here : 0 < count x p.available_buffers = ground (arith, ap (count x) e) in
    let once : count x p.available_buffers ≡ suc (count x rest) = ground (arith, ap (count x) e) in
    record {
      unlent = ground (arith, here, v.unique x, v.balanced x);
      unheld = ground (arith, here, v.balanced x, v.outside x);
      unavailable = ground (arith, once, v.unique x, v.balanced x);
      not_null = positive x λ null.
          omega (
            arith,
            here,
            v.not_null,
            v.balanced 0,
            ap (λ (a : ℕ). count a p.available_buffers) null,
          );
      size = refl;
      zeros = λ on. v.clean on x here;
    }

acquire_from-IsFree :
    (avail lent un : List ℕ) (p : BufferPool) (h : Heap)
    → p.available_buffers ≡ avail
    → Inv (growing lent un (p, h))
    → IsFree lent un (acquire_from avail p h)
unfolding acquire_from after_growing
acquire_from-IsFree (x ∷ rest) lent un p h e v = take_available-IsFree (x ∷ rest) lent un p h e v
acquire_from-IsFree [] lent un p h e v =
    elim (Bool-cases (ltb (length p.allocated_buffers) p.config.max_pool_size)) [
      | inl room ↦ rw room (
          take_available-IsFree _ lent un (grow_pool (p, h)).0 (grow_pool (p, h)).1 refl
            (grow_pool-Inv lent un (p, h) (ltb→lt _ _ room) v))
      | inr full ↦ rw full (acquire_unpooled-IsFree lent un p h v)
    ]

-- In every state that satisfies the invariant of ownership, what Acquire returns, pooled or not, is
-- a buffer of the pool's size that is not null, that no client holds, lent or from outside the
-- pool, and that is no longer available; with zero initialisation it holds zeros, whatever earlier
-- holders wrote.
pub acquire-IsFree : (s : Client) → Inv s → IsFree s.lent s.unpooled (acquire s.pool s.heap)
unfolding acquire
acquire-IsFree s v =
    acquire_from-IsFree s.pool.available_buffers s.lent s.unpooled s.pool s.heap refl v
