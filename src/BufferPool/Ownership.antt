-- ===== src/BufferPool/Ownership.antt =====
-- BufferPool::Acquire and Release keep the invariant of who holds which buffer.
use helianthus.Prelude.{
  ℕ, ◌<◌, ◌≡◌, refl, ◌≢◌, ap, inl, inr, Bool-cases, ltb→lt, some, List, [], ◌∷◌, arith, ltb, length,
  length-append, count, count-append, count-erase, length-erase,
}
use helianthus.BufferPool.{
  Heap, BufferPoolConfig, BufferPool, create, grow_pool, acquire_unpooled, take_available,
  after_growing, acquire_from, acquire, release, reset, delete,
}
use helianthus.BufferPool.Clients.{
  Client, IsSized, Inv, pooled, outside_pool, on_acquired, on_released, on_freed, Step, acquires,
  releases, frees, writes, Reach, here, next, growing, IsOld, created,
}
use helianthus.BufferPool.Growth.{allocate_times-Inv, grow_pool-Inv}

acquire_unpooled-Inv :
    (lent un : List ℕ) (p : BufferPool) (h : Heap)
    → Inv (growing lent un (p, h))
    → Inv (on_acquired (growing lent un (p, h)) (acquire_unpooled p h))
unfolding acquire_unpooled
acquire_unpooled-Inv lent un p h v = record {
  sized = v.sized;
  balanced = v.balanced;
  lengths = v.lengths;
  unique = v.unique;
  fresh = λ a b. ground (arith, v.fresh a);
  outside = λ a b. ground (arith, v.outside a, v.fresh a);
  single = λ a. ground (arith, v.single a, v.outside h.next);
  intact = λ a b. ground (arith, v.intact a, v.alive a, v.outside h.next);
  alive = λ a b. ground (arith, v.alive a);
  not_null = ground (arith, v.not_null);
  in_use = v.in_use;
  bounded = v.bounded;
  clean = λ on a b. ground (arith, on, v.clean on a b, v.fresh a, v.balanced a);
}

take_available-Inv :
    (avail lent un : List ℕ) (p : BufferPool) (h : Heap)
    → p.available_buffers ≡ avail
    → Inv (growing lent un (p, h))
    → Inv (on_acquired (growing lent un (p, h)) (take_available avail (p, h)))
unfolding take_available
take_available-Inv [] lent un p h e v = acquire_unpooled-Inv lent un p h v
take_available-Inv (x ∷ rest) lent un p h e v = record {
  sized = v.sized;
  balanced = λ a. omega (arith, v.balanced a, ap (count a) e);
  lengths = omega (arith, v.lengths, ap length e);
  unique = v.unique;
  fresh = v.fresh;
  outside = v.outside;
  single = v.single;
  intact = v.intact;
  alive = v.alive;
  not_null = v.not_null;
  in_use =
      omega (arith, v.in_use, v.lengths, v.bounded, ap length e, v.sized.initial, v.sized.maximum);
  bounded = v.bounded;
  clean = λ on a b. v.clean on a (omega (arith, ap (count a) e));
}

acquire_from-Inv :
    (avail lent un : List ℕ) (p : BufferPool) (h : Heap)
    → p.available_buffers ≡ avail
    → Inv (growing lent un (p, h))
    → Inv (on_acquired (growing lent un (p, h)) (acquire_from avail p h))
unfolding acquire_from after_growing
acquire_from-Inv (x ∷ rest) lent un p h e v = take_available-Inv (x ∷ rest) lent un p h e v
acquire_from-Inv [] lent un p h e v =
    elim (Bool-cases (ltb (length p.allocated_buffers) p.config.max_pool_size)) [
      | inl room ↦ rw room (
          take_available-Inv _ lent un (grow_pool (p, h)).0 (grow_pool (p, h)).1 refl
            (grow_pool-Inv lent un (p, h) (ltb→lt _ _ room) v))
      | inr full ↦ rw full (acquire_unpooled-Inv lent un p h v)
    ]

pub acquire-Inv : (s : Client) → Inv s → Inv (on_acquired s (acquire s.pool s.heap))
unfolding acquire
acquire-Inv s v = acquire_from-Inv s.pool.available_buffers s.lent s.unpooled s.pool s.heap refl v

lent_not_null : (s : Client) (ptr : ℕ) → Inv s → 0 < count ptr s.lent → ptr ≢ 0
lent_not_null s ptr v held e =
    omega (arith, v.not_null, v.balanced 0, ap (λ (a : ℕ). count a s.lent) e)

pub release-Inv :
    (s : Client) (ptr : ℕ)
    → Inv s
    → 0 < count ptr s.lent
    → Inv (on_released s ptr (release (some (pooled s.pool ptr)) s.pool s.heap))
unfolding release reset
release-Inv s ptr v held = record {
  sized = v.sized;
  balanced = λ a. ground (
    arith,
    v.balanced a,
    count-append a s.pool.available_buffers (ptr ∷ []),
    count-erase ptr a s.lent held,
  );
  lengths = omega (
    arith,
    v.lengths,
    length-append s.pool.available_buffers (ptr ∷ []),
    length-erase ptr s.lent held,
  );
  unique = v.unique;
  fresh = λ a b. ground (arith, v.fresh a);
  outside = λ a b. ground (arith, v.outside a);
  single = v.single;
  intact = λ a b. ground (arith, v.intact a b);
  alive = λ a b. ground (arith, v.alive a);
  not_null = ground (arith, v.not_null);
  in_use = omega (
    arith,
    v.in_use,
    v.lengths,
    v.bounded,
    v.sized.initial,
    v.sized.maximum,
    length-erase ptr s.lent held,
  );
  bounded = v.bounded;
  clean = λ on a b. ground (
    arith,
    on,
    v.clean on a,
    lent_not_null s ptr v held,
    count-append a s.pool.available_buffers (ptr ∷ []),
  );
}

free-Inv :
    (s : Client) (ptr : ℕ)
    → Inv s
    → 0 < count ptr s.unpooled
    → Inv (on_freed s ptr (release (some (outside_pool s.pool ptr)) s.pool s.heap))
unfolding release delete
free-Inv s ptr v held = record {
  sized = v.sized;
  balanced = v.balanced;
  lengths = v.lengths;
  unique = v.unique;
  fresh = v.fresh;
  outside = λ a b. v.outside a (omega (arith, b, count-erase ptr a s.unpooled held));
  single = λ a. omega (arith, v.single a, count-erase ptr a s.unpooled held);
  intact = λ a b. ground (arith, b, v.single a, v.intact a, count-erase ptr a s.unpooled held);
  alive = λ a b. ground (arith, v.alive a, v.outside ptr held);
  not_null = v.not_null;
  in_use = v.in_use;
  bounded = v.bounded;
  clean = v.clean;
}

Step-Inv : {s t : Client} → Step s t → Inv s → Inv t
Step-Inv {s} acquires v = acquire-Inv s v
Step-Inv {s} (releases ptr held) v = release-Inv s ptr v held
Step-Inv {s} (frees ptr held) v = free-Inv s ptr v held
Step-Inv {s} (writes ptr bytes outside) v = record {
  sized = v.sized;
  balanced = v.balanced;
  lengths = v.lengths;
  unique = v.unique;
  fresh = v.fresh;
  outside = v.outside;
  single = v.single;
  intact = v.intact;
  alive = v.alive;
  not_null = v.not_null;
  in_use = v.in_use;
  bounded = v.bounded;
  clean = λ on a b. ground (arith, on, v.clean on a b, outside);
}

create-Inv :
    (c : BufferPoolConfig) (h : Heap) → IsSized c → 0 < h.next → IsOld h → Inv (created c h)
unfolding create
create-Inv c h z pos old = allocate_times-Inv c.initial_pool_size [] [] _ (omega arith) (record {
  sized = z;
  balanced = λ a. refl;
  lengths = refl;
  unique = λ a. omega arith;
  fresh = λ a b. refl;
  outside = λ a b. absurd (omega arith);
  single = λ a. omega arith;
  intact = λ a b. absurd (omega arith);
  alive = λ a b. (old a b, refl);
  not_null = (pos, refl);
  in_use = refl;
  bounded = omega arith;
  clean = λ on a b. absurd (omega arith);
})

Reach-keeps-Inv : {s t : Client} → Inv s → Reach s t → Inv t
Reach-keeps-Inv v here = v
Reach-keeps-Inv v (next r st) = Step-Inv st (Reach-keeps-Inv v r)

-- After any sequence of acquisitions, releases of held buffers, pooled or not, and writes outside
-- the available buffers, from a new pool whose sizes are size_t values and whose allocator freed
-- only what it had handed out: every allocated buffer is either available or lent, and only once;
-- none was freed, is held as an unpooled buffer, or is null; an unpooled buffer is held once and was
-- not freed; the count in use is the number of lent buffers; the pool is within its larger limit; and with zero initialisation every available buffer
-- holds zeros.
pub Reach-Inv :
    (c : BufferPoolConfig) (h : Heap) {s : Client}
    → IsSized c
    → 0 < h.next
    → IsOld h
    → Reach (created c h) s
    → Inv s
Reach-Inv c h z pos old r = Reach-keeps-Inv (create-Inv c h z pos old) r
