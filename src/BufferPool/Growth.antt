-- ===== src/BufferPool/Growth.antt =====
-- BufferPool::GrowPool and AllocateBuffer keep the invariant of who holds which buffer.
use helianthus.Prelude.{
  ℕ, zero, suc, ◌<◌, List, [], ◌∷◌, arith, length, length-append, count-append,
}
use helianthus.BufferPool.{
  Heap, BufferPool, allocate_available, allocate_times, grow_pool, grow_count,
}
use helianthus.BufferPool.Clients.{Inv, growing, HasRoom}

allocate_available-Inv :
    (lent un : List ℕ) (r : BufferPool × Heap)
    → HasRoom r.0 1
    → Inv (growing lent un r)
    → Inv (growing lent un (allocate_available r))
unfolding allocate_available
allocate_available-Inv lent un (p, h) room v = record {
  sized = v.sized;
  balanced = λ a. omega (
    arith,
    v.balanced a,
    count-append a p.allocated_buffers (h.next ∷ []),
    count-append a p.available_buffers (h.next ∷ []),
  );
  lengths = omega (
    arith,
    v.lengths,
    length-append p.allocated_buffers (h.next ∷ []),
    length-append p.available_buffers (h.next ∷ []),
  );
  unique =
      λ a. ground (arith, v.unique a, v.fresh a, count-append a p.allocated_buffers (h.next ∷ []));
  fresh = λ a b. ground (arith, v.fresh a, count-append a p.allocated_buffers (h.next ∷ []));
  outside = λ a b. ground (arith, v.outside a b, count-append a p.allocated_buffers (h.next ∷ []));
  single = v.single;
  intact = λ a b. ground (arith, v.intact a b);
  alive = λ a b. ground (arith, v.alive a, count-append a p.allocated_buffers (h.next ∷ []));
  not_null = ground (arith, v.not_null, count-append 0 p.allocated_buffers (h.next ∷ []));
  in_use = v.in_use;
  bounded = omega (arith, length-append p.allocated_buffers (h.next ∷ []));
  clean =
      λ on a b. ground (arith, on, v.clean on a, count-append a p.available_buffers (h.next ∷ []));
}

pub allocate_times-Inv :
    (n : ℕ) (lent un : List ℕ) (r : BufferPool × Heap)
    → HasRoom r.0 n
    → Inv (growing lent un r)
    → Inv (growing lent un (allocate_times n r))
unfolding allocate_times
allocate_times-Inv zero lent un r room v = v
allocate_times-Inv (suc n) lent un (p, h) room v =
    allocate_times-Inv n lent un (allocate_available (p, h))
      (unfold allocate_available in omega (arith, length-append p.allocated_buffers (h.next ∷ [])))
      (allocate_available-Inv lent un (p, h) (omega arith) v)

pub grow_pool-Inv :
    (lent un : List ℕ) (r : BufferPool × Heap)
    → length r.0.allocated_buffers < r.0.config.max_pool_size
    → Inv (growing lent un r)
    → Inv (growing lent un (grow_pool r))
unfolding grow_pool grow_count
grow_pool-Inv lent un (p, h) room v =
    allocate_times-Inv (grow_count p) lent un (p, h) (omega arith) v
