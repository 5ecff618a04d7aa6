-- ===== src/BufferPool/Bounds.antt =====
-- When BufferPool::Acquire goes outside the pool, and what the destructor frees.
use helianthus.Prelude.{
  ℕ, zero, suc, ◌+◌, ◌<◌, ◌≡◌, refl, ap, ◌∙◌, ◌⊎◌, inl, true, List, [], ◌∷◌, arith, ltb, length,
  length-append, count,
}
use helianthus.BufferPool.{
  Heap, BufferPool, allocate_available, allocate_times, grow_pool, grow_count, acquire_unpooled,
  take_available, after_growing, acquire_from, acquire, delete, delete_all, destroy,
}

-- The pool can serve one more request by itself.
abbrev pub CanServe : BufferPool → Type 0
CanServe p =
    (0 < length p.available_buffers)
    ⊎ ((length p.allocated_buffers < p.config.max_pool_size) × (0 < p.config.grow_step))

allocate_times-length :
    (n : ℕ) (r : BufferPool × Heap)
    → length (allocate_times n r).0.available_buffers ≡ length r.0.available_buffers + n
unfolding allocate_times
allocate_times-length zero r = omega arith
allocate_times-length (suc n) (p, h) =
    allocate_times-length n (allocate_available (p, h))
    ∙ unfold allocate_available in omega (arith, length-append p.available_buffers (h.next ∷ []))

pooled-flag :
    (avail : List ℕ) (r : BufferPool × Heap)
    → (take_available avail r).buffer.pooled_flag ≡ ltb 0 (length avail)
unfolding take_available acquire_unpooled
pooled-flag [] (p, h) = refl
pooled-flag (x ∷ rest) (p, h) = ground arith

acquire_from_flag :
    (avail : List ℕ) (p : BufferPool) (h : Heap)
    → p.available_buffers ≡ avail
    → ((acquire_from avail p h).buffer.pooled_flag ≡ true → CanServe p)
      × (CanServe p → (acquire_from avail p h).buffer.pooled_flag ≡ true)
unfolding acquire_from after_growing
acquire_from_flag (x ∷ rest) p h e =
    (λ f. inl (omega (arith, ap length e)), λ c. pooled-flag (x ∷ rest) (p, h) ∙ ground arith)
acquire_from_flag [] p h e =
    let grown = allocate_times-length (grow_count p) (p, h) in
    let flag = pooled-flag (grow_pool (p, h)).0.available_buffers (grow_pool (p, h)) in
    let none = ap length e in
    unfold acquire_unpooled grow_pool grow_count in
    (λ f. ground (arith, grown, flag, none, f), λ c. ground (arith, grown, flag, none, c))

-- Acquire hands out a pooled buffer exactly when one is available or the pool may still grow.
pub acquire-pooled_iff :
    (p : BufferPool) (h : Heap)
    → ((acquire p h).buffer.pooled_flag ≡ true → CanServe p)
      × (CanServe p → (acquire p h).buffer.pooled_flag ≡ true)
unfolding acquire
acquire-pooled_iff p h = acquire_from_flag p.available_buffers p h refl

delete_all-freed :
    (ptrs : List ℕ) (h : Heap) (a : ℕ)
    → count a (delete_all ptrs h).freed ≡ count a ptrs + count a h.freed
unfolding delete_all
delete_all-freed [] h a = omega arith
delete_all-freed (ptr ∷ ptrs) h a =
    delete_all-freed ptrs (delete ptr h) a ∙ unfold delete in omega arith

-- The destructor frees every allocated buffer, available or not, as often as it was allocated, and
-- nothing else.
pub destroy-freed :
    (p : BufferPool) (h : Heap) (a : ℕ)
    → count a (destroy p h).freed ≡ count a p.allocated_buffers + count a h.freed
unfolding destroy
destroy-freed p h a = delete_all-freed p.allocated_buffers h a
