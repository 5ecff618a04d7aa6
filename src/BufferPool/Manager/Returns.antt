-- ===== src/BufferPool/Manager/Returns.antt =====
-- Where ReleaseBuffer puts a buffer, and where AcquireBuffer had it from.
use helianthus.Prelude.{
  ◌++◌, ℕ, ◌+◌, ◌-◌, ◌%◌, ◌<◌, ◌≡◌, ◌≢◌, refl, ◌∙◌, true, false, none, some, List, [], ◌∷◌, arith,
  ◌==◌, u64_mod,
}
use helianthus.BufferPool.{
  Heap, PooledBuffer, BufferPool, Acquired, default_config, create, acquire, acquire_from, release,
  take_available, after_growing, grow_pool, grow_count, acquire_unpooled, allocate_times,
  allocate_available, delete,
}
use helianthus.BufferPool.Manager.{
  BufferPoolManager, acquire_sized, find_pool, set_pool, get_pool, acquire_buffer, release_buffer,
}

find_pool-set_pool :
    (size : ℕ) (p : BufferPool) (m : List (ℕ × BufferPool))
    → find_pool size (set_pool size p m) ≡ some p
unfolding find_pool set_pool
find_pool-set_pool size p [] = ground arith
find_pool-set_pool size p ((s, q) ∷ rest) = ground (arith, find_pool-set_pool size p rest)

in_use-allocate_times :
    (n : ℕ) (r : BufferPool × Heap) → (allocate_times n r).0.in_use_count ≡ r.0.in_use_count
unfolding allocate_times allocate_available
in_use-allocate_times ℕ.zero r = refl
in_use-allocate_times (ℕ.suc n) (p, h) = in_use-allocate_times n (allocate_available (p, h))

in_use-create :
    (size : ℕ) (h : Heap)
    → (create (record default_config { buffer_size = size }) h).0.in_use_count ≡ 0
unfolding create
in_use-create size h = in_use-allocate_times 32 _

-- While the map has no pool for its size, ReleaseBuffer gives a pooled buffer to a new pool that
-- never lent it: the count of that pool wraps to 2 ^ 64 - 1, and the default pool, which lends the
-- buffers of 4096 bytes, goes on counting the buffer as in use.
pub release_buffer_foreign :
    (m : BufferPoolManager) (h : Heap) (b : PooledBuffer)
    → b.pooled_flag ≡ true
    → find_pool b.buffer_size m.pools ≡ none
    → (q : BufferPool) × (find_pool b.buffer_size (release_buffer (some b) m h).0.pools ≡ some q)
      × (q.in_use_count ≡ u64_mod - 1)
      × ((release_buffer (some b) m h).0.default_pool ≡ m.default_pool)
unfolding release_buffer
release_buffer_foreign m h b pooled absent =
    let r : BufferPool × Heap =
      release (some b) (get_pool b.buffer_size m h).0 (get_pool b.buffer_size m h).1 in
    (
      r.0,
      simp pooled (find_pool-set_pool b.buffer_size r.0 m.pools),
      unfold release get_pool in
          simp (absent, pooled) (ground (arith, in_use-create b.buffer_size h)),
      simp pooled,
    )

-- ReleaseBuffer never frees a buffer outside the pools, where BufferPool::Release does.
pub release_buffer_leaks :
    (m : BufferPoolManager) (p : BufferPool) (h : Heap) (b : PooledBuffer)
    → b.pooled_flag ≡ false
    → (release_buffer (some b) m h ≡ (m, h))
      × ((release (some b) p h).1.freed ≡ b.data_ptr ∷ h.freed)
unfolding release_buffer release
release_buffer_leaks m p h b unpooled = (rw unpooled refl, rw unpooled (unfold delete in refl))

config-allocate_times : (n : ℕ) (r : BufferPool × Heap) → (allocate_times n r).0.config ≡ r.0.config
unfolding allocate_times allocate_available
config-allocate_times ℕ.zero r = refl
config-allocate_times (ℕ.suc n) (p, h) = config-allocate_times n (allocate_available (p, h))

-- A pooled buffer is counted, and has its pool's size.
abbrev IsCounted : BufferPool → Acquired → Type 0
IsCounted p r =
    (r.pool.in_use_count ≡ (p.in_use_count + 1) % u64_mod)
    × (r.buffer.buffer_size ≡ p.config.buffer_size)

take_available-IsCounted :
    (avail : List ℕ) (r : BufferPool × Heap)
    → (take_available avail r).buffer.pooled_flag ≡ true
    → IsCounted r.0 (take_available avail r)
unfolding take_available acquire_unpooled
take_available-IsCounted [] (p, h) pooled = cc
take_available-IsCounted (x ∷ rest) (p, h) pooled = (refl, refl)

acquire_from-IsCounted :
    (avail : List ℕ) (p : BufferPool) (h : Heap)
    → (acquire_from avail p h).buffer.pooled_flag ≡ true
    → IsCounted p (acquire_from avail p h)
unfolding acquire_from after_growing
acquire_from-IsCounted (x ∷ rest) p h pooled = take_available-IsCounted (x ∷ rest) (p, h) pooled
acquire_from-IsCounted [] p h pooled =
    let g : BufferPool × Heap = grow_pool (p, h) in
    let counted = take_available-IsCounted g.0.available_buffers g in
    let kept = in_use-allocate_times (grow_count p) (p, h) in
    let same = config-allocate_times (grow_count p) (p, h) in
    unfold grow_pool acquire_unpooled in ground (arith, counted, kept, same, pooled)

acquire-IsCounted :
    (p : BufferPool) (h : Heap)
    → (acquire p h).buffer.pooled_flag ≡ true
    → IsCounted p (acquire p h)
unfolding acquire
acquire-IsCounted p h = acquire_from-IsCounted p.available_buffers p h

-- A pool of the map gets back what it lent: when AcquireBuffer, for a size other than 4096, hands
-- out a pooled buffer from the map's pool for that size, ReleaseBuffer restores that pool's count and
-- appends the buffer to its available ones.
pub release-acquire_buffer :
    (size : ℕ) (m : BufferPoolManager) (h : Heap) (p : BufferPool)
    → size ≢ 4096
    → find_pool size m.pools ≡ some p
    → p.config.buffer_size ≡ size
    → p.in_use_count < u64_mod
    → (acquire p h).buffer.pooled_flag ≡ true
    → let r = acquire_buffer size m h in
      (q : BufferPool) × (find_pool size (release_buffer (some r.buffer) r.manager r.heap).0.pools
        ≡ some q)
      × (q.in_use_count ≡ p.in_use_count)
      × (q.available_buffers ≡ (acquire p h).pool.available_buffers ++ (r.buffer.data_ptr ∷ []))
unfolding acquire_buffer
release-acquire_buffer size m h p other found sized small pooled =
    let (counted, size') = acquire-IsCounted p h pooled in
    let r : Acquired = acquire p h in
    let q : BufferPool × Heap = release (some r.buffer) r.pool r.heap in
    let not_default : (size == 4096) ≡ false = ground (arith, other) in
    let at_size : r.buffer.buffer_size ≡ size = size' ∙ sized in
    (
      q.0,
      unfold acquire_sized release_buffer get_pool in
          simp (not_default, found) (simp (pooled, at_size) (simp find_pool-set_pool)),
      unfold release in simp pooled (omega (arith, counted)),
      unfold acquire_sized get_pool release in simp (not_default, found) (simp pooled),
    )
