-- ===== src/BufferPool/Clients.antt =====
-- Clients of BufferPool::Acquire and Release that write to what they hold, in any order, and the
-- invariant of who holds which buffer.
use helianthus.Prelude.{
  ℕ, ◌+◌, ◌≤◌, ◌<◌, ◌≡◌, true, false, some, List, [], ◌∷◌, if◌then◌else◌, length, count, erase,
  replicate, u64_mod, max,
}
use helianthus.BufferPool.{
  Heap, BufferPoolConfig, PooledBuffer, BufferPool, Acquired, create, acquire, release, write_cell,
}

-- A pool, its heap, and the buffers that clients hold, from the pool and from outside it.
pub record Client : Type 0 where
  pub pool : BufferPool
  pub heap : Heap
  pub lent : List ℕ
  pub unpooled : List ℕ

-- The sizes are `size_t` values.
pub record IsSized (c : BufferPoolConfig) : Type 0 where
  pub initial : c.initial_pool_size < u64_mod
  pub maximum : c.max_pool_size < u64_mod

pub record Inv (s : Client) : Type 0 where
  pub sized : IsSized s.pool.config
  pub balanced :
      (a : ℕ) → count a s.pool.allocated_buffers ≡ count a s.pool.available_buffers + count a s.lent
  pub lengths : length s.pool.allocated_buffers ≡ length s.pool.available_buffers + length s.lent
  pub unique : (a : ℕ) → count a s.pool.allocated_buffers ≤ 1
  pub fresh : (a : ℕ) → s.heap.next ≤ a → count a s.pool.allocated_buffers ≡ 0
  pub outside :
      (a : ℕ) → 0 < count a s.unpooled → (a < s.heap.next) × (count a s.pool.allocated_buffers ≡ 0)
  pub single : (a : ℕ) → count a s.unpooled ≤ 1
  pub intact : (a : ℕ) → 0 < count a s.unpooled → count a s.heap.freed ≡ 0
  pub alive :
      (a : ℕ)
      → 0 < count a s.heap.freed
      → (a < s.heap.next) × (count a s.pool.allocated_buffers ≡ 0)
  pub not_null : (0 < s.heap.next) × (count 0 s.pool.allocated_buffers ≡ 0)
  pub in_use : s.pool.in_use_count ≡ length s.lent
  pub bounded :
      length s.pool.allocated_buffers
      ≤ max s.pool.config.initial_pool_size s.pool.config.max_pool_size
  pub clean :
      s.pool.config.enable_zero_init ≡ true
      → (a : ℕ) → 0 < count a s.pool.available_buffers
      → s.heap.cell a ≡ replicate s.pool.config.buffer_size 0

-- The buffer that a pool hands out for a pointer.
abbrev pub pooled : BufferPool → ℕ → PooledBuffer
pooled p ptr = record { data_ptr = ptr; buffer_size = p.config.buffer_size; pooled_flag = true }

abbrev pub on_acquired : Client → Acquired → Client
on_acquired s r = record {
  pool = r.pool;
  heap = r.heap;
  lent = if r.buffer.pooled_flag then r.buffer.data_ptr ∷ s.lent else s.lent;
  unpooled = if r.buffer.pooled_flag then s.unpooled else r.buffer.data_ptr ∷ s.unpooled;
}

abbrev pub on_released : Client → ℕ → BufferPool × Heap → Client
on_released s ptr r = record s { pool = r.0; heap = r.1; lent = erase ptr s.lent }

-- The buffer outside the pool that a pool hands out for a pointer.
abbrev pub outside_pool : BufferPool → ℕ → PooledBuffer
outside_pool p ptr = record {
  data_ptr = ptr;
  buffer_size = p.config.buffer_size;
  pooled_flag = false;
}

abbrev pub on_freed : Client → ℕ → BufferPool × Heap → Client
on_freed s ptr r = record s { pool = r.0; heap = r.1; unpooled = erase ptr s.unpooled }

-- A client acquires, gives back a buffer that it holds, from the pool or from outside it, or writes to
-- memory outside the available buffers.
pub data Step (s : Client) : Client → Type 0 where
  acquires : Step s (on_acquired s (acquire s.pool s.heap))
  releases :
      (ptr : ℕ)
      → 0 < count ptr s.lent
      → Step s (on_released s ptr (release (some (pooled s.pool ptr)) s.pool s.heap))
  frees :
      (ptr : ℕ)
      → 0 < count ptr s.unpooled
      → Step s (on_freed s ptr (release (some (outside_pool s.pool ptr)) s.pool s.heap))
  writes :
      (ptr : ℕ) (bytes : List ℕ)
      → count ptr s.pool.available_buffers ≡ 0
      → Step s (record s { heap = record (s.heap) { cell = write_cell s.heap.cell ptr bytes } })

pub data Reach (s : Client) : Client → Type 0 where
  here : Reach s s
  next : {t u : Client} → Reach s t → Step t u → Reach s u

-- A call of AllocateBuffer inside the limit.
abbrev pub growing : List ℕ → List ℕ → BufferPool × Heap → Client
growing lent un r = record { pool = r.0; heap = r.1; lent = lent; unpooled = un }

abbrev pub HasRoom : BufferPool → ℕ → Type 0
HasRoom p n = length p.allocated_buffers + n ≤ max p.config.initial_pool_size p.config.max_pool_size

-- What was freed had been allocated.
abbrev pub IsOld : Heap → Type 0
IsOld h = (a : ℕ) → 0 < count a h.freed → a < h.next

abbrev pub created : BufferPoolConfig → Heap → Client
created c h = growing [] [] (create c h)
