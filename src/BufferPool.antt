-- ===== src/BufferPool.antt =====
-- Shared/Network/Asio/BufferPool.cpp and .h: a pool of fixed-size buffers and the manager of pools.
-- A `char*` is a number, 0 is null, and the bytes behind it stand in a heap. `new` returns a pointer
-- that was never returned before and leaves its bytes as they happen to be.
mod Clients
mod Growth
mod Ownership
mod Contents
mod Bounds
mod Manager
mod Tests
use helianthus.Prelude.{
  ℕ, zero, suc, ◌+◌, ◌-◌, ◌*◌, ◌%◌, ◌≡◌, Bool, true, false, ◌&&◌, not, Option, none, some, List, [],
  ◌∷◌, ◌++◌, ltb, ◌==◌, if◌then◌else◌, length, replicate, min, u64_mod,
}

pub record Heap : Type 0 where
  pub next : ℕ
  pub cell : ℕ → List ℕ
  pub freed : List ℕ

pub new : Heap → ℕ × Heap
new h = (h.next, record h { next = h.next + 1 })

pub delete : ℕ → Heap → Heap
delete ptr h = record h { freed = ptr ∷ h.freed }

abbrev pub write_cell : (ℕ → List ℕ) → ℕ → List ℕ → ℕ → List ℕ
write_cell cell ptr bytes other = if other == ptr then bytes else cell other

pub memset_zero : ℕ → ℕ → Heap → Heap
memset_zero ptr size h = record h { cell = write_cell h.cell ptr (replicate size 0) }

pub record BufferPoolConfig : Type 0 where
  pub buffer_size : ℕ
  pub initial_pool_size : ℕ
  pub max_pool_size : ℕ
  pub grow_step : ℕ
  pub enable_zero_init : Bool

abbrev pub default_config : BufferPoolConfig
default_config = record {
  buffer_size = 4096;
  initial_pool_size = 32;
  max_pool_size = 1024;
  grow_step = 8;
  enable_zero_init = false;
}

pub record PooledBuffer : Type 0 where
  pub data_ptr : ℕ
  pub buffer_size : ℕ
  pub pooled_flag : Bool

-- PooledBuffer::Reset
pub reset : PooledBuffer → Heap → Heap
unfolding memset_zero
reset b h =
    if not (b.data_ptr == 0) && b.pooled_flag then memset_zero b.data_ptr b.buffer_size h else h

-- The front of the queue is the head; a new allocation is appended.
pub record BufferPool : Type 0 where
  pub config : BufferPoolConfig
  pub available_buffers : List ℕ
  pub allocated_buffers : List ℕ
  pub in_use_count : ℕ

abbrev pub zero_if_enabled : BufferPoolConfig → ℕ → Heap → Heap
zero_if_enabled c ptr h = if c.enable_zero_init then memset_zero ptr c.buffer_size h else h

-- AllocateBuffer, and the push onto the available buffers that follows each of its calls.
pub allocate_available : BufferPool × Heap → BufferPool × Heap
unfolding new memset_zero
allocate_available (p, h) = (
  record p {
    available_buffers = p.available_buffers ++ (h.next ∷ []);
    allocated_buffers = p.allocated_buffers ++ (h.next ∷ []);
  },
  zero_if_enabled p.config (new h).0 (new h).1,
)

pub allocate_times : ℕ → BufferPool × Heap → BufferPool × Heap
allocate_times zero s = s
allocate_times (suc n) s = allocate_times n (allocate_available s)

-- The constructor.
pub create : BufferPoolConfig → Heap → BufferPool × Heap
create c h =
    allocate_times c.initial_pool_size
      (record { config = c; available_buffers = []; allocated_buffers = []; in_use_count = 0 }, h)

-- The destructor frees every allocated buffer.
pub delete_all : List ℕ → Heap → Heap
delete_all [] h = h
delete_all (ptr ∷ ptrs) h = delete_all ptrs (delete ptr h)

pub destroy : BufferPool → Heap → Heap
destroy p h = delete_all p.allocated_buffers h

pub grow_count : BufferPool → ℕ
grow_count p = min p.config.grow_step (p.config.max_pool_size - length p.allocated_buffers)

pub grow_pool : BufferPool × Heap → BufferPool × Heap
grow_pool s = allocate_times (grow_count s.0) s

pub record Acquired : Type 0 where
  pub buffer : PooledBuffer
  pub pool : BufferPool
  pub heap : Heap

-- A buffer outside the pool.
pub acquire_unpooled : BufferPool → Heap → Acquired
unfolding new memset_zero
acquire_unpooled p h = record {
  buffer = record { data_ptr = (new h).0; buffer_size = p.config.buffer_size; pooled_flag = false };
  pool = p;
  heap = zero_if_enabled p.config (new h).0 (new h).1;
}

pub take_available : List ℕ → BufferPool × Heap → Acquired
unfolding acquire_unpooled
take_available [] (p, h) = acquire_unpooled p h
take_available (ptr ∷ rest) (p, h) = record {
  buffer = record { data_ptr = ptr; buffer_size = p.config.buffer_size; pooled_flag = true };
  pool = record p { available_buffers = rest; in_use_count = (p.in_use_count + 1) % u64_mod };
  heap = h;
}

pub after_growing : BufferPool × Heap → Acquired
after_growing s = take_available s.0.available_buffers s

pub acquire_from : List ℕ → BufferPool → Heap → Acquired
acquire_from [] p h =
    if ltb (length p.allocated_buffers) p.config.max_pool_size
    then after_growing (grow_pool (p, h))
    else acquire_unpooled p h
acquire_from (ptr ∷ rest) p h = take_available (ptr ∷ rest) (p, h)

-- BufferPool::Acquire
pub acquire : BufferPool → Heap → Acquired
acquire p h = acquire_from p.available_buffers p h

-- BufferPool::Release; `none` is the null pointer. The count is a `size_t` and wraps below 0.
pub release : Option PooledBuffer → BufferPool → Heap → BufferPool × Heap
release none p h = (p, h)
release (some b) p h =
    if b.pooled_flag
    then (
      record p {
        available_buffers = p.available_buffers ++ (b.data_ptr ∷ []);
        in_use_count = (p.in_use_count + u64_mod - 1) % u64_mod;
      },
      if p.config.enable_zero_init then reset b h else h,
    )
    else (p, delete b.data_ptr h)

pub record PoolStats : Type 0 where
  pub total_buffers : ℕ
  pub available_buffers : ℕ
  pub in_use_buffers : ℕ
  pub buffer_size : ℕ
  pub total_memory : ℕ

pub get_stats : BufferPool → PoolStats
get_stats p = record {
  total_buffers = length p.allocated_buffers;
  available_buffers = length p.available_buffers;
  in_use_buffers = p.in_use_count;
  buffer_size = p.config.buffer_size;
  total_memory = length p.allocated_buffers * p.config.buffer_size % u64_mod;
}
