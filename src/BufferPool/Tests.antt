-- ===== src/BufferPool/Tests.antt =====
-- The buffer pool and its manager at concrete inputs.
use helianthus.Prelude.{◌≡◌, ◌<◌, count, some, true, none, [], ◌∷◌, arith}
use helianthus.BufferPool.{
  Heap, BufferPoolConfig, PooledBuffer, BufferPool, create, allocate_times, allocate_available,
  acquire, acquire_from, take_available, after_growing, grow_pool, grow_count, acquire_unpooled,
  release,
}
use helianthus.BufferPool.Clients.{
  Client, IsSized, IsOld, Inv, Reach, acquires, releases, frees, here, next, created, on_acquired,
  on_released, on_freed, pooled, outside_pool,
}
use helianthus.BufferPool.Ownership.{Reach-Inv}
use helianthus.BufferPool.Contents.{IsFree, acquire-IsFree}
use helianthus.BufferPool.Bounds.{CanServe, acquire-pooled_iff}
use helianthus.BufferPool.Manager.{BufferPoolManager}

abbrev small : BufferPoolConfig
small = record {
  buffer_size = 2;
  initial_pool_size = 1;
  max_pool_size = 2;
  grow_step = 8;
  enable_zero_init = true;
}

abbrev fresh_heap : Heap
fresh_heap = record { next = 1; cell = λ a. 9 ∷ 9 ∷ []; freed = [] }

small-IsSized : IsSized small
small-IsSized = record { initial = omega arith; maximum = omega arith }

fresh_heap-IsOld : IsOld fresh_heap
fresh_heap-IsOld = λ a b. absurd (omega arith)

abbrev acquired : Client → Client
acquired s = on_acquired s (acquire s.pool s.heap)

-- Two buffers of the pool, and one from outside it.
abbrev holding : Client
holding = acquired (acquired (acquired (created small fresh_heap)))

-- The first and the third buffer are given back.
abbrev released : Client
released = on_released holding 1 (release (some (pooled holding.pool 1)) holding.pool holding.heap)

abbrev used : Client
used =
    on_freed released 3 (release (some (outside_pool released.pool 3)) released.pool released.heap)

holds_first : 0 < count 1 holding.lent
unfolding create acquire acquire_from take_available allocate_times allocate_available after_growing
    grow_pool grow_count acquire_unpooled
holds_first = omega arith

holds_third : 0 < count 3 released.unpooled
unfolding create acquire acquire_from take_available allocate_times allocate_available after_growing
    grow_pool grow_count acquire_unpooled release
holds_third = omega arith

used-Reach : Reach (created small fresh_heap) used
used-Reach =
    next (next (next (next (next here acquires) acquires) acquires) (releases 1 holds_first))
      (frees 3 holds_third)

Reach-Inv_example : Inv used
Reach-Inv_example =
    Reach-Inv small fresh_heap small-IsSized (omega arith) fresh_heap-IsOld used-Reach

used-Inv : Inv used
used-Inv = Reach-Inv small fresh_heap small-IsSized (omega arith) fresh_heap-IsOld used-Reach

acquire-IsFree_example : IsFree used.lent used.unpooled (acquire used.pool used.heap)
acquire-IsFree_example = acquire-IsFree used used-Inv

abbrev idle : BufferPool
idle = record {
  config = small;
  available_buffers = [];
  allocated_buffers = 1 ∷ 2 ∷ [];
  in_use_count = 2;
}

acquire-pooled_iff_example :
    ((acquire idle fresh_heap).buffer.pooled_flag ≡ true → CanServe idle)
    × (CanServe idle → (acquire idle fresh_heap).buffer.pooled_flag ≡ true)
acquire-pooled_iff_example = acquire-pooled_iff idle fresh_heap

abbrev empty_manager : BufferPoolManager
empty_manager = record { pools = []; default_pool = none }

abbrev page : PooledBuffer
page = record { data_ptr = 1; buffer_size = 4096; pooled_flag = true }
