-- ===== src/BufferPool/Manager.antt =====
-- BufferPoolManager, and the functions AcquireBuffer and ReleaseBuffer of BufferPool.h.
-- The map is an association list; the manager is the one instance of the program.
pub mod Returns
use helianthus.Prelude.{
  ℕ, ◌≡◌, Bool, true, false, Option, none, some, List, [], ◌∷◌, ◌++◌, map, ◌==◌, if◌then◌else◌,
}
use helianthus.BufferPool.{
  Heap, PooledBuffer, BufferPool, Acquired, PoolStats, default_config, create, acquire, release,
  get_stats,
}

pub record BufferPoolManager : Type 0 where
  pub pools : List (ℕ × BufferPool)
  pub default_pool : Option BufferPool

unfoldable pub find_pool : ℕ → List (ℕ × BufferPool) → Option BufferPool
find_pool size [] = none
find_pool size ((s, p) ∷ rest) = if s == size then some p else find_pool size rest

pub set_pool : ℕ → BufferPool → List (ℕ × BufferPool) → List (ℕ × BufferPool)
set_pool size p [] = (size, p) ∷ []
set_pool size p ((s, q) ∷ rest) = if s == size then (s, p) ∷ rest else (s, q) ∷ set_pool size p rest

-- The pool that is there, or a new one of this size.
abbrev found_or_new : ℕ → Option BufferPool → Heap → BufferPool × Heap
found_or_new size (some p) h = (p, h)
found_or_new size none h = create (record default_config { buffer_size = size }) h

pub get_pool : ℕ → BufferPoolManager → Heap → BufferPool × Heap
get_pool size m h = found_or_new size (find_pool size m.pools) h

abbrev default_or_new : Option BufferPool → Heap → BufferPool × Heap
default_or_new (some p) h = (p, h)
default_or_new none h = create default_config h

pub get_default_pool : BufferPoolManager → Heap → BufferPool × Heap
get_default_pool m h = default_or_new m.default_pool h

-- A call through the returned reference changes the pool in the manager.
abbrev pub store_pool : ℕ → BufferPool → BufferPoolManager → BufferPoolManager
store_pool size p m = record m { pools = set_pool size p m.pools }

pub record Served : Type 0 where
  pub buffer : PooledBuffer
  pub manager : BufferPoolManager
  pub heap : Heap

pub acquire_default : BufferPoolManager → Acquired → Served
acquire_default m r = record {
  buffer = r.buffer;
  manager = record m { default_pool = some r.pool };
  heap = r.heap;
}

pub acquire_sized : ℕ → BufferPoolManager → Acquired → Served
acquire_sized size m r = record {
  buffer = r.buffer;
  manager = store_pool size r.pool m;
  heap = r.heap;
}

pub acquire_buffer : ℕ → BufferPoolManager → Heap → Served
unfolding acquire_default acquire_sized
acquire_buffer size m h =
    if size == 4096
    then acquire_default m (acquire (get_default_pool m h).0 (get_default_pool m h).1)
    else acquire_sized size m (acquire (get_pool size m h).0 (get_pool size m h).1)

-- Only a pooled buffer goes back, to the pool of the map for its size.
pub release_buffer : Option PooledBuffer → BufferPoolManager → Heap → BufferPoolManager × Heap
release_buffer none m h = (m, h)
release_buffer (some b) m h =
    let r : BufferPool × Heap =
      release (some b) (get_pool b.buffer_size m h).0 (get_pool b.buffer_size m h).1 in
    if b.pooled_flag then (store_pool b.buffer_size r.0 m, r.1) else (m, h)

abbrev default_stats : Option BufferPool → List PoolStats
default_stats none = []
default_stats (some p) = get_stats p ∷ []

pub get_all_pool_stats : BufferPoolManager → List PoolStats
get_all_pool_stats m = default_stats m.default_pool ++ map (λ e. get_stats e.1) m.pools
