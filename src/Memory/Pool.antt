-- ===== src/Memory/Pool.antt =====
-- `memory::Pool<N>` (include/utils/memory_pool.h); the counters are 64 bits wide.
use vnic.Prelude.{ℕ, ◌+◌, ◌-◌, ◌%◌, ◌^◌, Bool, not, Option, none, some, is_some, ltb, if◌then◌else◌}
use vnic.ErrorCode.{ErrorCode, Expected, Status, ok, unexpected, done}
use vnic.Memory.Heap.{Heap, Malloc, raw_buffer, update}

-- `struct Config`
pub record Config : Type 0 where
  pub block_size : ℕ
  pub capacity : ℕ
  pub socket_id : ℕ

-- The members: `live_` and `total_` count blocks.
pub record Pool : Type 0 where
  pub config : Config
  pub live : ℕ
  pub total : ℕ

-- `Pool()`
abbrev pub empty_pool : Pool
empty_pool = record {
  config = record { block_size = 0; capacity = 0; socket_id = 0 };
  live = 0;
  total = 0;
}

-- `Config::isValid`
unfoldable pub is_valid : Config → Bool
is_valid config = ltb 0 config.capacity

-- `configure`
unfoldable pub configure : Config → Pool → Pool × Status
configure config pool =
    if not (is_valid config)
    then (pool, unexpected ErrorCode.config_pool_invalid)
    else (record pool { config = config }, done)

-- `allocate`, with the size `N` of a block.
unfoldable pub allocate : ℕ → Malloc → Pool → Heap → Pool × Heap × Expected ℕ
allocate size m pool h = elim (m.malloc size h) [
  | none ↦ (pool, h, unexpected ErrorCode.memory_pool_exhausted)
  | some p ↦ (
    record pool { live = (pool.live + 1) % 2 ^ 64; total = (pool.total + 1) % 2 ^ 64 },
    update p (some (raw_buffer size)) h,
    ok p,
  )
]

-- `deallocate` of a block; `none` if it is not allocated, which `free` leaves undefined. The code
-- never passes `nullptr`.
unfoldable pub deallocate : ℕ → Pool → Heap → Option (Pool × Heap)
deallocate p pool h =
    if is_some (h p)
    then some (record pool { live = (pool.live + 2 ^ 64 - 1) % 2 ^ 64 }, update p none h)
    else none
