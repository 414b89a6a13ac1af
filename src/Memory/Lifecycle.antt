-- ===== src/Memory/Lifecycle.antt =====
-- infra_memory_init, infra_memory_cleanup and infra_malloc of infra/infra_memory.c.
use ai_ppdb.Base.{
  ℕ, ◌+◌, ◌%◌, ◌≤◌, ◌<◌, ◌≡◌, refl, ◌↔◌, true, false, [], ◌∷◌, Option, none, some, arith,
}
use ai_ppdb.Base.Words.{word, IsAlign}
use ai_ppdb.Runtime.{Runtime}
use ai_ppdb.Error.{ok}
use ai_ppdb.Memory.{Memory, MemoryConfig, header}
use ai_ppdb.Memory.Pool.Merge.{used_blocks}
use ai_ppdb.Memory.Heap.{allocate_in_pool}
use ai_ppdb.Memory.Heap.Valid.{IsValid}
use ai_ppdb.Memory.Api.{
  pool_config_rejected, reset_memory_state, first_block, initialize_pool, start_memory,
  infra_memory_init, allocate_from_system, allocate_memory, infra_malloc,
}

accepted-size : (c : MemoryConfig) → pool_config_rejected c ≡ false → header ≤ c.pool_initial_size
unfolding pool_config_rejected
accepted-size c h = ground arith

module _ (rt : Runtime) where
  open rt use {World}

  -- A module that was not initialised, given a pool configuration that passes the checks with
  -- an alignment of 8, 16 or 32, a mutex and an aligned block that ends 128 bytes below 2^64,
  -- returns ok, is initialised, and its pool satisfies the invariant.
  pub infra_memory_init-IsValid :
      (c : MemoryConfig) (m : Memory) (w w₁ w₂ : World) (h start : ℕ)
      → m.initialized ≡ false
      → c.use_memory_pool ≡ true
      → pool_config_rejected c ≡ false
      → IsAlign c.pool_alignment
      → rt.mutex_init w ≡ (some h, w₁)
      → rt.malloc c.pool_initial_size w₁ ≡ (some start, w₂)
      → start % c.pool_alignment ≡ 0
      → start + c.pool_initial_size + 128 < word
      → (m' : Memory) × (infra_memory_init rt (some c) m w ≡ (ok, m', w₂))
        × (m'.initialized ≡ true)
        × IsValid start m'
  unfolding infra_memory_init start_memory initialize_pool reset_memory_state used_blocks
  infra_memory_init-IsValid c m w w₁ w₂ h start idle pooled fine align mutex memory even bound =
      let size = accepted-size c fine in
      (
        record {
          initialized = true;
          mutex = some h;
          config = c;
          stats = record {
            current_usage = 0;
            peak_usage = 0;
            total_allocations = 0;
            pool_fragmentation = 0;
            pool_utilization = 0;
          };
          pool = record {
            pool_start = some start;
            pool_size = c.pool_initial_size;
            free_list = first_block start c.pool_initial_size ∷ [];
            used_size = 0;
            block_count = 1;
          };
        },
        ground arith,
        refl,
        record {
          align = align;
          started = refl;
          bound = bound;
          tiles = (refl, even, omega arith);
          counted = refl;
          usage = refl;
          sized = tt;
        },
      )

  -- On a module that was not initialised, the call returns INFRA_OK exactly when it leaves the module
  -- initialised.
  pub infra_memory_init-ok_iff :
      (c : Option MemoryConfig) (m : Memory) (w : World)
      → m.initialized ≡ false
      → ((infra_memory_init rt c m w).0 ≡ ok) ↔ ((infra_memory_init rt c m w).1.initialized ≡ true)
  unfolding infra_memory_init start_memory initialize_pool reset_memory_state
  infra_memory_init-ok_iff none m w idle = ground arith
  infra_memory_init-ok_iff (some c) m w idle = ground arith

  -- The peak is never below the usage after an allocation, pool or not.
  pub infra_malloc-peak :
      (size : ℕ) (m : Memory) (w : World)
      → m.stats.current_usage ≤ m.stats.peak_usage
      → (infra_malloc rt size m w).1.stats.current_usage
        ≤ (infra_malloc rt size m w).1.stats.peak_usage
  unfolding infra_malloc allocate_memory allocate_from_system allocate_in_pool
  infra_malloc-peak size m w h = ground arith
