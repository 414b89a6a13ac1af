-- ===== src/Memory.antt =====
-- The state of infra/infra_memory.c (in ppdb/src/internal) and the types of infra_memory.h.
pub mod Pool
pub mod Heap
pub mod Api
pub mod Lifecycle
use ai_ppdb.Base.{ℕ, Bool, true, false, List, [], Option, none}

-- `sizeof(memory_block_t)` with 8-byte pointers: 8 + 8 + 8 + 1 + 4, padded to a multiple of 8.
abbrev pub header : ℕ
header = 32

-- `memory_block_t`. The field `next` is the order of the list that holds the block.
pub record Block : Type 0 where
  pub addr : ℕ
  pub size : ℕ
  -- `none`: never written
  pub original_size : Option ℕ
  pub is_used : Bool

pub record Stats : Type 0 where
  pub current_usage : ℕ
  pub peak_usage : ℕ
  pub total_allocations : ℕ
  pub pool_fragmentation : ℕ
  pub pool_utilization : ℕ

pub record MemoryConfig : Type 0 where
  pub use_memory_pool : Bool
  pub pool_initial_size : ℕ
  pub pool_alignment : ℕ

-- `memory_pool_t`. The list of all blocks, used ones too, starts at `free_list`.
pub record MemoryPool : Type 0 where
  pub pool_start : Option ℕ
  pub pool_size : ℕ
  pub free_list : List Block
  pub used_size : ℕ
  pub block_count : ℕ

-- `g_memory`
pub record Memory : Type 0 where
  pub initialized : Bool
  pub mutex : Option ℕ
  pub config : MemoryConfig
  pub stats : Stats
  pub pool : MemoryPool

abbrev pub zero_stats : Stats
zero_stats = record {
  current_usage = 0;
  peak_usage = 0;
  total_allocations = 0;
  pool_fragmentation = 0;
  pool_utilization = 0;
}

abbrev pub zero_pool : MemoryPool
zero_pool = record {
  pool_start = none;
  pool_size = 0;
  free_list = [];
  used_size = 0;
  block_count = 0;
}

abbrev pub zero_memory : Memory
zero_memory = record {
  initialized = false;
  mutex = none;
  config = record { use_memory_pool = false; pool_initial_size = 0; pool_alignment = 0 };
  stats = zero_stats;
  pool = zero_pool;
}
