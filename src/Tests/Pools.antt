-- ===== src/Tests/Pools.antt =====
-- The theorems on the pool of infra/infra_memory.c at concrete pools.
use ai_ppdb.Base.{
  ℕ, ◌+◌, ◌≤◌, ◌≡◌, refl, ◌⊎◌, true, false, List, [], ◌∷◌, none, some, arith, All, Has, length,
}
use ai_ppdb.Base.Words.{word, align_size, sixteen}
use ai_ppdb.Error.{ok}
use ai_ppdb.Memory.{Block, Memory, MemoryConfig, zero_memory}
use ai_ppdb.Memory.Pool.{
  fits, best_fit_from, find_free_block, block_at, replace, take_block, split_block, merge_pass,
  merge_rounds,
}
use ai_ppdb.Memory.Pool.BestFit.{find_free_block-best}
use ai_ppdb.Memory.Pool.Tiles.{Tiles}
use ai_ppdb.Memory.Pool.Merge.{Apart, used_blocks, merge_rounds-two, merge_pass-keeps}
use ai_ppdb.Memory.Pool.Split.{split_block-wraps}
use ai_ppdb.Memory.Heap.{allocate_in_pool, free_in_pool, pool_request}
use ai_ppdb.Memory.Heap.Valid.{IsValid}
use ai_ppdb.Memory.Heap.Grant.{Grants, allocate_in_pool_cases}
use ai_ppdb.Memory.Heap.Release.{free_in_pool-gives_back, allocate-free}
use ai_ppdb.Memory.Api.{infra_memory_init, pool_config_rejected}
use ai_ppdb.Memory.Lifecycle.{infra_memory_init-IsValid}
use ai_ppdb.Config.{Config, default_config, infra_config_validate}
use ai_ppdb.Tests.Machine.{counter}

abbrev free_block : ℕ → ℕ → Block
free_block a n = record { addr = a; size = n; original_size = none; is_used = false }

abbrev used_block : ℕ → ℕ → ℕ → Block
used_block a n k = record { addr = a; size = n; original_size = some k; is_used = true }

abbrev config : MemoryConfig
config = record { use_memory_pool = true; pool_initial_size = 1024; pool_alignment = 16 }

-- A pool of 1024 bytes at 4096: a used block of 112 bytes that 100 were asked of, and a free one.
abbrev pool_blocks : List Block
pool_blocks = used_block 4096 112 100 ∷ free_block 4240 848 ∷ []

abbrev pool_state : Memory
pool_state = record {
  initialized = true;
  mutex = some 1;
  config = config;
  stats = record {
    current_usage = 100;
    peak_usage = 100;
    total_allocations = 1;
    pool_fragmentation = 0;
    pool_utilization = 0;
  };
  pool = record {
    pool_start = some 4096;
    pool_size = 1024;
    free_list = pool_blocks;
    used_size = 112;
    block_count = 2;
  };
}

pool_state-IsValid : IsValid 4096 pool_state
unfolding used_blocks
pool_state-IsValid = record {
  align = sixteen 16 refl;
  started = refl;
  bound = omega arith;
  tiles = (refl, refl, (refl, refl, refl));
  counted = refl;
  usage = refl;
  sized = ((100, refl, omega arith, omega arith), tt);
}

find_free_block-best_example :
    (fits 112 (free_block 4240 848) ≡ true)
    × Has (free_block 4240 848) pool_blocks
    × All (λ (c : Block). fits 112 c ≡ true → 848 ≤ c.size) pool_blocks
unfolding find_free_block best_fit_from
find_free_block-best_example = find_free_block-best 112 pool_blocks (free_block 4240 848) refl

abbrev three_blocks : List Block
three_blocks = free_block 4096 96 ∷ free_block 4224 96 ∷ used_block 4352 768 700 ∷ []

merge_rounds-two_example :
    merge_rounds 3 three_blocks 3
    ≡ some ((merge_pass three_blocks 3).0, (merge_pass three_blocks 3).2)
merge_rounds-two_example = merge_rounds-two 1 three_blocks 3

merge_pass-keeps_example :
    Tiles 16 4096 (merge_pass three_blocks 3).0 5152
    × (used_blocks (merge_pass three_blocks 3).0 ≡ used_blocks three_blocks)
    × ((merge_pass three_blocks 3).2 ≡ length (merge_pass three_blocks 3).0)
merge_pass-keeps_example =
    merge_pass-keeps 16 4096 5152 3 three_blocks (omega arith)
      (refl, refl, (refl, refl, (refl, refl, refl))) refl (omega arith)

split_block-wraps_example :
    (c : Block) × (split_block 16 112 (used_block 4096 112 100) ≡ used_block 4096 112 100 ∷ c ∷ [])
    × (c.addr ≡ 4240)
    × (word ≤ c.size + 64)
split_block-wraps_example =
    split_block-wraps 16 112 (used_block 4096 112 100) (sixteen 16 refl) refl (omega arith)
      (omega arith) (omega arith)

allocate_in_pool_cases_example :
    ((allocate_in_pool 100 pool_state ≡ (none, pool_state))
      × All (λ (c : Block). fits (pool_request 100 16) c ≡ false) pool_blocks)
    ⊎ ((p : ℕ) × (m' : Memory) × (c : Block) × (allocate_in_pool 100 pool_state ≡ (some p, m'))
        × IsValid 4096 m'
        × Grants pool_state 100 p m' c)
allocate_in_pool_cases_example =
    allocate_in_pool_cases 4096 100 pool_state pool_state-IsValid (omega arith) (omega arith)

block_at_4096 : block_at 4096 pool_blocks ≡ some (used_block 4096 112 100)
unfolding block_at
block_at_4096 = refl

free_in_pool-gives_back_example :
    (m' : Memory) × (free_in_pool (λ a. 0) 4128 pool_state ≡ some m')
    × IsValid 4096 m'
    × Apart m'.pool.free_list
    × (m'.stats.current_usage + 100 ≡ 100)
    × ((d : Block)
        → Has d pool_blocks
        → d.is_used ≡ true
        → (d ≡ used_block 4096 112 100) ⊎ Has d m'.pool.free_list)
free_in_pool-gives_back_example =
    free_in_pool-gives_back 4096 pool_state pool_state-IsValid 4128 (used_block 4096 112 100) 100
      block_at_4096 refl refl (λ a. 0)

abbrev granted_state : Memory
granted_state = (allocate_in_pool 100 pool_state).1

granted_4272 : allocate_in_pool 100 pool_state ≡ (some 4272, granted_state)
unfolding allocate_in_pool find_free_block best_fit_from take_block replace align_size
granted_4272 = refl

allocate-free_example :
    (m'' : Memory) × (free_in_pool (λ a. 0) 4272 granted_state ≡ some m'')
    × IsValid 4096 m''
    × (m''.stats.current_usage ≡ 100)
allocate-free_example =
    allocate-free 4096 100 pool_state (λ a. 0) 4272 granted_state pool_state-IsValid (omega arith)
      (omega arith) granted_4272

rejected_config : pool_config_rejected config ≡ false
unfolding pool_config_rejected
rejected_config = refl

infra_memory_init-IsValid_example :
    (m' : Memory) × (infra_memory_init counter (some config) zero_memory 1 ≡ (ok, m', 3))
    × (m'.initialized ≡ true)
    × IsValid 8192 m'
infra_memory_init-IsValid_example =
    infra_memory_init-IsValid counter config zero_memory 1 2 3 1 8192 refl refl rejected_config
      (sixteen 16 refl) refl refl refl (omega arith)

-- A pool of 16 bytes, too small for a header.
abbrev small_config : Config
small_config = record default_config {
  memory = record { use_memory_pool = true; pool_initial_size = 16; pool_alignment = 16 };
}

small_config_valid : infra_config_validate (some small_config) ≡ ok
unfolding infra_config_validate
small_config_valid = refl
