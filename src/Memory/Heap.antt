-- ===== src/Memory/Heap.antt =====
-- The operations of infra/infra_memory.c on `g_memory`. A call runs under the module's mutex, so it
-- is one step; locking and unlocking change no field. The contents of blocks are not modelled, so
-- `infra_memset` and `infra_memcpy` have no effect here.
pub mod Valid
pub mod Take
pub mod Grant
pub mod Release
use ai_ppdb.Base.{
  ℕ, suc, zero, ◌+◌, ◌-◌, ◌*◌, ◌/◌, Bool, true, false, not, ◌&&◌, ◌||◌, List, [], ◌∷◌, Option, none,
  some, ltb, leb, ◌==◌, if◌then◌else◌, is_null,
}
use ai_ppdb.Base.Words.{word, add64, sub64, mul64, align_size}
use ai_ppdb.Runtime.{Runtime, MutexRef, handle}
use ai_ppdb.Error.{InfraError, ok, invalid_param, exists, not_ready, no_memory, system}
use ai_ppdb.Memory.{
  Block, Stats, MemoryConfig, MemoryPool, Memory, header, zero_stats, zero_pool, zero_memory,
}
use ai_ppdb.Memory.Pool.{find_free_block, take_block, split_block, block_at, replace, merge_rounds}

abbrev pub address : Option ℕ → ℕ
address none = 0
address (some p) = p

-- `if (current_usage > peak_usage) peak_usage = current_usage`
abbrev pub raise_peak : Stats → Stats
raise_peak s =
    if ltb s.peak_usage s.current_usage then record s { peak_usage = s.current_usage } else s

abbrev pub use_more : ℕ → Stats → Stats
use_more n s = record s { current_usage = add64 s.current_usage n }

abbrev pub use_less : ℕ → Stats → Stats
use_less n s = record s { current_usage = sub64 s.current_usage n }

abbrev pub count_allocation : Stats → Stats
count_allocation s = record s { total_allocations = add64 s.total_allocations 1 }

-- The size that `allocate_memory` looks for in the pool.
abbrev pub pool_request : ℕ → ℕ → ℕ
pool_request size alignment = align_size (sub64 (add64 size alignment) 1) alignment

-- The pool branch of `allocate_memory`.
unfoldable pub allocate_in_pool : ℕ → Memory → Option ℕ × Memory
allocate_in_pool size m =
    let alignment = m.config.pool_alignment in
    let aligned_size = pool_request size alignment in
    elim (find_free_block aligned_size m.pool.free_list) [
      | none ↦ (none, m)
      | some b ↦
          let new = take_block alignment size aligned_size b in
          let pool = m.pool in
          (
            some (align_size (add64 b.addr header) alignment),
            record m {
              pool = record pool {
                free_list = replace b.addr new pool.free_list;
                used_size = add64 pool.used_size aligned_size;
                block_count =
                    if ltb (add64 (add64 aligned_size header) header) b.size
                    then add64 pool.block_count 1
                    else pool.block_count;
              };
              stats = raise_peak (use_more size m.stats);
            },
          )
    ]

-- `try_merge_blocks`; two rounds suffice, and `none` means that they did not.
unfoldable pub try_merge_blocks : MemoryPool → Option MemoryPool
try_merge_blocks pool = elim (merge_rounds 2 pool.free_list pool.block_count) [
  | none ↦ none
  | some (blocks, count) ↦ some (record pool { free_list = blocks; block_count = count })
]

-- What a header's `original_size` reads as; `stale` is what the memory held before.
abbrev pub read_original : (ℕ → ℕ) → Block → ℕ
read_original stale b = elim b.original_size [ none ↦ stale b.addr | some n ↦ n ]

-- The pool branch of `free_memory`. `none`: no header stands in front of the pointer, and the code
-- takes other bytes for one.
unfoldable pub free_in_pool : (ℕ → ℕ) → ℕ → Memory → Option Memory
free_in_pool stale ptr m =
    let pool = m.pool in
    let start = address pool.pool_start in
    elim (block_at (sub64 ptr header) pool.free_list) [
      | none ↦ none
      | some b ↦
          let freed = record pool {
            free_list = replace b.addr (record b { is_used = false } ∷ []) pool.free_list;
            used_size = sub64 pool.used_size b.size;
          } in
          let done : Option Memory = elim (try_merge_blocks freed) [
            | none ↦ none
            | some merged ↦
                some (record m { pool = merged; stats = use_less (read_original stale b) m.stats })
          ] in
          if b.is_used && leb start b.addr && ltb b.addr (add64 start pool.pool_size)
          then done
          else some m
    ]

-- The loop of `allocate_from_pool`: the first block that is free and large enough.
unfoldable pub first_fit : ℕ → List Block → Option Block
first_fit size [] = none
first_fit size (b ∷ bs) = if not b.is_used && leb size b.size then some b else first_fit size bs

-- What `allocate_from_pool` makes of that block. It leaves `original_size` as it was.
unfoldable pub take_first : ℕ → Block → List Block
take_first aligned_size b =
    if leb (add64 aligned_size header) b.size
    then record b { size = sub64 aligned_size header; is_used = true }
      ∷ record {
        addr = add64 b.addr aligned_size;
        size = sub64 b.size aligned_size;
        original_size = none;
        is_used = false;
      }
      ∷ []
    else record b { is_used = true } ∷ []

-- `allocate_from_pool`, which only `infra_realloc` calls. An address that is not aligned is moved up
-- to the next multiple, which is `align_size`.
unfoldable pub allocate_from_pool : ℕ → Memory → Option ℕ × Memory
allocate_from_pool size m =
    let alignment = m.config.pool_alignment in
    let total_size = add64 header size in
    let aligned_size = align_size total_size alignment in
    let pool = m.pool in
    let found : Option ℕ × Memory = elim (first_fit aligned_size pool.free_list) [
      | none ↦ (none, m)
      | some b ↦ (
        some (align_size (add64 b.addr header) alignment),
        record m {
          pool = record pool {
            free_list = replace b.addr (take_first aligned_size b) pool.free_list;
            used_size = add64 pool.used_size aligned_size;
            block_count =
                if leb (add64 aligned_size header) b.size
                then add64 pool.block_count 1
                else pool.block_count;
          };
          stats = raise_peak (count_allocation (use_more size m.stats));
        },
      )
    ] in
    if size == 0
    then (none, m)
    else if ltb total_size size
    then (none, m)
    else if ltb aligned_size total_size
    then (none, m)
    else if ltb pool.pool_size aligned_size
    then (none, m)
    else found

-- The pool branch of `infra_realloc`. `none` as for `free_in_pool`.
unfoldable pub realloc_in_pool : ℕ → ℕ → Memory → Option (Option ℕ × Memory)
realloc_in_pool ptr size m = elim (block_at (sub64 ptr header) m.pool.free_list) [
  | none ↦ none
  | some b ↦
      let alignment = m.config.pool_alignment in
      let old_size = align_size b.size alignment in
      let new_size = align_size size alignment in
      let pool = m.pool in
      let grown_count =
        if leb header (sub64 b.size (add64 header (align_size new_size alignment)))
        then add64 pool.block_count 1
        else pool.block_count in
      let in_place : Memory = record m {
        pool = record pool {
          free_list = replace b.addr (split_block alignment new_size b) pool.free_list;
          used_size = add64 (sub64 pool.used_size old_size) new_size;
          block_count = grown_count;
        };
        stats = use_more new_size (use_less old_size m.stats);
      } in
      let (moved, m') = allocate_from_pool size m in
      let pool' = m'.pool in
      let released : MemoryPool = record pool' {
        free_list = replace b.addr (record b { is_used = false } ∷ []) pool'.free_list;
        used_size = sub64 pool'.used_size old_size;
      } in
      let after_move : Option (Option ℕ × Memory) = elim moved [
        | none ↦ some (none, m')
        | some p ↦ elim (try_merge_blocks released) [
          | none ↦ none
          | some merged ↦
              some (some p, record m' { pool = merged; stats = use_less old_size m'.stats })
        ]
      ] in
      if b.is_used
      then if leb new_size b.size then some (some ptr, in_place) else after_move
      else some (none, m)
]
