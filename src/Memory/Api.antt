-- ===== src/Memory/Api.antt =====
-- The functions of infra/infra_memory.h, with the C library's heap as a parameter.
use Prim.Native.Nat.{bit_and}
use ai_ppdb.Base.{
  ℕ, ◌-◌, ◌/◌, Bool, true, false, not, ◌&&◌, ◌||◌, [], ◌∷◌, Option, none, some, ltb, leb, ◌==◌,
  if◌then◌else◌, is_null,
}
use ai_ppdb.Base.Words.{word, add64, sub64, mul64, align_size}
use ai_ppdb.Runtime.{Runtime, handle}
use ai_ppdb.Error.{InfraError, ok, invalid_param, exists, not_ready, no_memory, system}
use ai_ppdb.Memory.{Block, Stats, MemoryConfig, Memory, header, zero_stats, zero_memory}
use ai_ppdb.Memory.Heap.{
  address, raise_peak, use_more, use_less, count_allocation, allocate_in_pool, free_in_pool,
  realloc_in_pool,
}

-- `reset_memory_state`
unfoldable pub reset_memory_state : Memory → Memory
reset_memory_state m = if m.initialized then record zero_memory { mutex = m.mutex } else zero_memory

-- The checks of `infra_memory_init` on a configuration that asks for a pool.
unfoldable pub pool_config_rejected : MemoryConfig → Bool
pool_config_rejected c =
    c.pool_initial_size == 0
    || c.pool_alignment == 0
    || ltb c.pool_alignment 8
    || not (bit_and c.pool_alignment (sub64 c.pool_alignment 1) == 0)
    || ltb c.pool_initial_size header

abbrev pub first_block : ℕ → ℕ → Block
first_block start size = record {
  addr = start;
  size = sub64 size header;
  original_size = none;
  is_used = false;
}

module _ (rt : Runtime) where
  open rt use {World}

  -- `initialize_pool`: whether `malloc` gave the memory, and the state.
  unfoldable pub initialize_pool : Memory → World → Bool × Memory × World
  initialize_pool m w =
      let size = m.config.pool_initial_size in
      let (start, w') = rt.malloc size w in
      elim start [
        | none ↦
            (false, record m { pool = let pool = m.pool in record pool { pool_start = none } }, w')
        | some p ↦ (
          true,
          record m {
            pool = record {
              pool_start = some p;
              pool_size = size;
              free_list = first_block p size ∷ [];
              used_size = 0;
              block_count = 1;
            };
            stats = zero_stats;
          },
          w',
        )
      ]

  -- `infra_memory_init`, once the checks have passed.
  unfoldable pub start_memory : MemoryConfig → Memory → World → InfraError × Memory × World
  start_memory c m w =
      let fresh = reset_memory_state m in
      let (mutex, w₁) = rt.mutex_init w in
      elim mutex [
        | none ↦ (system, reset_memory_state fresh, w₁)
        | some h ↦
            let (made, m₂, w₂) = initialize_pool (record fresh { mutex = some h; config = c }) w₁ in
            if not c.use_memory_pool
            then (ok, record fresh { mutex = some h; config = c; initialized = true }, w₁)
            else if made
            then (ok, record m₂ { initialized = true }, w₂)
            else (no_memory, reset_memory_state m₂, rt.mutex_destroy (handle h) w₂)
      ]

  unfoldable pub infra_memory_init :
      Option MemoryConfig → Memory → World → InfraError × Memory × World
  infra_memory_init none m w = (invalid_param, reset_memory_state m, w)
  infra_memory_init (some c) m w =
      if m.initialized
      then (exists, m, w)
      else if c.use_memory_pool && pool_config_rejected c
      then (invalid_param, reset_memory_state m, w)
      else start_memory c m w

  abbrev free_start : Option ℕ → World → World
  free_start none w = w
  free_start (some p) w = rt.free p w

  abbrev destroy_mutex : Option ℕ → World → World
  destroy_mutex none w = w
  destroy_mutex (some h) w = rt.mutex_destroy (handle h) w

  unfoldable pub infra_memory_cleanup : Memory → World → Memory × World
  infra_memory_cleanup m w =
      let w₁ = if m.config.use_memory_pool then free_start m.pool.pool_start w else w in
      if m.initialized
      then (record zero_memory { mutex = m.mutex }, destroy_mutex m.mutex w₁)
      else (m, w)

  -- The system branch of `allocate_memory`: the size stands in the word before the pointer.
  unfoldable pub allocate_from_system : ℕ → Memory → World → Option ℕ × Memory × World
  allocate_from_system size m w =
      let alignment = m.config.pool_alignment in
      let total_size = sub64 (add64 (add64 size 8) alignment) 1 in
      let (block, w₁) = rt.malloc total_size w in
      let found : Option ℕ × Memory × World = elim block [
        | none ↦ (none, m, w₁)
        | some p ↦
            let aligned_ptr = align_size (add64 p 8) alignment in
            (
              some aligned_ptr,
              record m { stats = use_more size m.stats },
              rt.store (sub64 aligned_ptr 8) size w₁,
            )
      ] in
      if ltb size total_size then found else (none, m, w)

  -- `allocate_memory`. The pool branch raises the peak itself.
  unfoldable pub allocate_memory : ℕ → Memory → World → Option ℕ × Memory × World
  allocate_memory size m w =
      let size' = if size == 0 then 1 else size in
      let (ptr, m₁) = allocate_in_pool size' m in
      let (ptr', m₂, w₂) = allocate_from_system size' m w in
      if m.config.use_memory_pool
      then (ptr, m₁, w)
      else (ptr', (if is_null ptr' then m₂ else record m₂ { stats = raise_peak (m₂.stats) }), w₂)

  unfoldable pub infra_malloc : ℕ → Memory → World → Option ℕ × Memory × World
  infra_malloc size m w =
      let (ptr, m', w') = allocate_memory size m w in
      if not m.initialized then (none, m, w) else (
        ptr,
        (if is_null ptr then m' else record m' { stats = count_allocation (m'.stats) }),
        w',
      )

  unfoldable pub infra_calloc : ℕ → ℕ → Memory → World → Option ℕ × Memory × World
  infra_calloc nmemb size m w =
      if not m.initialized
      then (none, m, w)
      else if nmemb == 0 || size == 0
      then (none, m, w)
      else infra_malloc (mul64 nmemb size) m w

  -- `free_memory`
  unfoldable pub free_memory : (ℕ → ℕ) → ℕ → Memory → World → Option (Memory × World)
  free_memory stale ptr m w =
      let block = sub64 ptr 8 in
      let pooled : Option (Memory × World) = elim (free_in_pool stale ptr m) [
        | none ↦ none
        | some m' ↦ some (m', w)
      ] in
      if m.config.use_memory_pool
      then pooled
      else some (record m { stats = use_less (rt.load block w) m.stats }, rt.free block w)

  unfoldable pub infra_free : (ℕ → ℕ) → Option ℕ → Memory → World → Option (Memory × World)
  infra_free stale none m w = some (m, w)
  infra_free stale (some ptr) m w =
      if not m.initialized then some (m, w) else free_memory stale ptr m w

  -- The system branch of `infra_realloc`.
  unfoldable pub realloc_from_system : ℕ → ℕ → Memory → World → Option ℕ × Memory × World
  realloc_from_system ptr size m w =
      let size_ptr = sub64 ptr 8 in
      let old_size = rt.load size_ptr w in
      let total_size = add64 8 size in
      let (block, w₁) = rt.realloc size_ptr total_size w in
      let found : Option ℕ × Memory × World = elim block [
        | none ↦ (none, m, w₁)
        | some p ↦ (
          some (add64 p 8),
          record m {
            stats = raise_peak (count_allocation (use_more size (use_less old_size m.stats)));
          },
          rt.store p size w₁,
        )
      ] in
      if ltb 8 ptr && (ltb 0 old_size && leb old_size (word - 1 - 8) && ltb size total_size)
      then found
      else (none, m, w)

  unfoldable pub infra_realloc :
      (ℕ → ℕ) → Option ℕ → ℕ → Memory → World → Option (Option ℕ × Memory × World)
  infra_realloc stale none size m w =
      if not m.initialized || size == 0 then some (none, m, w) else some (infra_malloc size m w)
  infra_realloc stale (some ptr) size m w =
      let start = address m.pool.pool_start in
      let freed : Option (Option ℕ × Memory × World) = elim (infra_free stale (some ptr) m w) [
        | none ↦ none
        | some (m', w') ↦ some (none, m', w')
      ] in
      let pooled : Option (Option ℕ × Memory × World) = elim (realloc_in_pool ptr size m) [
        | none ↦ none
        | some (ptr', m') ↦ some (ptr', m', w)
      ] in
      if not m.initialized
      then some (none, m, w)
      else if size == 0
      then freed
      else if m.config.use_memory_pool && leb start ptr && ltb ptr (add64 start m.pool.pool_size)
      then pooled
      else some (realloc_from_system ptr size m w)

-- `infra_memory_get_stats` into a caller's structure; `false` stands for a NULL pointer.
unfoldable pub infra_memory_get_stats : Bool → Memory → InfraError × Option Stats
infra_memory_get_stats given m =
    let pool = m.pool in
    let stats = m.stats in
    let overhead = mul64 pool.block_count header in
    if not given
    then (invalid_param, none)
    else if not m.initialized
    then (not_ready, none)
    else if m.config.use_memory_pool && ltb 0 pool.pool_size
    then (
      ok,
      some (record stats {
        pool_utilization = mul64 pool.used_size 100 / pool.pool_size;
        pool_fragmentation = mul64 overhead 100 / pool.pool_size;
      }),
    )
    else (ok, some (record stats { pool_utilization = 0; pool_fragmentation = 0 }))
