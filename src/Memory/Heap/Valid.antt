-- ===== src/Memory/Heap/Valid.antt =====
-- The invariant of the pool of infra/infra_memory.c, and that allocate_memory keeps it. It covers
-- alignments of 8, 16 and 32 bytes: those divide the header's size, so a block's memory begins
-- right behind its header.
use ai_ppdb.Base.{
  ℕ, ◌+◌, ◌-◌, ◌*◌, ◌%◌, ◌≤◌, ◌<◌, ◌≡◌, inl, inr, Bool-cases, List, [], ◌∷◌, some, arith, All,
  length,
}
use ai_ppdb.Base.Words.{word, add64, sub64, IsAlign, align_size-RoundsUp, IsAlign-bounds}
use ai_ppdb.Memory.{Block, Memory, header}
use ai_ppdb.Memory.Pool.Tiles.{Tiles}
use ai_ppdb.Memory.Pool.Merge.{used_blocks}
use ai_ppdb.Memory.Pool.Update.{requested, All-first, All-rest}
use ai_ppdb.Memory.Heap.{pool_request}

-- A used block knows what was asked for, and has room for it.
abbrev pub Sized : Block → Type 0
Sized b = (n : ℕ) × (b.original_size ≡ some n) × (0 < n) × (n ≤ b.size)

-- The pool begins at `start`, its blocks tile it, and the counters agree with the blocks.
pub record IsValid (start : ℕ) (m : Memory) : Type 0 where
  pub align : IsAlign m.config.pool_alignment
  pub started : m.pool.pool_start ≡ some start
  pub bound : start + m.pool.pool_size + 128 < word
  pub tiles : Tiles m.config.pool_alignment start m.pool.free_list (start + m.pool.pool_size)
  pub counted : m.pool.block_count ≡ length m.pool.free_list
  pub usage : m.stats.current_usage ≡ requested (used_blocks m.pool.free_list)
  pub sized : All Sized (used_blocks m.pool.free_list)

-- The size looked for is a multiple of the alignment, and not less than the size asked for.
pub record IsRequest (size alignment aligned_size : ℕ) : Type 0 where
  pub enough : size ≤ aligned_size
  pub close : aligned_size < size + 2 * alignment
  pub multiple : aligned_size % alignment ≡ 0

pub pool_request-IsRequest :
    (size a : ℕ) → IsAlign a → 0 < size → size + 64 ≤ word → IsRequest size a (pool_request size a)
pool_request-IsRequest size a align pos h =
    let sum : sub64 (add64 size a) 1 ≡ size + a - 1 = omega (arith, IsAlign-bounds a align) in
    let r = align_size-RoundsUp (size + a - 1) a align (omega (arith, IsAlign-bounds a align)) in
    rw sum (record {
      enough = omega (arith, r.above, IsAlign-bounds a align);
      close = omega (arith, r.below, IsAlign-bounds a align);
      multiple = r.multiple;
    })

original-le : (b : Block) → Sized b → requested (b ∷ []) ≤ b.size
original-le b (n, e, pos, le) = ground arith

-- What callers asked for fits between the ends of the blocks.
pub requested-le :
    (a from : ℕ) (bs : List Block) (to : ℕ)
    → Tiles a from bs to
    → All Sized (used_blocks bs)
    → from + requested (used_blocks bs) ≤ to
unfolding used_blocks
requested-le a from [] to t s = omega arith
requested-le a from (b ∷ bs) to t s = elim (Bool-cases b.is_used) [
  | inl used ↦ rw used (
      omega (
        arith,
        original-le b (All-first Sized b.is_used b (used_blocks bs) used s),
        requested-le a (from + header + b.size) bs to t.2
            (All-rest Sized b.is_used b (used_blocks bs) s),
      ))
  | inr free ↦
      rw free (omega (arith, requested-le a (from + header + b.size) bs to t.2 (rw free at s)))
]
