-- ===== src/Memory/Heap/Release.antt =====
-- free_memory of infra/infra_memory.c, in the pool: it keeps the invariant, gives the block back and
-- leaves no free neighbours.
use ai_ppdb.Base.{
  ℕ, ◌+◌, ◌%◌, ◌≤◌, ◌<◌, ◌≡◌, refl, sym, subst, ap, ◌⊎◌, inl, inr, Bool, true, false, List, [], ◌∷◌,
  some, arith, All, Has, length, ltb, leb,
}
use ai_ppdb.Base.Words.{word, add64, sub64}
use ai_ppdb.Memory.{Block, Memory, header}
use ai_ppdb.Memory.Pool.{merge_pass, block_at, replace}
use ai_ppdb.Memory.Pool.Tiles.{Tiles, Tiles-within, replace-Tiles}
use ai_ppdb.Memory.Pool.Merge.{
  used_blocks, Apart, merge_pass-Apart, merge_rounds-two, merge_pass-keeps,
}
use ai_ppdb.Memory.Pool.Update.{
  requested, requested-replace, length-replace, All-replace, Has-block_at, Has-used_blocks,
  used_blocks-Has, Has-replace, Tiles-length,
}
use ai_ppdb.Memory.Heap.{allocate_in_pool, free_in_pool, try_merge_blocks, use_less, address}
use ai_ppdb.Memory.Heap.Grant.{allocate_in_pool_cases}
use ai_ppdb.Memory.Heap.Valid.{IsValid, Sized, requested-le}

-- The blocks once the header of `b` is marked free, before merging.
abbrev marked : Memory → Block → List Block
marked m b = replace b.addr (record b { is_used = false } ∷ []) m.pool.free_list

abbrev released : Memory → Block → ℕ → Memory
released m b n =
    let pass = merge_pass (marked m b) m.pool.block_count in
    let pool = m.pool in
    record m {
      pool = record pool {
        free_list = pass.0;
        used_size = sub64 pool.used_size b.size;
        block_count = pass.2;
      };
      stats = use_less n m.stats;
    }

module _ (start : ℕ) (m : Memory) (valid : IsValid start m) (p : ℕ) (b : Block) (n : ℕ)
    (headed : block_at (sub64 p header) m.pool.free_list ≡ some b) (in_use : b.is_used ≡ true)
    (recorded : b.original_size ≡ some n) where
  here : Has b m.pool.free_list × (b.addr ≡ sub64 p header)
  here = Has-block_at (sub64 p header) m.pool.free_list b headed

  at_b : block_at b.addr m.pool.free_list ≡ some b
  at_b = subst (λ q. block_at q m.pool.free_list ≡ some b) (sym here.1) headed

  place :
      (start ≤ b.addr)
      × (b.addr + header + b.size ≤ start + m.pool.pool_size)
      × (b.addr % m.config.pool_alignment ≡ 0)
  place =
      Tiles-within m.config.pool_alignment start m.pool.free_list (start + m.pool.pool_size) b
        valid.tiles here.0

  tiled : Tiles m.config.pool_alignment start (marked m b) (start + m.pool.pool_size)
  tiled =
      replace-Tiles m.config.pool_alignment start m.pool.free_list (start + m.pool.pool_size) b _
        valid.tiles at_b (refl, place.2, refl)

  as_many : length (marked m b) ≡ length m.pool.free_list
  as_many =
      omega
        (arith, length-replace b.addr (record b { is_used = false } ∷ []) m.pool.free_list b at_b)

  few : m.pool.block_count < word
  few = omega (
    arith,
    valid.counted,
    valid.bound,
    Tiles-length m.config.pool_alignment start m.pool.free_list (start + m.pool.pool_size)
        valid.tiles,
  )

  pass : List Block × Bool × ℕ
  pass = merge_pass (marked m b) m.pool.block_count

  kept :
      Tiles m.config.pool_alignment start
        (merge_pass (marked m b) m.pool.block_count).0
        (start + m.pool.pool_size)
      × (used_blocks (merge_pass (marked m b) m.pool.block_count).0 ≡ used_blocks (marked m b))
      × ((merge_pass (marked m b) m.pool.block_count).2
          ≡ length (merge_pass (marked m b) m.pool.block_count).0)
  kept =
      merge_pass-keeps m.config.pool_alignment start (start + m.pool.pool_size) m.pool.block_count
        (marked m b) (omega (arith, valid.bound)) tiled (omega (arith, valid.counted, as_many)) few

  less : requested (used_blocks (marked m b)) + n ≡ requested (used_blocks m.pool.free_list)
  unfolding used_blocks
  less =
      ground (
        arith,
        requested-replace b.addr (record b { is_used = false } ∷ []) m.pool.free_list b at_b,
      )

  All-Sized : All Sized (used_blocks (marked m b))
  unfolding used_blocks
  All-Sized =
      All-replace Sized b.addr (record b { is_used = false } ∷ []) m.pool.free_list tt valid.sized

  fits_in : requested (used_blocks m.pool.free_list) < word
  fits_in = omega (
    arith,
    valid.bound,
    requested-le m.config.pool_alignment start m.pool.free_list (start + m.pool.pool_size)
        valid.tiles valid.sized,
  )

  released-IsValid : IsValid start (released m b n)
  released-IsValid = record {
    align = valid.align;
    started = valid.started;
    bound = valid.bound;
    tiles = kept.0;
    counted = kept.2;
    usage = omega (arith, valid.usage, ap requested kept.1, less, fits_in);
    sized = rw (kept.1) All-Sized;
  }

  runs : (stale : ℕ → ℕ) → free_in_pool stale p m ≡ some (released m b n)
  unfolding free_in_pool try_merge_blocks
  runs stale =
      let low : leb (address m.pool.pool_start) b.addr ≡ true =
        rw (valid.started) (ground (arith, place)) in
      let high : ltb b.addr (add64 (address m.pool.pool_start) m.pool.pool_size) ≡ true =
        rw (valid.started) (ground (arith, place, valid.bound)) in
      rw (headed, free_in_pool)
        (rw (in_use, low, high, merge_rounds-two 0 (marked m b) m.pool.block_count, recorded) refl)

  others :
      (d : Block)
      → Has d m.pool.free_list
      → d.is_used ≡ true
      → (d ≡ b) ⊎ Has d (released m b n).pool.free_list
  others d has used =
      elim (Has-replace b.addr (record b { is_used = false } ∷ []) m.pool.free_list b d at_b has) [
        | inl same ↦ inl same
        | inr k ↦ inr (
            used_blocks-Has _ d
              (subst (Has d) (sym kept.1) (Has-used_blocks (marked m b) d k used)))
      ]

  -- On a pool that satisfies the invariant, freeing the pointer of a used block that n bytes
  -- were asked of succeeds, keeps the invariant, leaves no two free neighbours, takes n off the
  -- usage and keeps every other used block as it is.
  pub free_in_pool-gives_back :
      (stale : ℕ → ℕ)
      → (m' : Memory) × (free_in_pool stale p m ≡ some m')
        × IsValid start m'
        × Apart m'.pool.free_list
        × (m'.stats.current_usage + n ≡ m.stats.current_usage)
        × ((d : Block)
            → Has d m.pool.free_list
            → d.is_used ≡ true
            → (d ≡ b) ⊎ Has d m'.pool.free_list)
  free_in_pool-gives_back stale = (
    released m b n,
    runs stale,
    released-IsValid,
    merge_pass-Apart (marked m b) m.pool.block_count,
    omega (arith, valid.usage, less, fits_in),
    others,
  )

  -- The pool's `used_size` goes down by the whole block's size.
  pub free_in_pool-used_size :
      (stale : ℕ → ℕ)
      → (m' : Memory) × (free_in_pool stale p m ≡ some m')
        × (m'.pool.used_size ≡ sub64 m.pool.used_size b.size)
  free_in_pool-used_size stale = (released m b n, runs stale, refl)

-- On a pool that satisfies the invariant, for a size from 1 to 2^64 - 64, the pointer that an
-- allocation returns can be freed; afterwards the invariant holds and the usage is as before
-- the allocation.
pub allocate-free :
    (start size : ℕ) (m : Memory) (stale : ℕ → ℕ) (p : ℕ) (m' : Memory)
    → IsValid start m
    → 0 < size
    → size + 64 ≤ word
    → allocate_in_pool size m ≡ (some p, m')
    → (m'' : Memory) × (free_in_pool stale p m' ≡ some m'')
      × IsValid start m''
      × (m''.stats.current_usage ≡ m.stats.current_usage)
allocate-free start size m stale p m' valid pos small e =
    elim (allocate_in_pool_cases start size m valid pos small) [
      | inl (f, _) ↦ cc
      | inr (q, m₁, c, f, valid', grants) ↦
          let same_p : p ≡ q = cc in
          let same_m : m' ≡ m₁ = cc in
          let (m₂, run, valid₂, _, usage, _) =
            free_in_pool-gives_back start m₁ valid' q c size grants.headed grants.in_use
              grants.recorded stale in
          (m₂, rw (same_p, same_m) run, valid₂, omega (arith, usage, grants.counted))
    ]
