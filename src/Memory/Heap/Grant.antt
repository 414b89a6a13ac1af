-- ===== src/Memory/Heap/Grant.antt =====
-- allocate_memory of infra/infra_memory.c, in the pool: it keeps the invariant, and what it hands out
-- is free memory of the pool that is large enough.
use ai_ppdb.Base.{
  ℕ, ◌+◌, ◌%◌, ◌≤◌, ◌<◌, ◌≡◌, refl, ◌⊎◌, inl, inr, true, false, Option-cases, List, [], ◌∷◌, none,
  some, arith, All, Has, ltb, if◌then◌else◌,
}
use ai_ppdb.Base.Words.{
  word, add64, sub64, align_size, align_size-RoundsUp, header-aligned, IsAlign-bounds,
}
use ai_ppdb.Memory.{Block, Memory, header}
use ai_ppdb.Memory.Pool.{fits, find_free_block, take_block, block_at, replace}
use ai_ppdb.Memory.Pool.BestFit.{find_free_block-best, find_free_block-none}
use ai_ppdb.Memory.Pool.Tiles.{
  Tiles, Tiles-within, Tiles-apart, Tiles-small, block_at-Has, replace-Tiles,
}
use ai_ppdb.Memory.Pool.Merge.{used_blocks}
use ai_ppdb.Memory.Pool.Update.{requested-replace, length-replace, All-replace, Tiles-length}
use ai_ppdb.Memory.Heap.{allocate_in_pool, pool_request, raise_peak, use_more}
use ai_ppdb.Memory.Heap.Valid.{IsValid, Sized, IsRequest, pool_request-IsRequest, requested-le}
use ai_ppdb.Memory.Heap.Take.{
  take_block-Tiles, take_block-used, taken-room, taken-block_at, taken, length-take_block,
}

-- The pointer `p` is handed out by a call on `m` that leaves `m'`: a used block stands behind it
-- that is large enough and apart from all blocks that were in use.
pub record Grants (m : Memory) (size p : ℕ) (m' : Memory) (c : Block) : Type 0 where
  pub headed : block_at (sub64 p header) m'.pool.free_list ≡ some c
  pub behind : p ≡ c.addr + header
  pub aligned : p % m.config.pool_alignment ≡ 0
  pub in_use : c.is_used ≡ true
  pub recorded : c.original_size ≡ some size
  pub room : size ≤ c.size
  pub counted : m'.stats.current_usage ≡ m.stats.current_usage + size
  pub apart :
      (d : Block)
      → Has d m.pool.free_list
      → d.is_used ≡ true
      → (c.addr + header + c.size ≤ d.addr) ⊎ (d.addr + header + d.size ≤ c.addr)

-- The state and the pointer that `allocate_in_pool` returns once it has found the block `b`.
abbrev granted : ℕ → Memory → Block → Memory
granted size m b =
    let a = m.config.pool_alignment in
    let aligned = pool_request size a in
    let pool = m.pool in
    record m {
      pool = record pool {
        free_list = replace b.addr (take_block a size aligned b) pool.free_list;
        used_size = add64 pool.used_size aligned;
        block_count =
            if ltb (add64 (add64 aligned header) header) b.size
            then add64 pool.block_count 1
            else pool.block_count;
      };
      stats = raise_peak (use_more size m.stats);
    }

module _ (start size : ℕ) (m : Memory) (valid : IsValid start m) (pos : 0 < size)
    (small : size + 64 ≤ word) where
  module _ (b : Block)
      (found : find_free_block (pool_request size m.config.pool_alignment) m.pool.free_list
        ≡ some b) where
    abbrev aligned : ℕ
    aligned = pool_request size m.config.pool_alignment

    request : IsRequest size m.config.pool_alignment aligned
    request = pool_request-IsRequest size m.config.pool_alignment valid.align pos small

    best : (fits aligned b ≡ true) × Has b m.pool.free_list
    best = let (fit, has, _) = find_free_block-best aligned m.pool.free_list b found in (fit, has)

    place :
        (start ≤ b.addr)
        × (b.addr + header + b.size ≤ start + m.pool.pool_size)
        × (b.addr % m.config.pool_alignment ≡ 0)
    place =
        Tiles-within m.config.pool_alignment start m.pool.free_list (start + m.pool.pool_size) b
          valid.tiles best.1

    at_b : block_at b.addr m.pool.free_list ≡ some b
    at_b =
        block_at-Has m.config.pool_alignment start m.pool.free_list (start + m.pool.pool_size) b
          valid.tiles best.1

    room : aligned ≤ b.size
    room = ground (arith, best)

    abbrev new : List Block
    new = take_block m.config.pool_alignment size aligned b

    end_bound : b.addr + header + b.size + 128 < word
    end_bound = omega (arith, place, valid.bound)

    tiled :
        Tiles m.config.pool_alignment start
          (replace b.addr new m.pool.free_list)
          (start + m.pool.pool_size)
    tiled =
        replace-Tiles m.config.pool_alignment start m.pool.free_list (start + m.pool.pool_size) b
          new valid.tiles at_b
          (take_block-Tiles m.config.pool_alignment size aligned b valid.align request pos place.2
            room end_bound)

    used_new :
        used_blocks new
        ≡ taken m.config.pool_alignment size aligned b valid.align request pos place.2 room
            end_bound
          ∷ []
    used_new =
        take_block-used m.config.pool_alignment size aligned b valid.align request pos place.2 room
          end_bound

    was_free : used_blocks (b ∷ []) ≡ []
    unfolding used_blocks
    was_free = ground (arith, best)

    All-Sized : All Sized (used_blocks (replace b.addr new m.pool.free_list))
    All-Sized =
        All-replace Sized b.addr new m.pool.free_list
          (rw used_new (
            (
              size,
              refl,
              pos,
              taken-room m.config.pool_alignment size aligned b valid.align request pos place.2 room
                  end_bound,
            ),
            tt,
          ))
          valid.sized

    granted-IsValid : IsValid start (granted size m b)
    granted-IsValid = record {
      align = valid.align;
      started = valid.started;
      bound = valid.bound;
      tiles = tiled;
      counted = ground (
        arith,
        valid.counted,
        length-replace b.addr new m.pool.free_list b at_b,
        length-take_block m.config.pool_alignment size aligned b valid.align request pos place.2
            room end_bound,
        Tiles-length m.config.pool_alignment start m.pool.free_list (start + m.pool.pool_size)
            valid.tiles,
        valid.bound,
      );
      usage = ground (
        arith,
        valid.usage,
        valid.bound,
        requested-replace b.addr new m.pool.free_list b at_b,
        was_free,
        used_new,
        requested-le m.config.pool_alignment start (replace b.addr new m.pool.free_list)
            (start + m.pool.pool_size) tiled All-Sized,
      );
      sized = All-Sized;
    }

    granted-usage : (granted size m b).stats.current_usage ≡ m.stats.current_usage + size
    granted-usage = ground (
      arith,
      valid.usage,
      valid.bound,
      requested-replace b.addr new m.pool.free_list b at_b,
      was_free,
      used_new,
      requested-le m.config.pool_alignment start (replace b.addr new m.pool.free_list)
          (start + m.pool.pool_size) tiled All-Sized,
    )

    abbrev out : Block
    out =
        taken m.config.pool_alignment size aligned b valid.align request pos place.2 room end_bound

    pointer : align_size (add64 b.addr header) m.config.pool_alignment ≡ b.addr + header
    pointer =
        let sum : add64 b.addr header ≡ b.addr + header = omega (arith, end_bound) in
        rw sum (
          (align_size-RoundsUp (b.addr + header) m.config.pool_alignment valid.align
              (omega (arith, end_bound, IsAlign-bounds m.config.pool_alignment valid.align))).fixed
            (header-aligned b.addr m.config.pool_alignment valid.align place.2))

    out-apart :
        (d : Block)
        → Has d m.pool.free_list
        → d.is_used ≡ true
        → (out.addr + header + out.size ≤ d.addr) ⊎ (d.addr + header + d.size ≤ out.addr)
    out-apart d has used =
        elim (Tiles-apart m.config.pool_alignment start m.pool.free_list (start + m.pool.pool_size)
          b d valid.tiles best.1 has) [
            | inl same ↦ ground (arith, best)
            | inr (inl before) ↦ inl (ground (arith, room))
            | inr (inr behind) ↦ inr behind
          ]

    granted-Grants : Grants m size (b.addr + header) (granted size m b) out
    granted-Grants = record {
      headed =
          (let same : sub64 (b.addr + header) header ≡ b.addr = omega (arith, end_bound) in
            rw same (
              taken-block_at m.config.pool_alignment size aligned b valid.align request pos place.2
                room end_bound m.pool.free_list at_b));
      behind = refl;
      aligned = header-aligned b.addr m.config.pool_alignment valid.align place.2;
      in_use = refl;
      recorded = refl;
      room =
          taken-room m.config.pool_alignment size aligned b valid.align request pos place.2 room
            end_bound;
      counted = granted-usage;
      apart = out-apart;
    }

  small_sizes : All (λ (c : Block). c.size < word) m.pool.free_list
  small_sizes =
      Tiles-small m.config.pool_alignment start m.pool.free_list (start + m.pool.pool_size)
        valid.tiles (omega (arith, valid.bound))

  request_pos : 0 < pool_request size m.config.pool_alignment
  request_pos =
      omega
        (arith, (pool_request-IsRequest size m.config.pool_alignment valid.align pos small).enough)

  -- On a pool that satisfies the invariant, for a size from 1 to 2^64 - 64, an allocation finds
  -- no free block that is large enough and changes nothing, or keeps the invariant and returns
  -- an aligned pointer right behind the header of a used block, which has room for the size and
  -- lies apart from every block in use; the usage grows by the size.
  pub allocate_in_pool_cases :
      ((allocate_in_pool size m ≡ (none, m))
        × All
            (λ (c : Block). fits (pool_request size m.config.pool_alignment) c ≡ false)
            m.pool.free_list)
      ⊎ ((p : ℕ) × (m' : Memory) × (c : Block) × (allocate_in_pool size m ≡ (some p, m'))
          × IsValid start m'
          × Grants m size p m' c)
  unfolding allocate_in_pool
  allocate_in_pool_cases =
      elim (Option-cases
        (find_free_block (pool_request size m.config.pool_alignment) m.pool.free_list)) [
          | inl e ↦ inl (
            rw (e, allocate_in_pool),
            find_free_block-none _ m.pool.free_list request_pos small_sizes e,
          )
          | inr (b, e) ↦ inr (
            b.addr + header,
            granted size m b,
            out b e,
            rw (e, allocate_in_pool) (rw (pointer b e) refl),
            granted-IsValid b e,
            granted-Grants b e,
          )
        ]
