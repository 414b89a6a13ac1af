-- ===== src/Memory/Heap/Take.antt =====
-- What allocate_memory of infra/infra_memory.c makes of the block that it takes.
use ai_ppdb.Base.{
  ℕ, ◌+◌, ◌%◌, ◌≤◌, ◌<◌, ◌≡◌, refl, inl, inr, true, Bool-cases, List, [], ◌∷◌, some, arith, length,
  ltb, if◌then◌else◌,
}
use ai_ppdb.Base.Words.{
  word, add64, align_size, IsAlign, align_size-RoundsUp, header-aligned, add-aligned,
  IsAlign-bounds,
}
use ai_ppdb.Memory.{Block, header}
use ai_ppdb.Memory.Pool.{take_block, block_at, replace}
use ai_ppdb.Memory.Pool.Tiles.{Tiles}
use ai_ppdb.Memory.Pool.Merge.{used_blocks}
use ai_ppdb.Memory.Heap.Valid.{IsRequest}

module _ (a size aligned : ℕ) (b : Block) (align : IsAlign a) (request : IsRequest size a aligned)
    (pos : 0 < size) (even : b.addr % a ≡ 0) (room : aligned ≤ b.size)
    (bound : b.addr + header + b.size + 128 < word) where
  -- The block that is split off stands where the first one ends.
  split_addr : align_size (add64 (add64 b.addr header) aligned) a ≡ b.addr + header + aligned
  split_addr =
      let end : add64 (add64 b.addr header) aligned ≡ b.addr + header + aligned = omega arith in
      let bounds = IsAlign-bounds a align in
      rw end (
        (align_size-RoundsUp (b.addr + header + aligned) a align (omega arith)).fixed (
          add-aligned (b.addr + header) aligned a align (header-aligned b.addr a align even)
            request.multiple))

  aligned_end : (b.addr + header + aligned) % a ≡ 0
  aligned_end =
      add-aligned (b.addr + header) aligned a align (header-aligned b.addr a align even)
        request.multiple

  pub take_block-Tiles : Tiles a b.addr (take_block a size aligned b) (b.addr + header + b.size)
  unfolding take_block
  take_block-Tiles = elim (Bool-cases (ltb (add64 (add64 aligned header) header) b.size)) [
    | inl large ↦ rw large (refl, even, (split_addr, aligned_end, ground arith))
    | inr small ↦ rw small (refl, even, refl)
  ]

  -- The block as it is handed out.
  abbrev pub taken : Block
  taken =
      let large = ltb (add64 (add64 aligned header) header) b.size in
      record b {
        size = if large then aligned else b.size;
        original_size = some size;
        is_used = true;
      }

  pub take_block-used : used_blocks (take_block a size aligned b) ≡ taken ∷ []
  unfolding take_block used_blocks
  take_block-used = ground arith

  pub taken-room : size ≤ taken.size
  taken-room = ground arith

  pub taken-block_at :
      (bs : List Block)
      → block_at b.addr bs ≡ some b
      → block_at b.addr (replace b.addr (take_block a size aligned b) bs) ≡ some taken
  unfolding block_at replace take_block
  taken-block_at [] e = cc
  taken-block_at (c ∷ bs) e = ground (arith, taken-block_at bs)

  pub length-take_block :
      length (take_block a size aligned b)
      ≡ (if ltb (add64 (add64 aligned header) header) b.size then 2 else 1)
  unfolding take_block
  length-take_block = ground arith
