-- ===== src/Memory/Pool/Split.antt =====
-- split_block of infra/infra_memory.c, on a block that has no room for a second header.
use ai_ppdb.Base.{ℕ, ◌+◌, ◌*◌, ◌%◌, false, ◌≤◌, ◌<◌, ◌≡◌, [], ◌∷◌, none, arith}
use ai_ppdb.Base.Words.{
  word, add64, sub64, align_size, IsAlign, align_size-RoundsUp, IsAlign-bounds,
}
use ai_ppdb.Memory.{Block, header}
use ai_ppdb.Memory.Pool.{split_block}

-- Splitting a block at an aligned size that leaves less than a header behind makes the
-- remainder wrap: the block that is put behind it stands right where it ends and claims almost
-- 2^64 bytes.
pub split_block-wraps :
    (a size : ℕ) (b : Block)
    → IsAlign a
    → size % a ≡ 0
    → size ≤ b.size
    → b.size < size + header
    → b.addr + b.size + 128 < word
    → (c : Block) × (split_block a size b ≡ record b { size = size } ∷ c ∷ [])
      × (c.addr ≡ b.addr + header + size)
      × (word ≤ c.size + 2 * header)
unfolding split_block
split_block-wraps a size b align even fit tight bound =
    let r = align_size-RoundsUp size a align (omega (arith, IsAlign-bounds a align)) in
    let same : align_size size a ≡ size = r.fixed even in
    (
      record {
        addr = add64 b.addr (add64 header size);
        size = sub64 (sub64 b.size (add64 header size)) header;
        original_size = none;
        is_used = false;
      },
      rw same (ground arith),
      omega arith,
      omega arith,
    )
