-- ===== src/Memory/Pool.antt =====
-- The pool functions of infra/infra_memory.c: best fit, taking a block, merging, finding a header.
pub mod BestFit
pub mod Tiles
pub mod Merge
pub mod Update
pub mod Split
use ai_ppdb.Base.{
  ℕ, zero, suc, ◌+◌, ◌-◌, ◌^◌, Bool, true, false, not, ◌&&◌, List, [], ◌∷◌, ◌++◌, Option, none,
  some, ltb, leb, ◌==◌, if◌then◌else◌,
}
use ai_ppdb.Base.Words.{word, add64, sub64, align_size}
use ai_ppdb.Memory.{Block, header}

-- `!block->is_used && block->size >= size`
abbrev pub fits : ℕ → Block → Bool
fits size b = not b.is_used && leb size b.size

-- The loop of `find_free_block`, from `block` on, with its variables `best_fit`, `min_size_diff`.
unfoldable pub best_fit_from : ℕ → List Block → Option Block → ℕ → Option Block
best_fit_from size [] best min_diff = best
best_fit_from size (b ∷ bs) best min_diff =
    let size_diff = b.size - size in
    let taken = best_fit_from size bs (some b) size_diff in
    let passed = best_fit_from size bs best min_diff in
    if fits size b
    then if ltb size_diff min_diff then if size_diff == 0 then some b else taken else passed
    else passed

unfoldable pub find_free_block : ℕ → List Block → Option Block
find_free_block size blocks = best_fit_from size blocks none (word - 1)

-- The block whose header stands at an address.
unfoldable pub block_at : ℕ → List Block → Option Block
block_at p [] = none
block_at p (b ∷ bs) = if b.addr == p then some b else block_at p bs

-- A write to the header at an address: the block there becomes the listed ones.
unfoldable pub replace : ℕ → List Block → List Block → List Block
replace p new [] = []
replace p new (b ∷ bs) = if b.addr == p then new ++ bs else b ∷ replace p new bs

-- What `allocate_memory` makes of the block that it found: used, and split where it is too large.
unfoldable pub take_block : ℕ → ℕ → ℕ → Block → List Block
take_block alignment size aligned_size b =
    if ltb (add64 (add64 aligned_size header) header) b.size
    then record b { size = aligned_size; original_size = some size; is_used = true }
      ∷ record {
        addr = align_size (add64 (add64 b.addr header) aligned_size) alignment;
        size = sub64 (sub64 b.size aligned_size) header;
        original_size = none;
        is_used = false;
      }
      ∷ []
    else record b { original_size = some size; is_used = true } ∷ []

-- `split_block`, as `infra_realloc` calls it.
unfoldable pub split_block : ℕ → ℕ → Block → List Block
split_block alignment size b =
    let aligned_size = align_size size alignment in
    let total_size = add64 header aligned_size in
    let remaining = sub64 b.size total_size in
    if leb header remaining
    then record b { size = aligned_size }
      ∷ record {
        addr = add64 b.addr total_size;
        size = sub64 remaining header;
        original_size = none;
        is_used = false;
      }
      ∷ []
    else b ∷ []

-- The inner loop of `try_merge_blocks`, at `current` and the blocks after it: the list that it
-- leaves, `merged`, and the block count.
unfoldable pub merge_from : Block → List Block → ℕ → List Block × Bool × ℕ
merge_from current [] count = (current ∷ [], false, count)
merge_from current (next ∷ rest) count =
    let grown = record current { size = add64 current.size (add64 next.size header) } in
    let joined = merge_from grown rest (sub64 count 1) in
    let stepped = merge_from next rest count in
    if not current.is_used && not next.is_used
    then (joined.0, true, joined.2)
    else (current ∷ stepped.0, stepped.1, stepped.2)

unfoldable pub merge_pass : List Block → ℕ → List Block × Bool × ℕ
merge_pass [] count = ([], false, count)
merge_pass (b ∷ bs) count = merge_from b bs count

-- The `do … while (merged)` of `try_merge_blocks`, on fuel; `none` means that the fuel ran out.
unfoldable pub merge_rounds : ℕ → List Block → ℕ → Option (List Block × ℕ)
merge_rounds zero blocks count = none
merge_rounds (suc fuel) blocks count =
    let pass = merge_pass blocks count in
    let rest = merge_rounds fuel pass.0 pass.2 in if pass.1 then rest else some (pass.0, pass.2)
