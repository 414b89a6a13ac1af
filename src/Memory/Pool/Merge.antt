-- ===== src/Memory/Pool/Merge.antt =====
-- try_merge_blocks of infra/infra_memory.c: after one round no two neighbours are free, so the
-- second round is the last; the blocks tile the pool as before.
use ai_ppdb.Base.{
  ℕ, suc, ◌+◌, ◌≤◌, ◌<◌, ◌≡◌, refl, inl, inr, false, not, ◌&&◌, List, [], ◌∷◌, some, arith,
  Bool-cases, length, if◌then◌else◌,
}
use ai_ppdb.Base.Words.{word, add64, sub64}
use ai_ppdb.Memory.{Block, header}
use ai_ppdb.Memory.Pool.Tiles.{Tiles, Tiles-le}
use ai_ppdb.Memory.Pool.{merge_from, merge_pass, merge_rounds}

-- No block of the list is free together with the block before it; `b` stands before the list.
abbrev pub ApartFrom : Block → List Block → Type 0
ApartFrom b [] = Unit {0}
ApartFrom b (c ∷ cs) = (not b.is_used && not c.is_used ≡ false) × ApartFrom c cs

abbrev pub Apart : List Block → Type 0
Apart [] = Unit {0}
Apart (b ∷ bs) = ApartFrom b bs

-- The result begins with a block that is as free as the current one.
abbrev Leads : Block → List Block → Type 0
Leads b [] = ⊥
Leads b (c ∷ cs) = (c.is_used ≡ b.is_used) × ApartFrom c cs

ApartFrom-Leads :
    (b c : Block) (bs : List Block)
    → not b.is_used && not c.is_used ≡ false
    → Leads c bs
    → ApartFrom b bs
ApartFrom-Leads b c [] e h = tt
ApartFrom-Leads b c (d ∷ ds) e h = (rw (h.0) e, h.1)

merge_from-Leads : (b : Block) (bs : List Block) (n : ℕ) → Leads b (merge_from b bs n).0
unfolding merge_from
merge_from-Leads b [] n = (refl, tt)
merge_from-Leads b (c ∷ cs) n =
    let grown : Block = record b { size = add64 b.size (add64 c.size header) } in
    elim (Bool-cases (not b.is_used && not c.is_used)) [
      | inl e ↦ rw e (merge_from-Leads grown cs (sub64 n 1))
      | inr e ↦ rw e (refl, ApartFrom-Leads b c _ e (merge_from-Leads c cs n))
    ]

Leads-Apart : (b : Block) (bs : List Block) → Leads b bs → Apart bs
Leads-Apart b [] h = tt
Leads-Apart b (c ∷ cs) h = h.1

-- After one merging round no two neighbouring blocks are free.
pub merge_pass-Apart : (bs : List Block) (n : ℕ) → Apart (merge_pass bs n).0
unfolding merge_pass
merge_pass-Apart [] n = tt
merge_pass-Apart (b ∷ bs) n = Leads-Apart b _ (merge_from-Leads b bs n)

merge_from-id :
    (b : Block) (bs : List Block) (n : ℕ) → ApartFrom b bs → merge_from b bs n ≡ (b ∷ bs, false, n)
unfolding merge_from
merge_from-id b [] n h = refl
merge_from-id b (c ∷ cs) n h = ground (arith, merge_from-id c cs n h.1)

-- A round over blocks with no free neighbours changes nothing and reports that.
merge_pass-id : (bs : List Block) (n : ℕ) → Apart bs → merge_pass bs n ≡ (bs, false, n)
unfolding merge_pass
merge_pass-id [] n h = refl
merge_pass-id (b ∷ bs) n h = merge_from-id b bs n h

-- The loop of merging rounds ends in its second round at the latest, with the result of the
-- first.
pub merge_rounds-two :
    (fuel : ℕ) (bs : List Block) (n : ℕ)
    → merge_rounds (suc (suc fuel)) bs n ≡ some ((merge_pass bs n).0, (merge_pass bs n).2)
unfolding merge_rounds
merge_rounds-two fuel bs n =
    let p = merge_pass bs n in
    elim (Bool-cases p.1) [
      | inl more ↦ rw more (rw (merge_pass-id p.0 p.2 (merge_pass-Apart bs n)) refl)
      | inr done ↦ rw done refl
    ]

-- The used blocks of a list.
unfoldable pub used_blocks : List Block → List Block
used_blocks [] = []
used_blocks (b ∷ bs) = if b.is_used then b ∷ used_blocks bs else used_blocks bs

merge_from-used :
    (b : Block) (bs : List Block) (n : ℕ) → used_blocks (merge_from b bs n).0 ≡ used_blocks (b ∷ bs)
unfolding merge_from used_blocks
merge_from-used b [] n = refl
merge_from-used b (c ∷ cs) n = ground (
  arith,
  merge_from-used (record b { size = add64 b.size (add64 c.size header) }) cs (sub64 n 1),
  merge_from-used c cs n,
)

merge_from-count :
    (b : Block) (bs : List Block) (n : ℕ)
    → length (b ∷ bs) ≤ n
    → n < word
    → (merge_from b bs n).2 + length (b ∷ bs) ≡ n + length (merge_from b bs n).0
unfolding merge_from
merge_from-count b [] n e l = refl
merge_from-count b (c ∷ cs) n e l = ground (
  arith,
  merge_from-count (record b { size = add64 b.size (add64 c.size header) }) cs (sub64 n 1),
  merge_from-count c cs n,
)

merge_from-Tiles :
    (align from : ℕ) (b : Block) (bs : List Block) (n to : ℕ)
    → to < word
    → Tiles align from (b ∷ bs) to
    → Tiles align from (merge_from b bs n).0 to
unfolding merge_from
merge_from-Tiles align from b [] n to l t = t
merge_from-Tiles align from b (c ∷ cs) n to l t =
    let grown : Block = record b { size = add64 b.size (add64 c.size header) } in
    let end : from + header + grown.size ≡ from + header + b.size + header + c.size =
      omega (arith, Tiles-le align (from + header + b.size + header + c.size) cs to t.2.2) in
    elim (Bool-cases (not b.is_used && not c.is_used)) [
      | inl e ↦
          rw e (merge_from-Tiles align from grown cs (sub64 n 1) to l (t.0, t.1, rw end t.2.2))
      | inr e ↦ rw e (t.0, t.1, merge_from-Tiles align (from + header + b.size) c cs n to l t.2)
    ]

-- Over blocks that tile a memory below 2^64 and are counted, a merging round leaves blocks that
-- tile the same memory, the used ones as they are, and the count that of the blocks left.
pub merge_pass-keeps :
    (align from to n : ℕ) (bs : List Block)
    → to < word
    → Tiles align from bs to
    → n ≡ length bs
    → n < word
    → Tiles align from (merge_pass bs n).0 to
      × (used_blocks (merge_pass bs n).0 ≡ used_blocks bs)
      × ((merge_pass bs n).2 ≡ length (merge_pass bs n).0)
unfolding merge_pass
merge_pass-keeps align from to n [] l t e m = (t, refl, e)
merge_pass-keeps align from to n (b ∷ bs) l t e m = (
  merge_from-Tiles align from b bs n to l t,
  merge_from-used b bs n,
  omega (arith, merge_from-count b bs n),
)
