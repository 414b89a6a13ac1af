-- ===== src/Memory/Pool/Tiles.antt =====
-- What a list of blocks says of the pool's memory (infra/infra_memory.c): the blocks lie end to
-- end, each behind its header, from one address to another.
use ai_ppdb.Base.{
  ℕ, ◌+◌, ◌%◌, ◌≤◌, ◌<◌, ◌≡◌, sym, ◌∙◌, inl, inr, Bool-cases, List, [], ◌∷◌, ◌++◌, some, arith, Has,
  All, ◌⊎◌, ◌==◌,
}
use ai_ppdb.Base.Words.{word}
use ai_ppdb.Memory.{Block, header}
use ai_ppdb.Memory.Pool.{block_at, replace}

-- The blocks fill the memory from `from` to `to`, and every header is aligned.
abbrev pub Tiles : ℕ → ℕ → List Block → ℕ → Type 0
Tiles align from [] to = from ≡ to
Tiles align from (b ∷ bs) to =
    (b.addr ≡ from) × (from % align ≡ 0) × Tiles align (from + header + b.size) bs to

pub Tiles-le : (align from : ℕ) (bs : List Block) (to : ℕ) → Tiles align from bs to → from ≤ to
Tiles-le align from [] to t = omega arith
Tiles-le align from (b ∷ bs) to t = omega (arith, Tiles-le align (from + header + b.size) bs to t.2)

-- A block of the list lies between the two addresses.
pub Tiles-within :
    (align from : ℕ) (bs : List Block) (to : ℕ) (b : Block)
    → Tiles align from bs to
    → Has b bs
    → (from ≤ b.addr) × (b.addr + header + b.size ≤ to) × (b.addr % align ≡ 0)
Tiles-within align from [] to b t h = elim h [ ]
Tiles-within align from (c ∷ bs) to b t (inl e) =
    ground (arith, Tiles-le align (from + header + c.size) bs to t.2)
Tiles-within align from (c ∷ bs) to b t (inr h) =
    let (low, high, even) = Tiles-within align (from + header + c.size) bs to b t.2 h in
    (omega arith, high, even)

pub Tiles-append :
    (align from : ℕ) (xs : List Block) (mid : ℕ) (ys : List Block) (to : ℕ)
    → Tiles align from xs mid
    → Tiles align mid ys to
    → Tiles align from (xs ++ ys) to
Tiles-append align from [] mid ys to t u = rw t u
Tiles-append align from (x ∷ xs) mid ys to t u =
    (t.0, t.1, Tiles-append align (from + header + x.size) xs mid ys to t.2 u)

-- Headers stand at different addresses, so an address finds its block.
pub block_at-Has :
    (align from : ℕ) (bs : List Block) (to : ℕ) (b : Block)
    → Tiles align from bs to
    → Has b bs
    → block_at b.addr bs ≡ some b
unfolding block_at
block_at-Has align from [] to b t h = elim h [ ]
block_at-Has align from (c ∷ bs) to b t (inl e) = ground arith
block_at-Has align from (c ∷ bs) to b t (inr h) = ground (
  arith,
  block_at-Has align (from + header + c.size) bs to b t.2 h,
  Tiles-within align (from + header + c.size) bs to b t.2 h,
)

-- Blocks that fill the place of one block may be put for it.
pub replace-Tiles :
    (align from : ℕ) (bs : List Block) (to : ℕ) (b : Block) (new : List Block)
    → Tiles align from bs to
    → block_at b.addr bs ≡ some b
    → Tiles align b.addr new (b.addr + header + b.size)
    → Tiles align from (replace b.addr new bs) to
unfolding block_at replace
replace-Tiles align from [] to b new t e u = t
replace-Tiles align from (c ∷ bs) to b new t e u = elim (Bool-cases (c.addr == b.addr)) [
  | inl same ↦
      let here : c ≡ b = ground arith in
      let place : b.addr ≡ from = ground arith in
      let after : Tiles align (b.addr + header + b.size) bs to = rw (place, ← here) t.2 in
      rw same (Tiles-append align from new (b.addr + header + b.size) bs to (rw (← place) u) after)
  | inr other ↦
      rw other
        (t.0, t.1, replace-Tiles align (from + header + c.size) bs to b new t.2 (rw other at e) u)
]

-- Two blocks of the list are one block, or lie one behind the other.
pub Tiles-apart :
    (align from : ℕ) (bs : List Block) (to : ℕ) (b d : Block)
    → Tiles align from bs to
    → Has b bs
    → Has d bs
    → (b ≡ d) ⊎ (b.addr + header + b.size ≤ d.addr) ⊎ (d.addr + header + d.size ≤ b.addr)
Tiles-apart align from [] to b d t h k = elim h [ ]
Tiles-apart align from (c ∷ bs) to b d t (inl e) (inl f) = inl (sym e ∙ f)
Tiles-apart align from (c ∷ bs) to b d t (inl e) (inr k) =
    let w = Tiles-within align (from + header + c.size) bs to d t.2 k in inr (inl (ground arith))
Tiles-apart align from (c ∷ bs) to b d t (inr h) (inl f) =
    let w = Tiles-within align (from + header + c.size) bs to b t.2 h in inr (inr (ground arith))
Tiles-apart align from (c ∷ bs) to b d t (inr h) (inr k) =
    Tiles-apart align (from + header + c.size) bs to b d t.2 h k

pub Tiles-small :
    (align from : ℕ) (bs : List Block) (to : ℕ)
    → Tiles align from bs to
    → to < word
    → All (λ (c : Block). c.size < word) bs
Tiles-small align from [] to t h = tt
Tiles-small align from (c ∷ bs) to t h = (
  omega (arith, Tiles-le align (from + header + c.size) bs to t.2),
  Tiles-small align (from + header + c.size) bs to t.2 h,
)
