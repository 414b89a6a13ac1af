-- ===== src/Memory/Pool/Update.antt =====
-- What a write to one header does to measures of the whole list (infra/infra_memory.c).
use ai_ppdb.Base.{
  ℕ, ◌+◌, ◌*◌, ◌≤◌, ◌≡◌, refl, sym, ◌∙◌, ◌⊎◌, Bool-cases, inl, inr, subst, Bool, true, false, List,
  [], ◌∷◌, ◌++◌, none, some, arith, All, Has, length, length-append, ◌==◌, if◌then◌else◌,
}
use ai_ppdb.Memory.{Block, header}
use ai_ppdb.Memory.Pool.{block_at, replace}
use ai_ppdb.Memory.Pool.Merge.{used_blocks}
use ai_ppdb.Memory.Pool.Tiles.{Tiles}

-- The bytes that callers asked for, of a list of used blocks.
abbrev pub requested : List Block → ℕ
requested [] = 0
requested (b ∷ bs) = (elim b.original_size [ none ↦ 0 | some n ↦ n ]) + requested bs

pub used_blocks-append :
    (xs ys : List Block) → used_blocks (xs ++ ys) ≡ used_blocks xs ++ used_blocks ys
unfolding used_blocks
used_blocks-append [] ys = refl
used_blocks-append (x ∷ xs) ys = ground (arith, used_blocks-append xs ys)

requested-append : (xs ys : List Block) → requested (xs ++ ys) ≡ requested xs + requested ys
requested-append [] ys = omega arith
requested-append (x ∷ xs) ys = omega (arith, requested-append xs ys)

pub requested-replace :
    (p : ℕ) (new bs : List Block) (b : Block)
    → block_at p bs ≡ some b
    → requested (used_blocks (replace p new bs)) + requested (used_blocks (b ∷ []))
      ≡ requested (used_blocks bs) + requested (used_blocks new)
unfolding block_at replace used_blocks
requested-replace p new [] b e = ground arith
requested-replace p new (c ∷ bs) b e = ground (
  arith,
  used_blocks-append new bs,
  requested-append (used_blocks new) (used_blocks bs),
  requested-replace p new bs b,
)

pub length-replace :
    (p : ℕ) (new bs : List Block) (b : Block)
    → block_at p bs ≡ some b
    → length (replace p new bs) + 1 ≡ length bs + length new
unfolding block_at replace
length-replace p new [] b e = ground arith
length-replace p new (c ∷ bs) b e = ground (arith, length-append new bs, length-replace p new bs b)

module _ (P : Block → Type 0) where
  All-append : (xs ys : List Block) → All P xs → All P ys → All P (xs ++ ys)
  All-append [] ys h k = k
  All-append (x ∷ xs) ys h k = (h.0, All-append xs ys h.1 k)

  -- A list that holds a block or not, by a test.
  pub All-rest :
      (t : Bool) (b : Block) (xs : List Block) → All P (if t then b ∷ xs else xs) → All P xs
  All-rest true b xs h = h.1
  All-rest false b xs h = h

  pub All-first :
      (t : Bool) (b : Block) (xs : List Block) → t ≡ true → All P (if t then b ∷ xs else xs) → P b
  All-first true b xs e h = h.0
  All-first false b xs e h = cc

  All-swap :
      (t : Bool) (b : Block) (xs ys : List Block)
      → All P (if t then b ∷ xs else xs)
      → All P ys
      → All P (if t then b ∷ ys else ys)
  All-swap true b xs ys h k = (h.0, k)
  All-swap false b xs ys h k = k

  -- The used blocks after a write are old ones or new ones.
  pub All-replace :
      (p : ℕ) (new bs : List Block)
      → All P (used_blocks new)
      → All P (used_blocks bs)
      → All P (used_blocks (replace p new bs))
  unfolding replace used_blocks
  All-replace p new [] h k = tt
  All-replace p new (c ∷ bs) h k =
      let rest = All-rest c.is_used c (used_blocks bs) k in
      elim (Bool-cases (c.addr == p)) [
        | inl same ↦ rw same (rw (used_blocks-append new bs) (All-append _ _ h rest))
        | inr other ↦
            rw other (All-swap c.is_used c (used_blocks bs) _ k (All-replace p new bs h rest))
      ]

  -- What holds of all used blocks holds of one.
  pub All-used :
      (bs : List Block) (b : Block) → All P (used_blocks bs) → Has b bs → b.is_used ≡ true → P b
  unfolding used_blocks
  All-used [] b h k e = elim k [ ]
  All-used (c ∷ bs) b h (inl same) e =
      subst P same (All-first c.is_used c (used_blocks bs) (ground arith) h)
  All-used (c ∷ bs) b h (inr k) e = All-used bs b (All-rest c.is_used c (used_blocks bs) h) k e

-- Every block takes its header's 32 bytes.
pub Tiles-length :
    (align from : ℕ) (bs : List Block) (to : ℕ)
    → Tiles align from bs to
    → from + header * length bs ≤ to
Tiles-length align from [] to t = omega arith
Tiles-length align from (b ∷ bs) to t =
    omega (arith, Tiles-length align (from + header + b.size) bs to t.2)

-- A block whose header is found stands in the list.
pub Has-block_at :
    (p : ℕ) (bs : List Block) (b : Block) → block_at p bs ≡ some b → Has b bs × (b.addr ≡ p)
unfolding block_at
Has-block_at p [] b e = ground arith
Has-block_at p (c ∷ bs) b e = ground (arith, Has-block_at p bs b)

pub Has-used_blocks :
    (bs : List Block) (d : Block) → Has d bs → d.is_used ≡ true → Has d (used_blocks bs)
unfolding used_blocks
Has-used_blocks [] d h e = elim h [ ]
Has-used_blocks (c ∷ bs) d (inl same) e = ground arith
Has-used_blocks (c ∷ bs) d (inr h) e =
    let rest = Has-used_blocks bs d h e in
    elim (Bool-cases c.is_used) [ inl t ↦ rw t (inr rest) | inr f ↦ rw f rest ]

pub used_blocks-Has : (bs : List Block) (d : Block) → Has d (used_blocks bs) → Has d bs
unfolding used_blocks
used_blocks-Has [] d h = h
used_blocks-Has (c ∷ bs) d h = by_test c.is_used h (used_blocks-Has bs d)
  where
    by_test :
        (t : Bool)
        → Has d (if t then c ∷ used_blocks bs else used_blocks bs)
        → (Has d (used_blocks bs) → Has d bs)
        → Has d (c ∷ bs)
    by_test true (inl e) rest = inl e
    by_test true (inr k) rest = inr (rest k)
    by_test false k rest = inr (rest k)

Has-append : (xs ys : List Block) (d : Block) → Has d ys → Has d (xs ++ ys)
Has-append [] ys d h = h
Has-append (x ∷ xs) ys d h = inr (Has-append xs ys d h)

-- A write to one header leaves the other blocks in the list.
pub Has-replace :
    (p : ℕ) (new bs : List Block) (b d : Block)
    → block_at p bs ≡ some b
    → Has d bs
    → (d ≡ b) ⊎ Has d (replace p new bs)
unfolding block_at replace
Has-replace p new [] b d e h = elim h [ ]
Has-replace p new (c ∷ bs) b d e h = elim (Bool-cases (c.addr == p)) [
  | inl same ↦ rw same (first h (ground arith))
  | inr other ↦ rw other (later h (Has-replace p new bs b d (rw other at e)))
]
  where
    first : Has d (c ∷ bs) → c ≡ b → (d ≡ b) ⊎ Has d (new ++ bs)
    first (inl f) g = inl (sym f ∙ g)
    first (inr k) g = inr (Has-append new bs d k)

    later :
        Has d (c ∷ bs)
        → (Has d bs → (d ≡ b) ⊎ Has d (replace p new bs))
        → (d ≡ b) ⊎ Has d (c ∷ replace p new bs)
    later (inl f) rest = inr (inl f)
    later (inr k) rest = elim (rest k) [ inl f ↦ inl f | inr q ↦ inr (inr q) ]
