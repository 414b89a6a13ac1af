-- ===== src/Memory/Pool/BestFit.antt =====
-- find_free_block of infra/infra_memory.c is a best fit.
use ai_ppdb.Base.{
  ℕ, ◌-◌, ◌≤◌, ◌<◌, ◌≡◌, refl, ◌≢◌, ◌⊎◌, true, false, List, [], ◌∷◌, Option, none, some, arith, All,
  Has,
}
use ai_ppdb.Base.Words.{word}
use ai_ppdb.Memory.{Block}
use ai_ppdb.Memory.Pool.{fits, best_fit_from, find_free_block}

-- What the loop's variables know of the blocks it has passed.
abbrev Known : ℕ → Option Block → ℕ → Type 0
Known size none min_diff = min_diff ≡ word - 1
Known size (some b) min_diff = (fits size b ≡ true) × (min_diff ≡ b.size - size)

-- The block `b` is the result of a search of `bs` that began with `best`.
abbrev Chosen : ℕ → List Block → Option Block → ℕ → Block → Type 0
Chosen size bs best min_diff b =
    (fits size b ≡ true)
    × (b.size - size ≤ min_diff)
    × ((best ≡ some b) ⊎ Has b bs)
    × All (λ (c : Block). fits size c ≡ true → b.size ≤ c.size) bs

exact_fit :
    (size : ℕ) (b : Block) (bs : List Block)
    → b.size ≤ size
    → All (λ (c : Block). fits size c ≡ true → b.size ≤ c.size) bs
exact_fit size b [] h = tt
exact_fit size b (c ∷ bs) h = (λ fit. ground arith, exact_fit size b bs h)

best_fit_from-Chosen :
    (size : ℕ) (bs : List Block) (best : Option Block) (min_diff : ℕ) (b : Block)
    → Known size best min_diff
    → best_fit_from size bs best min_diff ≡ some b
    → Chosen size bs best min_diff b
unfolding best_fit_from
best_fit_from-Chosen size [] none min_diff b known e = cc
best_fit_from-Chosen size [] (some a) min_diff b known e = ground arith
best_fit_from-Chosen size (c ∷ bs) best min_diff b known e = ground (
  arith,
  exact_fit size b bs,
  best_fit_from-Chosen size bs best min_diff b known,
  best_fit_from-Chosen size bs (some c) (c.size - size) b,
)

-- The block that is found is free, large enough and one of the pool, and no free block that is
-- large enough is smaller.
pub find_free_block-best :
    (size : ℕ) (bs : List Block) (b : Block)
    → find_free_block size bs ≡ some b
    → (fits size b ≡ true) × Has b bs × All (λ (c : Block). fits size c ≡ true → b.size ≤ c.size) bs
unfolding find_free_block
find_free_block-best size bs b e =
    let (fit, _, origin, least) = best_fit_from-Chosen size bs none (word - 1) b refl e in
    (fit, ground arith, least)

some_stays :
    (size : ℕ) (bs : List Block) (a : Block) (min_diff : ℕ)
    → best_fit_from size bs (some a) min_diff ≢ none
unfolding best_fit_from
some_stays size [] a min_diff e = cc
some_stays size (c ∷ bs) a min_diff e =
    ground (arith, some_stays size bs a min_diff, some_stays size bs c (c.size - size))

-- Where block sizes are below 2^64 and the size is not 0, no block is found only if none is
-- free and large enough.
pub find_free_block-none :
    (size : ℕ) (bs : List Block)
    → 0 < size
    → All (λ (c : Block). c.size < word) bs
    → find_free_block size bs ≡ none
    → All (λ (c : Block). fits size c ≡ false) bs
unfolding find_free_block best_fit_from
find_free_block-none size [] pos small e = tt
find_free_block-none size (c ∷ bs) pos small e =
    ground (arith, find_free_block-none size bs pos small.1, some_stays size bs c (c.size - size))
