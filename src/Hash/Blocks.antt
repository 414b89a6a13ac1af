-- ===== src/Hash/Blocks.antt =====
-- The allocations of the hash table of infra/infra_ds.c: who owns which block.
use ai_ppdb.Base.{
  ℕ, ◌≡◌, refl, ◌≢◌, inl, inr, Bool, Option-cases, false, List, [], ◌∷◌, Option, some, arith, ◌==◌,
  if◌then◌else◌, ◌||◌, length,
}
use ai_ppdb.Base.Words.{add64, mul64}
use ai_ppdb.Error.{ok}
use ai_ppdb.System.{System, IsSystem}
use ai_ppdb.Hash.{
  Node, Table, free_node, free_bucket, free_buckets, infra_hash_create, infra_hash_destroy, put,
  put_new, find_entry, bucket_of,
}

-- Whether a block belongs to an entry of a bucket, to an entry of the table, or to the table.
abbrev pub in_bucket : List Node → ℕ → Bool
in_bucket [] q = false
in_bucket (n ∷ ns) q = q == n.addr || q == n.key_addr || in_bucket ns q

abbrev pub in_buckets : List (List Node) → ℕ → Bool
in_buckets [] q = false
in_buckets (b ∷ bs) q = in_bucket b q || in_buckets bs q

abbrev pub owns : Table → ℕ → Bool
owns t q = q == t.addr || q == t.buckets_addr || in_buckets t.buckets q

module _ (y : System) (law : IsSystem y) where
  open y use {State, malloc, free, live}

  free_bucket-live :
      (ns : List Node) (s : State) (q : ℕ)
      → live (free_bucket y ns s) q ≡ (if in_bucket ns q then false else live s q)
  unfolding free_bucket free_node
  free_bucket-live [] s q = refl
  free_bucket-live (n ∷ ns) s q = ground (
    arith,
    free_bucket-live ns (free n.addr (free n.key_addr s)) q,
    law.free-live n.addr (free n.key_addr s) q,
    law.free-live n.key_addr s q,
  )

  free_buckets-live :
      (bs : List (List Node)) (s : State) (q : ℕ)
      → live (free_buckets y bs s) q ≡ (if in_buckets bs q then false else live s q)
  unfolding free_buckets
  free_buckets-live [] s q = refl
  free_buckets-live (b ∷ bs) s q =
      ground (arith, free_buckets-live bs (free_bucket y b s) q, free_bucket-live b s q)

  -- Destroy releases exactly the blocks of the table, of its bucket array, and of its entries
  -- and their keys: no other block changes.
  pub infra_hash_destroy-live :
      (t : Table) (s : State) (q : ℕ)
      → live (infra_hash_destroy y (some t) s) q ≡ (if owns t q then false else live s q)
  unfolding infra_hash_destroy
  infra_hash_destroy-live t s q = ground (
    arith,
    free_buckets-live t.buckets s q,
    law.free-live t.buckets_addr (free_buckets y t.buckets s) q,
    law.free-live t.addr (free t.buckets_addr (free_buckets y t.buckets s)) q,
  )

  put_new-error :
      (t : Table) (key : List ℕ) (v : Option ℕ) (s : State) (q : ℕ)
      → (put_new y t key v s).0 ≢ ok
      → live (put_new y t key v s).2 q ≡ live s q
  unfolding put_new
  put_new-error t key v s q bad =
      let s₁ = (malloc 24 s).1 in
      let size = add64 (length key) 1 in
      elim (Option-cases (malloc 24 s).0) [
        | inl f ↦ rw (f, put_new) (law.malloc-fail 24 s q f)
        | inr (a, f) ↦ elim (Option-cases (malloc size s₁).0) [
          | inl g ↦
              rw (f, put_new)
                (rw g (
                  ground (
                    arith,
                    law.free-live a (malloc size s₁).1 q,
                    law.malloc-fail size s₁ q g,
                    law.malloc-live 24 s a q f,
                    law.malloc-fresh 24 s a f,
                  )))
          | inr (c, g) ↦ absurd (ground arith)
        ]
      ]

  -- A put that does not return ok leaves exactly the blocks allocated that were allocated
  -- before it.
  pub put-error_live :
      (t : Table) (key : List ℕ) (v : Option ℕ) (s : State) (q : ℕ)
      → (put y t key v s).0 ≢ ok
      → live (put y t key v s).2 q ≡ live s q
  unfolding put
  put-error_live t key v s q bad = elim (Option-cases (find_entry key (bucket_of key t))) [
    | inl f ↦ rw (f, put) (put_new-error t key v s q (ground arith))
    | inr (n, f) ↦ rw (f, put) refl
  ]

  -- A create that does not return ok leaves exactly the blocks allocated that were allocated
  -- before it.
  pub infra_hash_create-error :
      (given : Bool) (capacity : ℕ) (s : State) (q : ℕ)
      → (infra_hash_create y given capacity s).0 ≢ ok
      → live (infra_hash_create y given capacity s).2 q ≡ live s q
  unfolding infra_hash_create
  infra_hash_create-error given capacity s q bad =
      let s₁ = (malloc 24 s).1 in
      let size = mul64 8 capacity in
      elim (Option-cases (malloc 24 s).0) [
        | inl f ↦ ground (arith, law.malloc-fail 24 s q f)
        | inr (a, f) ↦ elim (Option-cases (malloc size s₁).0) [
          | inl g ↦ ground (
            arith,
            law.free-live a (malloc size s₁).1 q,
            law.malloc-fail size s₁ q g,
            law.malloc-live 24 s a q f,
            law.malloc-fresh 24 s a f,
          )
          | inr (c, g) ↦ ground arith
        ]
      ]
