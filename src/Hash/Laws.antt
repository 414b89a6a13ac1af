-- ===== src/Hash/Laws.antt =====
-- The hash table of infra/infra_ds.c is a map from keys to values.
use ai_ppdb.Base.{
  ℕ, zero, suc, ◌+◌, ◌≤◌, ◌<◌, ◌≡◌, refl, sym, subst, ◌≢◌, inl, inr, Bool, Bool-cases, Option-cases,
  true, false, List, [], ◌∷◌, Option, none, some, arith, length, get_or, set, length-set,
  get_or-set, get_or-replicate, length-replicate, replicate, bytes_eq, bytes_eq_iff, ◌==◌,
  if◌then◌else◌,
}
use ai_ppdb.Base.Words.{word, add64, sub64}
use ai_ppdb.Error.{ok, no_memory}
use ai_ppdb.System.{System}
use ai_ppdb.Hash.{
  Node, Table, find_entry, assign, unlink, index_of, bucket_of, put_new, put, remove, get,
  infra_hash_create, infra_hash_clear,
}
use ai_ppdb.Hash.Chain.{
  Distinct, find_entry-assign, find_entry-unlink, assign-Distinct, unlink-Distinct, length-assign,
  length-unlink,
}

-- The number of entries in all buckets.
abbrev pub entries : List (List Node) → ℕ
entries [] = 0
entries (b ∷ bs) = length b + entries bs

pub record IsValid (t : Table) : Type 0 where
  pub roomy : 0 < t.capacity
  pub width : length t.buckets ≡ t.capacity
  pub distinct : (i : ℕ) → Distinct (get_or t.buckets i [])
  pub counted : t.size ≡ entries t.buckets

entries-set :
    (bs : List (List Node)) (i : ℕ) (c : List Node)
    → i < length bs
    → entries (set bs i c) + length (get_or bs i []) ≡ entries bs + length c
entries-set [] i c h = absurd (omega arith)
entries-set (b ∷ bs) zero c h = omega arith
entries-set (b ∷ bs) (suc i) c h = omega (arith, entries-set bs i c)

entries-replicate : (n : ℕ) → entries (replicate n []) ≡ 0
entries-replicate zero = refl
entries-replicate (suc n) = omega (arith, entries-replicate n)

index_of-lt : (k : List ℕ) (t : Table) → IsValid t → index_of k t < length t.buckets
unfolding index_of
index_of-lt k t v = omega (arith, v.roomy, v.width)

-- A write of the bucket of `k`, with whatever count.
abbrev with_bucket : Table → List ℕ → List Node → ℕ → Table
with_bucket t k c n = record t { buckets = set t.buckets (index_of k t) c; size = n }

Distinct-if : (b : Bool) (c d : List Node) → Distinct c → Distinct d → Distinct (if b then c else d)
Distinct-if true c d h k = h
Distinct-if false c d h k = k

with_bucket-IsValid :
    (t : Table) (k : List ℕ) (c : List Node) (n : ℕ)
    → IsValid t
    → Distinct c
    → n + length (bucket_of k t) ≡ t.size + length c
    → IsValid (with_bucket t k c n)
with_bucket-IsValid t k c n v d e = record {
  roomy = v.roomy;
  width = omega (arith, length-set t.buckets (index_of k t) c, v.width);
  distinct = λ i.
      rw (get_or-set t.buckets (index_of k t) i c [] (index_of-lt k t v))
        (Distinct-if (index_of k t == i) c (get_or t.buckets i []) d (v.distinct i));
  counted = omega (arith, entries-set t.buckets (index_of k t) c (index_of-lt k t v), v.counted);
}

-- What a lookup finds after the bucket of `k` was written.
find-with_bucket :
    (t : Table) (k j : List ℕ) (c : List Node) (n : ℕ)
    → IsValid t
    → find_entry j (bucket_of j (with_bucket t k c n))
      ≡ (if index_of k t == index_of j t then find_entry j c else find_entry j (bucket_of j t))
unfolding index_of
find-with_bucket t k j c n v =
    rw (get_or-set t.buckets (index_of k t) (index_of j t) c [] (index_of-lt k t v)) (ground arith)

abbrev value_of : Option Node → Option ℕ
value_of none = none
value_of (some n) = n.value

index_congr : (k j : List ℕ) (t : Table) → bytes_eq k j ≡ true → index_of k t ≡ index_of j t
index_congr k j t e = let same : k ≡ j = (bytes_eq_iff k j).0 e in rw same refl

get-found : (t : Table) (j : List ℕ) → get t j ≡ value_of (find_entry j (bucket_of j t))
unfolding get
get-found t j = ground arith

get-with_bucket :
    (t : Table) (k j : List ℕ) (c : List Node) (n : ℕ)
    → IsValid t
    → get (with_bucket t k c n) j
      ≡ value_of
          (if index_of k t == index_of j t then find_entry j c else find_entry j (bucket_of j t))
get-with_bucket t k j c n v =
    subst (λ o. get (with_bucket t k c n) j ≡ value_of o) (find-with_bucket t k j c n v)
      (get-found (with_bucket t k c n) j)

module _ (y : System) (t : Table) (valid : IsValid t) (k : List ℕ) where
  open y use {State, malloc}

  get-assigned :
      (v : Option ℕ) (j : List ℕ) (n : Node)
      → find_entry k (bucket_of k t) ≡ some n
      → get (with_bucket t k (assign k v (bucket_of k t)) t.size) j
        ≡ (if bytes_eq k j then v else get t j)
  get-assigned v j n e = ground (
    arith,
    get-with_bucket t k j (assign k v (bucket_of k t)) t.size valid,
    get-found t j,
    find_entry-assign k j v (bucket_of k t) n e,
    index_congr k j t,
  )

  get-added :
      (m : Node) (j : List ℕ)
      → m.key ≡ k
      → get (with_bucket t k (m ∷ bucket_of k t) (add64 t.size 1)) j
        ≡ (if bytes_eq k j then m.value else get t j)
  unfolding find_entry
  get-added m j e = ground (
    arith,
    get-with_bucket t k j (m ∷ bucket_of k t) (add64 t.size 1) valid,
    get-found t j,
    index_congr k j t,
  )

  get-put_new :
      (v : Option ℕ) (s : State) (j : List ℕ)
      → (put_new y t k v s).0 ≡ ok
      → get (put_new y t k v s).1 j ≡ (if bytes_eq k j then v else get t j)
  unfolding put_new
  get-put_new v s j e = elim (Option-cases (malloc 24 s).0) [
    | inl f ↦ absurd (ground arith)
    | inr (a, f) ↦ elim (Option-cases (malloc (add64 (length k) 1) (malloc 24 s).1).0) [
      | inl g ↦ absurd (ground arith)
      | inr (c, g) ↦
          rw (f, put_new)
            (rw g (get-added (record { addr = a; key_addr = c; key = k; value = v }) j refl))
    ]
  ]

  -- In a well-formed table a put that returns ok makes a get of its key return the value, and
  -- leaves the gets of all other keys as they were.
  pub get-put :
      (v : Option ℕ) (s : State) (j : List ℕ)
      → (put y t k v s).0 ≡ ok
      → get (put y t k v s).1 j ≡ (if bytes_eq k j then v else get t j)
  unfolding put
  get-put v s j e = elim (Option-cases (find_entry k (bucket_of k t))) [
    | inl f ↦ rw (f, put) (get-put_new v s j (ground arith))
    | inr (n, f) ↦ rw (f, put) (get-assigned v j n f)
  ]

  -- A put in a well-formed table that does not return ok returns no_memory and leaves the table
  -- as it was.
  pub put-error :
      (v : Option ℕ) (s : State)
      → (put y t k v s).0 ≢ ok
      → ((put y t k v s).0 ≡ no_memory) × ((put y t k v s).1 ≡ t)
  unfolding put put_new
  put-error v s e = ground arith

  put_new-IsValid :
      (v : Option ℕ) (s : State)
      → find_entry k (bucket_of k t) ≡ none
      → t.size + 1 < word
      → IsValid (put_new y t k v s).1
  unfolding put_new
  put_new-IsValid v s absent small = elim (Option-cases (malloc 24 s).0) [
    | inl f ↦ rw (f, put_new) valid
    | inr (a, f) ↦ elim (Option-cases (malloc (add64 (length k) 1) (malloc 24 s).1).0) [
      | inl g ↦ rw (f, put_new) (rw g valid)
      | inr (c, g) ↦
          rw (f, put_new)
            (rw g (
              with_bucket-IsValid t k _ (add64 t.size 1) valid
                (absent, valid.distinct (index_of k t)) (omega arith)))
    ]
  ]

  -- A put, whatever its result, keeps a table of fewer than 2^64 - 1 entries well formed: as
  -- many buckets as the capacity, no key twice in a bucket, and size the number of entries.
  pub put-IsValid : (v : Option ℕ) (s : State) → t.size + 1 < word → IsValid (put y t k v s).1
  unfolding put
  put-IsValid v s small = elim (Option-cases (find_entry k (bucket_of k t))) [
    | inl f ↦ rw (f, put) (put_new-IsValid v s f small)
    | inr (n, f) ↦
        rw (f, put)
          (with_bucket-IsValid t k _ t.size valid
            (assign-Distinct k v (bucket_of k t) (valid.distinct (index_of k t)))
            (omega (arith, length-assign k v (bucket_of k t))))
  ]

  entries-pos :
      (n : Node)
      → find_entry k (bucket_of k t) ≡ some n
      → length (bucket_of k t) ≤ entries t.buckets
  entries-pos n e = omega (arith, entries-set t.buckets (index_of k t) [] (index_of-lt k t valid))

  unlinked :
      (n : Node)
      → find_entry k (bucket_of k t) ≡ some n
      → t.size < word
      → sub64 t.size 1 + 1 ≡ t.size
  unlinked n e small =
      omega (arith, entries-pos n e, length-unlink k (bucket_of k t) n e, valid.counted)

  get-unlinked :
      (j : List ℕ) (n : ℕ)
      → get (with_bucket t k (unlink k (bucket_of k t)) n) j
        ≡ (if bytes_eq k j then none else get t j)
  get-unlinked j n = ground (
    arith,
    get-with_bucket t k j (unlink k (bucket_of k t)) n valid,
    get-found t j,
    find_entry-unlink k j (bucket_of k t) (valid.distinct (index_of k t)),
    index_congr k j t,
  )

  get-absent :
      (j : List ℕ)
      → find_entry k (bucket_of k t) ≡ none
      → get t j ≡ (if bytes_eq k j then none else get t j)
  get-absent j f = elim (Bool-cases (bytes_eq k j)) [
    | inl same ↦
        let e : k ≡ j = (bytes_eq_iff k j).0 same in rw same (rw (sym e) (cc (get-found t k, f)))
    | inr other ↦ rw other refl
  ]

  -- Remove returns what was found under the key.
  pub remove-value : (s : State) → (remove y t k s).0 ≡ get t k
  unfolding remove get
  remove-value s = ground arith

  -- In a well-formed table a remove makes a get of its key return NULL, and leaves the gets of
  -- all other keys as they were.
  pub get-remove :
      (s : State) (j : List ℕ) → get (remove y t k s).1 j ≡ (if bytes_eq k j then none else get t j)
  unfolding remove
  get-remove s j = elim (Option-cases (find_entry k (bucket_of k t))) [
    | inl f ↦ rw (f, remove) (get-absent j f)
    | inr (n, f) ↦ rw (f, remove) (get-unlinked j (sub64 t.size 1))
  ]

  -- A remove keeps a table of fewer than 2^64 entries well formed.
  pub remove-IsValid : (s : State) → t.size < word → IsValid (remove y t k s).1
  unfolding remove
  remove-IsValid s small = elim (Option-cases (find_entry k (bucket_of k t))) [
    | inl f ↦ rw (f, remove) valid
    | inr (n, f) ↦
        rw (f, remove)
          (with_bucket-IsValid t k _ (sub64 t.size 1) valid
            (unlink-Distinct k (bucket_of k t) (valid.distinct (index_of k t)))
            (omega (arith, unlinked n f small, length-unlink k (bucket_of k t) n f)))
  ]

Distinct-empty : (n i : ℕ) → Distinct (get_or (replicate n []) i [])
Distinct-empty n i = subst Distinct (sym (get_or-replicate n i [])) tt

get-empty : (t : Table) (j : List ℕ) → t.buckets ≡ replicate t.capacity [] → get t j ≡ none
unfolding find_entry
get-empty t j e =
    ground (arith, get-found t j, get_or-replicate {A = List Node} t.capacity (index_of j t) [])

empty-IsValid :
    (t : Table) → 0 < t.capacity → t.buckets ≡ replicate t.capacity [] → t.size ≡ 0 → IsValid t
empty-IsValid t roomy e none_in = record {
  roomy = roomy;
  width = rw e (length-replicate t.capacity []);
  distinct = λ i. subst (λ bs. Distinct (get_or bs i [])) (sym e) (Distinct-empty t.capacity i);
  counted = rw (e, none_in) (sym (entries-replicate t.capacity));
}

-- A table that create returns is well formed and finds nothing under any key.
pub infra_hash_create-empty :
    (y : System) (given : Bool) (capacity : ℕ) (s : y.State) (t : Table)
    → (infra_hash_create y given capacity s).1 ≡ some t
    → IsValid t × ((j : List ℕ) → get t j ≡ none)
unfolding infra_hash_create
infra_hash_create-empty y given capacity s t e =
    let roomy : 0 < t.capacity = ground arith in
    let blank : t.buckets ≡ replicate t.capacity [] = ground arith in
    let sized : t.size ≡ 0 = ground arith in
    (empty-IsValid t roomy blank sized, λ j. get-empty t j blank)

-- Clear keeps the table well formed, with nothing under any key.
pub infra_hash_clear-empty :
    (y : System) (t t' : Table) (s : y.State)
    → IsValid t
    → (infra_hash_clear y (some t) s).0 ≡ some t'
    → IsValid t' × ((j : List ℕ) → get t' j ≡ none)
unfolding infra_hash_clear
infra_hash_clear-empty y t t' s v e =
    let roomy : 0 < t'.capacity = ground (arith, v.roomy) in
    let blank : t'.buckets ≡ replicate t'.capacity [] = ground arith in
    let sized : t'.size ≡ 0 = ground arith in
    (empty-IsValid t' roomy blank sized, λ j. get-empty t' j blank)
