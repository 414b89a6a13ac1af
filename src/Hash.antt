-- ===== src/Hash.antt =====
-- The hash table of infra/infra_ds.c (in ppdb/src/internal): separate chaining, new entries first.
-- Bytes of a key are numbers below 256 without the terminating zero. `char` is signed, as on x86-64.
pub mod Chain
pub mod Laws
pub mod Blocks
use ai_ppdb.Base.{
  ℕ, suc, ◌+◌, ◌-◌, ◌*◌, ◌%◌, Bool, true, false, not, ◌||◌, List, [], ◌∷◌, Option, none, some,
  length, get_or, set, replicate, bytes_eq, ltb, ◌==◌, if◌then◌else◌,
}
use ai_ppdb.Base.Words.{word, add64, sub64, mul64}
use ai_ppdb.Error.{InfraError, ok, invalid_param, no_memory}
use ai_ppdb.System.{System}

-- `infra_hash_node_t`, with the addresses of the node and of its copy of the key. `next` is the
-- order of the bucket's list; a `void *` is an address or NULL.
pub record Node : Type 0 where
  pub addr : ℕ
  pub key_addr : ℕ
  pub key : List ℕ
  pub value : Option ℕ

-- `infra_hash_t`, with the addresses of the structure and of the bucket array.
pub record Table : Type 0 where
  pub addr : ℕ
  pub buckets_addr : ℕ
  pub buckets : List (List Node)
  pub size : ℕ
  pub capacity : ℕ

-- A `char` as it is added to a `size_t`.
abbrev pub char_value : ℕ → ℕ
char_value c = if ltb c 128 then c else word - 256 + c

pub hash_from : ℕ → List ℕ → ℕ
hash_from hash [] = hash
hash_from hash (c ∷ str) = hash_from (add64 (add64 (mul64 hash 32) hash) (char_value c)) str

unfoldable pub hash_string : List ℕ → ℕ
unfolding hash_from
hash_string str = hash_from 5381 str

-- The search of a bucket, `while (entry != NULL)`.
unfoldable pub find_entry : List ℕ → List Node → Option Node
find_entry key [] = none
find_entry key (n ∷ ns) = if bytes_eq n.key key then some n else find_entry key ns

-- `entry->value = value` at the entry that the search stops at.
unfoldable pub assign : List ℕ → Option ℕ → List Node → List Node
assign key value [] = []
assign key value (n ∷ ns) =
    if bytes_eq n.key key then record n { value = value } ∷ ns else n ∷ assign key value ns

-- Taking that entry out of the bucket.
unfoldable pub unlink : List ℕ → List Node → List Node
unlink key [] = []
unlink key (n ∷ ns) = if bytes_eq n.key key then ns else n ∷ unlink key ns

unfoldable pub index_of : List ℕ → Table → ℕ
index_of key t = hash_string key % t.capacity

abbrev pub bucket_of : List ℕ → Table → List Node
bucket_of key t = get_or t.buckets (index_of key t) []

module _ (y : System) where
  open y use {State, malloc, free}

  -- `hash == NULL` is `given ≡ false`. The array is taken to have `capacity` slots, also where its size
  -- in bytes wraps and the source writes past its end.
  unfoldable pub infra_hash_create : Bool → ℕ → State → InfraError × Option Table × State
  infra_hash_create given capacity s =
      let (table, s₁) = malloc 24 s in
      let (array, s₂) = malloc (mul64 8 capacity) s₁ in
      let made : InfraError × Option Table × State = elim table [
        | none ↦ (no_memory, none, s₁)
        | some a ↦ elim array [
          | none ↦ (no_memory, none, free a s₂)
          | some b ↦ (
            ok,
            some (record {
              addr = a;
              buckets_addr = b;
              buckets = replicate capacity [];
              size = 0;
              capacity = capacity;
            }),
            s₂,
          )
        ]
      ] in
      if not given || capacity == 0 then (invalid_param, none, s) else made

  -- The end of `infra_hash_put`: a new entry for a key that is not there. `infra_strdup` asks for the
  -- key and its terminating zero.
  unfoldable pub put_new : Table → List ℕ → Option ℕ → State → InfraError × Table × State
  put_new t key value s =
      let (node, s₁) = malloc 24 s in
      let (copy, s₂) = malloc (add64 (length key) 1) s₁ in
      elim node [
        | none ↦ (no_memory, t, s₁)
        | some a ↦ elim copy [
          | none ↦ (no_memory, t, free a s₂)
          | some k ↦ (
            ok,
            record t {
              buckets =
                  set t.buckets (index_of key t)
                    (record { addr = a; key_addr = k; key = key; value = value } ∷ bucket_of key t);
              size = add64 t.size 1;
            },
            s₂,
          )
        ]
      ]

  unfoldable pub put : Table → List ℕ → Option ℕ → State → InfraError × Table × State
  put t key value s = elim (find_entry key (bucket_of key t)) [
    | some n ↦ (
      ok,
      record t { buckets = set t.buckets (index_of key t) (assign key value (bucket_of key t)) },
      s,
    )
    | none ↦ put_new t key value s
  ]

  unfoldable pub infra_hash_put :
      Option Table → Option (List ℕ) → Option ℕ → State → InfraError × Option Table × State
  infra_hash_put none key value s = (invalid_param, none, s)
  infra_hash_put (some t) none value s = (invalid_param, some t, s)
  infra_hash_put (some t) (some key) value s =
      let (err, t', s') = put t key value s in (err, some t', s')

  -- `infra_free(entry->key); infra_free(entry)`
  unfoldable pub free_node : Node → State → State
  free_node n s = free n.addr (free n.key_addr s)

  unfoldable pub remove : Table → List ℕ → State → Option ℕ × Table × State
  remove t key s = elim (find_entry key (bucket_of key t)) [
    | none ↦ (none, t, s)
    | some n ↦ (
      n.value,
      record t {
        buckets = set t.buckets (index_of key t) (unlink key (bucket_of key t));
        size = sub64 t.size 1;
      },
      free_node n s,
    )
  ]

  unfoldable pub infra_hash_remove :
      Option Table → Option (List ℕ) → State → Option ℕ × Option Table × State
  infra_hash_remove none key s = (none, none, s)
  infra_hash_remove (some t) none s = (none, some t, s)
  infra_hash_remove (some t) (some key) s =
      let (value, t', s') = remove t key s in (value, some t', s')

  unfoldable pub free_bucket : List Node → State → State
  unfolding free_node
  free_bucket [] s = s
  free_bucket (n ∷ ns) s = free_bucket ns (free_node n s)

  unfoldable pub free_buckets : List (List Node) → State → State
  unfolding free_bucket
  free_buckets [] s = s
  free_buckets (b ∷ bs) s = free_buckets bs (free_bucket b s)

  unfoldable pub infra_hash_destroy : Option Table → State → State
  unfolding free_buckets
  infra_hash_destroy none s = s
  infra_hash_destroy (some t) s = free t.addr (free t.buckets_addr (free_buckets t.buckets s))

  unfoldable pub infra_hash_clear : Option Table → State → Option Table × State
  unfolding free_buckets
  infra_hash_clear none s = (none, s)
  infra_hash_clear (some t) s =
      (some (record t { buckets = replicate t.capacity []; size = 0 }), free_buckets t.buckets s)

-- A NULL result for a missing key is the same as for a key that stores NULL.
unfoldable pub get : Table → List ℕ → Option ℕ
get t key = elim (find_entry key (bucket_of key t)) [ none ↦ none | some n ↦ n.value ]

unfoldable pub infra_hash_get : Option Table → Option (List ℕ) → Option ℕ
infra_hash_get none key = none
infra_hash_get (some t) none = none
infra_hash_get (some t) (some key) = get t key
