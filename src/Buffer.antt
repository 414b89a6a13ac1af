-- ===== src/Buffer.antt =====
-- The growing byte buffer of infra/infra_core.c (in ppdb/src/internal). `written` is the bytes below
-- `size`; those between `size` and `capacity` are never read. A grown block keeps its bytes.
pub mod Laws
use ai_ppdb.Base.{
  ℕ, zero, suc, ◌-◌, ◌==◌, ◌||◌, Bool, true, false, not, List, [], ◌∷◌, ◌++◌, Option, none, some,
  length, take, ltb, leb, if◌then◌else◌, is_null,
}
use ai_ppdb.Base.Words.{add64, sub64, mul64}
use ai_ppdb.Error.{InfraError, ok, invalid_param, no_memory, is_error}
use ai_ppdb.System.{System}

-- `infra_buffer_t`
pub record Buffer : Type 0 where
  pub data_addr : Option ℕ
  pub written : List ℕ
  pub size : ℕ
  pub capacity : ℕ

module _ (y : System) where
  open y use {State, malloc, free, realloc}

  -- What `*buf` holds before does not matter, but stays there on an error.
  unfoldable pub infra_buffer_init : Option Buffer → ℕ → State → InfraError × Option Buffer × State
  infra_buffer_init none initial_capacity s = (invalid_param, none, s)
  infra_buffer_init (some b) initial_capacity s =
      let (block, s') = malloc initial_capacity s in
      if initial_capacity == 0
      then (invalid_param, some b, s)
      else if is_null block
      then (no_memory, some (record b { data_addr = none }), s')
      else (
        ok,
        some (record { data_addr = block; written = []; size = 0; capacity = initial_capacity }),
        s',
      )

  unfoldable pub infra_buffer_destroy : Option Buffer → State → Option Buffer × State
  infra_buffer_destroy none s = (none, s)
  infra_buffer_destroy (some b) s = elim b.data_addr [
    | none ↦ (some b, s)
    | some a ↦ (some (record { data_addr = none; written = []; size = 0; capacity = 0 }), free a s)
  ]

  unfoldable pub reserve : Buffer → ℕ → State → InfraError × Buffer × State
  reserve b capacity s =
      let (block, s') = realloc b.data_addr capacity s in
      if leb capacity b.capacity
      then (ok, b, s)
      else if is_null block
      then (no_memory, b, s')
      else (ok, record b { data_addr = block; capacity = capacity }, s')

  unfoldable pub infra_buffer_reserve :
      Option Buffer → ℕ → State → InfraError × Option Buffer × State
  infra_buffer_reserve none capacity s = (invalid_param, none, s)
  infra_buffer_reserve (some b) capacity s =
      let (err, b', s') = reserve b capacity s in (err, some b', s')

  -- The capacity that a write of `n` bytes asks for.
  unfoldable pub grown_capacity : Buffer → ℕ → ℕ
  grown_capacity b n =
      let doubled = mul64 b.capacity 2 in
      if ltb doubled (add64 b.size n) then add64 b.size n else doubled

  -- `infra_memcpy(buf->data + buf->size, data, size); buf->size += size`
  abbrev pub copy_in : List ℕ → Buffer → Buffer
  copy_in bytes b = record b { written = b.written ++ bytes; size = add64 b.size (length bytes) }

  unfoldable pub write : Buffer → List ℕ → State → InfraError × Buffer × State
  write b bytes s =
      let (err, b', s') = reserve b (grown_capacity b (length bytes)) s in
      if ltb b.capacity (add64 b.size (length bytes))
      then if is_error err then (err, b', s') else (ok, copy_in bytes b', s')
      else (ok, copy_in bytes b, s)

  -- `size` is the length of `data`.
  unfoldable pub infra_buffer_write :
      Option Buffer → Option (List ℕ) → State → InfraError × Option Buffer × State
  infra_buffer_write none bytes s = (invalid_param, none, s)
  infra_buffer_write (some b) none s = (invalid_param, some b, s)
  infra_buffer_write (some b) (some []) s = (invalid_param, some b, s)
  infra_buffer_write (some b) (some (c ∷ bytes)) s =
      let (err, b', s') = write b (c ∷ bytes) s in (err, some b', s')

-- The bytes stay in the buffer. `data == NULL` is `given ≡ false`.
unfoldable pub infra_buffer_read : Option Buffer → Bool → ℕ → InfraError × List ℕ
infra_buffer_read none given size = (invalid_param, [])
infra_buffer_read (some b) given size =
    if not given || size == 0
    then (invalid_param, [])
    else if ltb b.size size
    then (invalid_param, [])
    else (ok, take size b.written)

unfoldable pub infra_buffer_readable : Option Buffer → ℕ
infra_buffer_readable none = 0
infra_buffer_readable (some b) = b.size

unfoldable pub infra_buffer_writable : Option Buffer → ℕ
infra_buffer_writable none = 0
infra_buffer_writable (some b) = sub64 b.capacity b.size

unfoldable pub infra_buffer_reset : Option Buffer → Option Buffer
infra_buffer_reset none = none
infra_buffer_reset (some b) = some (record b { written = []; size = 0 })
