-- ===== src/Runtime.antt =====
-- What the program takes from the C library and the operating system: pthreads and the heap.
-- Each call reads and changes the outside world and may fail as it pleases.
use ai_ppdb.Base.{ℕ, Option}

-- A mutex that a call is given: a handle, or the address of the field that holds the handle.
pub data MutexRef : Type 0 where
  handle : ℕ → MutexRef
  field_address : MutexRef

pub record Runtime : Type 1 where
  pub World : Type 0
  -- `malloc`, `free`: an address, or NULL.
  pub malloc : ℕ → World → Option ℕ × World
  pub free : ℕ → World → World
  pub realloc : ℕ → ℕ → World → Option ℕ × World
  -- The 8-byte word at an address.
  pub load : ℕ → World → ℕ
  pub store : ℕ → ℕ → World → World
  -- `malloc` and `pthread_mutex_init`; `none` where the latter fails.
  pub mutex_init : World → Option ℕ × World
  pub mutex_destroy : MutexRef → World → World
  -- `pthread_create`, `pthread_join` with the handle's block.
  pub thread_create : World → Option ℕ × World
  pub thread_join : ℕ → World → World
