-- ===== src/Tests/Starts.antt =====
-- The start and the end of the layer over a C library that numbers its mutexes.
use ai_ppdb.Base.{ℕ, ◌+◌, refl, Bool, false, not, ◌==◌, ◌&&◌, ◌||◌, none, some, arith, ltb}
use ai_ppdb.Base.Int.{pos}
use ai_ppdb.Runtime.{Runtime, MutexRef, handle, field_address}
use ai_ppdb.Memory.{zero_memory}
use ai_ppdb.Core.{Core, infra_init}
use ai_ppdb.Core.Leak.{IsMutexes, Leaks, infra_init-Leaks}

-- The mutexes that are open, all of them below `next`.
record Mutexes : Type 0 where
  next : ℕ
  held : ℕ → Bool

abbrev is_open : Mutexes → ℕ → Bool
is_open w q = ltb q w.next && w.held q

abbrev destroyed : MutexRef → Mutexes → Mutexes
destroyed (handle h) w = record w { held = λ q. not (q == h) && w.held q }
destroyed field_address w = w

abbrev library : Runtime
library = record {
  World = Mutexes;
  malloc = λ n w. (none, w);
  free = λ p w. w;
  realloc = λ p n w. (none, w);
  load = λ p w. 0;
  store = λ p v w. w;
  mutex_init =
      λ w. (some w.next, record { next = w.next + 1; held = λ q. q == w.next || w.held q });
  mutex_destroy = destroyed;
  thread_create = λ w. (none, w);
  thread_join = λ t w. w;
}

library-IsMutexes : IsMutexes library
library-IsMutexes = record {
  opened = is_open;
  init-fresh = λ w h e. ground arith;
  init-opened = λ w h q e. ground arith;
  destroy-opened = λ w h q. ground arith;
}

abbrev idle : Core
idle = record {
  initialized = false;
  active_flags = 0;
  mutex = none;
  log_level = pos 3;
  log_file = none;
  log_callback = none;
  log_mutex = none;
  memory = zero_memory;
}

abbrev world : Mutexes
world = record { next = 7; held = λ q. q == 3 }

infra_init-Leaks_example : Leaks library library-IsMutexes world (infra_init library idle world)
infra_init-Leaks_example = infra_init-Leaks library library-IsMutexes idle world refl refl
