-- ===== src/Tests/Machine.antt =====
-- A small machine: blocks and descriptors are numbered in turn, and large blocks are refused.
use ai_ppdb.Base.{
  ℕ, ◌+◌, ◌*◌, refl, Bool, false, Option, none, some, arith, ltb, if◌then◌else◌, ◌||◌,
}
use ai_ppdb.Runtime.{Runtime}
use ai_ppdb.System.{System, IsSystem, insert, delete}

pub record Desk : Type 0 where
  pub next : ℕ
  pub held : ℕ → Bool
  pub files : ℕ → Bool

abbrev take_block : ℕ → Desk → Option ℕ × Desk
take_block n s =
    if ltb 4096 n || s.held s.next
    then (none, s)
    else (some s.next, record s { next = s.next + 1; held = insert s.next s.held })

abbrev pub take_file : Desk → Option ℕ × Desk
take_file s =
    if s.files s.next
    then (none, s)
    else (some s.next, record s { next = s.next + 1; files = insert s.next s.files })

abbrev pub machine : System
machine = record {
  State = Desk;
  malloc = take_block;
  free = λ p s. record s { held = delete p s.held };
  realloc = λ p n s. take_block n s;
  epoll_create = take_file;
  close = λ d s. record s { files = delete d s.files };
  live = λ s. s.held;
  opened = λ s. s.files;
}

pub machine-IsSystem : IsSystem machine
machine-IsSystem = record {
  malloc-fresh = λ n s p e. ground arith;
  malloc-live = λ n s p q e. ground arith;
  malloc-fail = λ n s q e. ground arith;
  malloc-opened = λ n s q. ground arith;
  free-live = λ p s q. refl;
  free-opened = λ p s q. refl;
  epoll-fresh = λ s d e. ground arith;
  epoll-opened = λ s d q e. ground arith;
  epoll-fail = λ s q e. ground arith;
  epoll-live = λ s q. ground arith;
  close-live = λ d s q. refl;
  close-opened = λ d s q. refl;
}

abbrev pub empty_desk : Desk
empty_desk = record { next = 1; held = λ p. false; files = λ d. false }

-- The C library over a counter: the n-th block stands at 4096 n, and words read as 0.
abbrev pub counter : Runtime
counter = record {
  World = ℕ;
  malloc = λ n w. (some (4096 * w), w + 1);
  free = λ p w. w;
  realloc = λ p n w. (some (4096 * w), w + 1);
  load = λ p w. 0;
  store = λ p v w. w;
  mutex_init = λ w. (some w, w + 1);
  mutex_destroy = λ m w. w;
  thread_create = λ w. (some w, w + 1);
  thread_join = λ t w. w;
}
