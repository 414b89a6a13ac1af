-- ===== src/ThreadPool/Steps.antt =====
-- The pool of infra/infra_sync.c with its workers, its submitters and the thread that destroys it,
-- interleaved in any order.
use ai_ppdb.Base.{
  ℕ, ◌<◌, ◌≡◌, Bool, List, [], ◌∷◌, ◌++◌, get_or, set, length, replicate, if◌then◌else◌,
}
use ai_ppdb.Error.{InfraError, is_error}
use ai_ppdb.ThreadPool.{
  Task, ThreadPool, Worker, ready, busy, gone, worker_thread, Submitted, waits, returns, submit,
  close, all_returned,
}

-- Before `infra_thread_pool_destroy`, in its loop, and past the loop.
pub data Closer : Type 0 where
  open_pool polling past : Closer

-- `submitted` and `started` record the tasks that were accepted and those that a worker took, in the
-- order in which that happened.
pub record Plant : Type 0 where
  pub pool : ThreadPool
  pub workers : List Worker
  pub closer : Closer
  pub submitted : List Task
  pub started : List Task

-- The task that a worker has just taken.
abbrev pub taken : Worker → Worker → List Task
taken (busy t) w = []
taken v (busy t) = t ∷ []
taken v w = []

abbrev pub worker_at : ℕ → Plant → Worker
worker_at i s = get_or s.workers i gone

-- The worker at `i` runs on, with a timeout or without.
unfoldable pub work : ℕ → Bool → Plant → Plant
work i timed_out s =
    let v = worker_at i s in
    let (p, w) = worker_thread timed_out s.pool v in
    record s { pool = p; workers = set s.workers i w; started = s.started ++ taken v w }

abbrev pub accept : Task → ThreadPool → Bool → InfraError → Plant → Plant
accept task p grown err s = record s {
  pool = p;
  workers = if grown then s.workers ++ ready ∷ [] else s.workers;
  submitted = if is_error err then s.submitted else s.submitted ++ task ∷ [];
}

abbrev pub offered : Task → Submitted → Plant → Plant
offered task waits s = s
offered task (returns err p grown) s = accept task p grown err s

-- A thread runs `infra_thread_pool_submit`; where it waits, or its wait fails, nothing changes.
unfoldable pub offer : Task → Bool → Bool → Plant → Plant
offer task allocated created s = offered task (submit task allocated created s.pool) s

-- `infra_thread_pool_destroy` sets its flags, and later polls.
unfoldable pub begin_destroy : Plant → Plant
begin_destroy s = record s { pool = close s.pool; closer = polling }

unfoldable pub poll : Plant → Plant
poll s = if all_returned s.pool then record s { closer = past } else s

-- Nothing uses the pool once it is freed, and it is destroyed once.
pub data Step (s : Plant) : Plant → Type 0 where
  works : (i : ℕ) (timed_out : Bool) → i < length s.workers → Step s (work i timed_out s)
  offers : (task : Task) (allocated created : Bool) → Step s (offer task allocated created s)
  begins : s.closer ≡ open_pool → Step s (begin_destroy s)
  polls : s.closer ≡ polling → Step s (poll s)

pub data Reach (s : Plant) : Plant → Type 0 where
  here : Reach s s
  next : {t u : Plant} → Reach s t → Step t u → Reach s u

-- A pool that was just made: as many workers as threads were counted.
abbrev pub start : ThreadPool → Plant
start p = record {
  pool = p;
  workers = replicate p.thread_count ready;
  closer = open_pool;
  submitted = [];
  started = [];
}
