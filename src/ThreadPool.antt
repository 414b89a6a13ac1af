-- ===== src/ThreadPool.antt =====
-- The thread pool of infra/infra_sync.c (in ppdb/src/internal). What runs between taking the pool's
-- mutex and releasing it, or waiting on a condition, is one function here.
pub mod Steps
pub mod Counts
pub mod Round
pub mod Invariant
pub mod Order
pub mod Shutdown
pub mod Ending
pub mod Creation
use ai_ppdb.Base.{
  ℕ, zero, suc, ◌==◌, ◌&&◌, ◌||◌, Bool, true, false, not, List, [], ◌∷◌, ◌++◌, Option, none, some,
  ltb, leb, if◌then◌else◌, is_null,
}
use ai_ppdb.Base.Words.{add64, sub64}
use ai_ppdb.Error.{InfraError, ok, invalid_param, no_memory, not_ready, is_error}
use ai_ppdb.System.{System}

-- `infra_task_t`, by the numbers of its function and its argument.
pub record Task : Type 0 where
  pub func : ℕ
  pub arg : ℕ

-- `infra_thread_pool_config_t`
pub record PoolConfig : Type 0 where
  pub min_threads : ℕ
  pub max_threads : ℕ
  pub queue_size : ℕ
  pub idle_timeout : ℕ

-- `infra_thread_pool_t`; `tasks` is the list from `task_head` to `task_tail`.
pub record ThreadPool : Type 0 where
  pub thread_count : ℕ
  pub min_threads : ℕ
  pub max_threads : ℕ
  pub queue_size : ℕ
  pub idle_timeout : ℕ
  pub tasks : List Task
  pub task_count : ℕ
  pub active_count : ℕ
  pub running : Bool
  pub shutting_down : Bool

-- Where a worker thread stands in `worker_thread`: before the test of `running`, after it, in
-- `infra_cond_timedwait`, at its task, returned from inside the loop, or returned below it.
pub data Worker : Type 0 where
  ready entering waiting : Worker
  busy : Task → Worker
  gone left : Worker

-- `while (pool->running)`
unfoldable pub test_running : ThreadPool → Worker
test_running p = if p.running then entering else left

-- After the inner loop, with the mutex held.
unfoldable pub serve : ThreadPool → ThreadPool × Worker
serve p = elim p.tasks [
  | [] ↦
      if p.shutting_down
      then (record p { thread_count = sub64 p.thread_count 1 }, gone)
      else (p, ready)
  | t ∷ ts ↦ (
    record p {
      tasks = ts;
      task_count = sub64 p.task_count 1;
      active_count = add64 p.active_count 1;
    },
    busy t,
  )
]

-- The test of the inner loop: it waits, or goes on.
unfoldable pub enter : ThreadPool → ThreadPool × Worker
unfolding serve
enter p = elim p.tasks [ [] ↦ if p.shutting_down then serve p else (p, waiting) | t ∷ ts ↦ serve p ]

-- The return of `infra_cond_timedwait`, with a timeout or without.
unfoldable pub wake : Bool → ThreadPool → ThreadPool × Worker
wake timed_out p =
    if timed_out && ltb p.min_threads p.thread_count
    then (record p { thread_count = sub64 p.thread_count 1 }, gone)
    else enter p

-- After the task's function has returned.
unfoldable pub finish : ThreadPool → ThreadPool × Worker
finish p = (record p { active_count = sub64 p.active_count 1 }, ready)

-- One round of a worker. A worker that returned stays as it is.
unfoldable pub worker_thread : Bool → ThreadPool → Worker → ThreadPool × Worker
worker_thread timed_out p ready = (p, test_running p)
worker_thread timed_out p entering = enter p
worker_thread timed_out p waiting = wake timed_out p
worker_thread timed_out p (busy t) = finish p
worker_thread timed_out p gone = (p, gone)
worker_thread timed_out p left = (p, left)

-- How `infra_thread_pool_submit` goes on: it waits for room, or returns, with a new worker or not.
pub data Submitted : Type 0 where
  waits : Submitted
  returns : InfraError → ThreadPool → Bool → Submitted

-- The end of `infra_thread_pool_submit`, the task being in the queue; `created` is whether
-- `infra_thread_create` would succeed.
unfoldable pub grow : Bool → ThreadPool → Submitted
grow created p =
    if ltb p.thread_count p.max_threads && p.active_count == p.thread_count && created
    then returns ok (record p { thread_count = add64 p.thread_count 1 }) true
    else returns ok p false

-- `infra_thread_pool_submit` from where it takes the mutex, or from the return of `infra_cond_wait`.
-- `allocated` is whether `infra_malloc` would succeed.
unfoldable pub submit : Task → Bool → Bool → ThreadPool → Submitted
submit task allocated created p =
    if p.shutting_down
    then returns not_ready p false
    else if leb p.queue_size p.task_count
    then waits
    else if not allocated
    then returns no_memory p false
    else grow created (record p { tasks = p.tasks ++ task ∷ []; task_count = add64 p.task_count 1 })

-- `pool == NULL` is `none`, `func == NULL` is `given ≡ false`.
unfoldable pub infra_thread_pool_submit :
    Option ThreadPool → Bool → Task → Bool → Bool → Option Submitted
infra_thread_pool_submit none given task allocated created = none
infra_thread_pool_submit (some p) false task allocated created = none
infra_thread_pool_submit (some p) true task allocated created =
    some (submit task allocated created p)

-- `infra_thread_pool_destroy` up to its loop, and the test of the loop.
unfoldable pub close : ThreadPool → ThreadPool
close p = record p { shutting_down = true; running = false }

unfoldable pub all_returned : ThreadPool → Bool
all_returned p = p.thread_count == 0

unfoldable pub infra_thread_pool_get_stats : Option ThreadPool → Bool → InfraError × Option (ℕ × ℕ)
infra_thread_pool_get_stats none given = (invalid_param, none)
infra_thread_pool_get_stats (some p) false = (invalid_param, none)
infra_thread_pool_get_stats (some p) true = (ok, some (p.active_count, p.task_count))

-- The checks of `infra_thread_pool_create`.
unfoldable pub config_rejected : PoolConfig → Bool
config_rejected c =
    c.min_threads == 0 || c.max_threads == 0 || ltb c.max_threads c.min_threads || c.queue_size == 0

abbrev pub new_pool : PoolConfig → ThreadPool
new_pool c = record {
  thread_count = 0;
  min_threads = c.min_threads;
  max_threads = c.max_threads;
  queue_size = c.queue_size;
  idle_timeout = c.idle_timeout;
  tasks = [];
  task_count = 0;
  active_count = 0;
  running = true;
  shutting_down = false;
}

-- What `infra_thread_pool_create` calls besides the allocator.
pub record ThreadCalls (y : System) : Type 0 where
  pub mutex_create : y.State → InfraError × y.State
  pub mutex_destroy : y.State → y.State
  pub cond_init : y.State → InfraError × y.State
  pub cond_destroy : y.State → y.State
  pub thread_create : y.State → InfraError × y.State

-- How `infra_thread_pool_create` ends: with an error, with a pool, or, where a thread could not be
-- made, waiting for those that were made to return before it frees the pool.
pub data Created : Type 0 where
  refused : InfraError → Created
  unwinding : InfraError → ThreadPool → Created
  made : ThreadPool → Created

module _ (y : System) (calls : ThreadCalls y) where
  open y use {State, malloc, free}
  open calls use {mutex_create, mutex_destroy, cond_init, cond_destroy, thread_create}

  -- The loop over the initial threads, `n` of them still to be made.
  unfoldable pub start_threads : ℕ → ThreadPool → State → Created × State
  start_threads zero p s = (made p, s)
  start_threads (suc n) p s =
      let (err, s') = thread_create s in
      let rest = start_threads n (record p { thread_count = add64 p.thread_count 1 }) s' in
      if is_error err then (unwinding err (record p { shutting_down = true }), s') else rest

  -- From the mutex on, for the structure at `a`.
  unfoldable pub init_pool : PoolConfig → ℕ → State → Created × State
  init_pool c a s =
      let (err, s₁) = mutex_create s in
      let (err', s₂) = cond_init s₁ in
      let (err'', s₃) = cond_init s₂ in
      if is_error err
      then (refused err, free a s₁)
      else if is_error err'
      then (refused err', free a (mutex_destroy s₂))
      else if is_error err''
      then (refused err'', free a (mutex_destroy (cond_destroy s₃)))
      else start_threads c.min_threads (new_pool c) s₃

  -- `sizeof(infra_thread_pool_t)` is 104.
  unfoldable pub infra_thread_pool_create : Option PoolConfig → Bool → State → Created × State
  infra_thread_pool_create none given s = (refused invalid_param, s)
  infra_thread_pool_create (some c) false s = (refused invalid_param, s)
  infra_thread_pool_create (some c) true s =
      let (block, s') = malloc 104 s in
      let begun : Created × State = elim block [
        | none ↦ (refused no_memory, s')
        | some a ↦ init_pool c a s'
      ] in
      if config_rejected c then (refused invalid_param, s) else begun
