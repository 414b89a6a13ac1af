-- ===== src/ThreadPool/Creation.antt =====
-- What holds of every pool that `infra_thread_pool_create` of infra/infra_sync.c has made, at all
-- times after.
use ai_ppdb.Base.{
  ℕ, zero, suc, ◌+◌, ◌<◌, ◌≡◌, refl, sym, subst, inl, inr, Bool, true, false, [], arith, if_split,
  none, some, Option-cases, Bool-cases,
}
use ai_ppdb.Base.Words.{word, add64}
use ai_ppdb.Error.{no_memory, is_error}
use ai_ppdb.System.{System}
use ai_ppdb.ThreadPool.{
  PoolConfig, ThreadPool, ready, gone, config_rejected, new_pool, ThreadCalls, Created, refused,
  unwinding, made, start_threads, init_pool, infra_thread_pool_create,
}
use ai_ppdb.ThreadPool.Steps.{Plant, past, worker_at, Reach, start}
use ai_ppdb.ThreadPool.Counts.{is_busy, is_counted, count-replicate}
use ai_ppdb.ThreadPool.Invariant.{Inv, Reach-Inv}
use ai_ppdb.ThreadPool.Order.{Ordered, Reach-Ordered}
use ai_ppdb.ThreadPool.Ending.{past-all_gone}

-- A pool that is made has the threads asked for; one that is given up has fewer, and is closing.
abbrev pub Fresh : PoolConfig → Created → Type 0
Fresh c (refused err) = is_error err ≡ true
Fresh c (unwinding err p) =
    (is_error err ≡ true)
    × (p.shutting_down ≡ true)
    × (p.tasks ≡ [])
    × (p.thread_count < c.min_threads)
Fresh c (made p) = p ≡ record (new_pool c) { thread_count = c.min_threads }

start-Inv :
    (c : PoolConfig)
    → config_rejected c ≡ false
    → c.queue_size < word
    → c.max_threads + 1 < word
    → Inv (start (record (new_pool c) { thread_count = c.min_threads }))
unfolding config_rejected
start-Inv c e h k = record {
  tasks = refl;
  active = sym (count-replicate is_busy c.min_threads ready);
  threads = sym (count-replicate is_counted c.min_threads ready);
  room = omega arith;
  bound = ground arith;
  fits = (h, k);
}

module _ (y : System) (calls : ThreadCalls y) where
  open y use {State, malloc, free}
  open calls use {mutex_create, mutex_destroy, cond_init, cond_destroy, thread_create}

  start_threads-Fresh :
      (c : PoolConfig) (n k : ℕ) (s : State)
      → k + n ≡ c.min_threads
      → c.min_threads < word
      → Fresh c (start_threads y calls n (record (new_pool c) { thread_count = k }) s).0
  unfolding start_threads
  start_threads-Fresh c zero k s e h = let q : k ≡ c.min_threads = omega arith in rw q refl
  start_threads-Fresh c (suc n) k s e h =
      let rest = start_threads-Fresh c n (k + 1) (thread_create s).1 (omega arith) h in
      let same : add64 k 1 ≡ k + 1 = omega arith in
      if_split (λ (r : Created × State). Fresh c r.0) (is_error (thread_create s).0) _ _
        (λ failed. (failed, refl, refl, omega arith)) (λ started. rw same rest)

  init_pool-Fresh :
      (c : PoolConfig) (a : ℕ) (s : State)
      → c.min_threads < word
      → Fresh c (init_pool y calls c a s).0
  unfolding init_pool
  init_pool-Fresh c a s h =
      let P : Created × State → Type 0 = λ r. Fresh c r.0 in
      if_split P (is_error (mutex_create s).0) _ _ (λ e. e)
        (λ e.
          if_split P (is_error (cond_init (mutex_create s).1).0) _ _ (λ e. e)
            (λ e.
              if_split P (is_error (cond_init (cond_init (mutex_create s).1).1).0) _ _ (λ e. e)
                (λ e.
                  start_threads-Fresh c c.min_threads 0
                    (cond_init (cond_init (mutex_create s).1).1).1 (omega arith) h)))

  begun-Fresh :
      (c : PoolConfig) (s : State)
      → c.min_threads < word
      → Fresh c
          (elim (malloc 104 s).0 as (λ x. Created × State) [
            | none ↦ (refused no_memory, (malloc 104 s).1)
            | some a ↦ init_pool y calls c a (malloc 104 s).1
          ]).0
  begun-Fresh c s h = elim (Option-cases (malloc 104 s).0) [
    | inl e ↦ rw e refl
    | inr (a, e) ↦ rw e (init_pool-Fresh c a (malloc 104 s).1 h)
  ]

  -- A pool that is made has its first threads; one that is given up is closing.
  pub infra_thread_pool_create-Fresh :
      (c : PoolConfig) (given : Bool) (s : State)
      → c.min_threads < word
      → Fresh c (infra_thread_pool_create y calls (some c) given s).0
  unfolding infra_thread_pool_create
  infra_thread_pool_create-Fresh c false s h = refl
  infra_thread_pool_create-Fresh c true s h =
      if_split (λ (r : Created × State). Fresh c r.0) (config_rejected c) _ _ (λ e. refl)
        (λ e. begun-Fresh c s h)

  accepted_config :
      (c : PoolConfig) (given : Bool) (p : ThreadPool) (s : State)
      → (infra_thread_pool_create y calls (some c) given s).0 ≡ made p
      → config_rejected c ≡ false
  unfolding infra_thread_pool_create
  accepted_config c false p s e = cc
  accepted_config c true p s e = elim (Bool-cases (config_rejected c)) [
    | inl bad ↦ cc
    | inr good ↦ good
  ]

  made-start :
      (c : PoolConfig) (given : Bool) (p : ThreadPool) (s : State)
      → c.min_threads < word
      → (infra_thread_pool_create y calls (some c) given s).0 ≡ made p
      → p ≡ record (new_pool c) { thread_count = c.min_threads }
  made-start c given p s h e =
      let f = infra_thread_pool_create-Fresh c given s h in subst (Fresh c) e f

  made-Inv :
      (c : PoolConfig) (given : Bool) (p : ThreadPool) (s : State)
      → c.queue_size < word
      → c.max_threads + 1 < word
      → (infra_thread_pool_create y calls (some c) given s).0 ≡ made p
      → Inv (start p)
  unfolding config_rejected
  made-Inv c given p s h k e =
      let good = accepted_config c given p s e in
      rw (made-start c given p s (ground arith) e) (start-Inv c good h k)

  -- In every state that a pool which creation returned reaches, however workers, submissions
  -- and the destruction are interleaved, with sizes that stay below 2^64: the counters count
  -- the queue, the workers at a task and the workers that have not returned from inside their
  -- loop, and the queue and the threads are within their bounds.
  pub created-Inv :
      (c : PoolConfig) (given : Bool) (p : ThreadPool) (s : State) (t : Plant)
      → c.queue_size < word
      → c.max_threads + 1 < word
      → (infra_thread_pool_create y calls (some c) given s).0 ≡ made p
      → Reach (start p) t
      → Inv t
  created-Inv c given p s t h k e r = Reach-Inv r (made-Inv c given p s h k e)

  -- In every state that a pool which creation returned reaches, with less than 2^64 initial
  -- threads, the accepted tasks are those that workers took, in that order, followed by those
  -- in the queue: none is lost, run twice or overtaken.
  pub created-Ordered :
      (c : PoolConfig) (given : Bool) (p : ThreadPool) (s : State) (t : Plant)
      → c.min_threads < word
      → (infra_thread_pool_create y calls (some c) given s).0 ≡ made p
      → Reach (start p) t
      → Ordered t
  created-Ordered c given p s t h e r = Reach-Ordered r (rw (made-start c given p s h e) refl)

  -- Once infra_thread_pool_destroy is past its loop, on a pool that creation returned, with
  -- sizes that stay below 2^64, every worker has returned: none uses the pool that is then
  -- freed.
  pub created-past :
      (c : PoolConfig) (given : Bool) (p : ThreadPool) (s : State) (t : Plant)
      → c.queue_size < word
      → c.max_threads + 1 < word
      → (infra_thread_pool_create y calls (some c) given s).0 ≡ made p
      → Reach (start p) t
      → t.closer ≡ past
      → (j : ℕ) → worker_at j t ≡ gone
  created-past c given p s t h k e r q = past-all_gone (made-Inv c given p s h k e) refl r q
