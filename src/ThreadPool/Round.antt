-- ===== src/ThreadPool/Round.antt =====
-- What one round of a worker of the pool of infra/infra_sync.c does to the counters.
use ai_ppdb.Base.{
  ◌+◌, ◌≤◌, ◌<◌, ◌≡◌, refl, Bool, true, false, arith, length, if◌then◌else◌, if_split, ltb, ◌&&◌,
}
use ai_ppdb.Base.Words.{word}
use ai_ppdb.ThreadPool.{
  ThreadPool, Worker, ready, entering, waiting, busy, gone, left, test_running, serve, enter, wake,
  finish, worker_thread,
}
use ai_ppdb.ThreadPool.Counts.{one, is_busy, is_counted}

-- What one round of a worker does to the counters, with the worker's place before and after.
pub record Round (p : ThreadPool) (v : Worker) (q : ThreadPool) (w : Worker) : Type 0 where
  pub tasks : q.task_count ≡ length q.tasks
  pub fewer : q.task_count ≤ p.task_count
  pub active : q.active_count + one (is_busy v) ≡ p.active_count + one (is_busy w)
  pub threads : q.thread_count + one (is_counted v) ≡ p.thread_count + one (is_counted w)
  pub no_more : q.thread_count ≤ p.thread_count
  pub sizes : (q.queue_size ≡ p.queue_size) × (q.max_threads ≡ p.max_threads)

abbrev pub Ready : ThreadPool → Worker → Type 0
Ready p v =
    (p.task_count ≡ length p.tasks)
    × (one (is_busy v) ≤ p.active_count)
    × (one (is_counted v) ≤ p.thread_count)
    × (p.active_count + 1 < word)
    × (p.thread_count < word)
    × (p.task_count < word)

unchanged-Round :
    (p : ThreadPool) (v w : Worker)
    → Ready p v
    → is_busy v ≡ is_busy w
    → is_counted v ≡ is_counted w
    → Round p v p w
unchanged-Round p v w h e f = record {
  tasks = h.0;
  fewer = omega arith;
  active = rw e refl;
  threads = rw f refl;
  no_more = omega arith;
  sizes = (refl, refl);
}

enter-Round :
    (p : ThreadPool) (v : Worker)
    → Ready p v
    → is_busy v ≡ false
    → is_counted v ≡ true
    → Round p v (enter p).0 (enter p).1
unfolding serve enter
enter-Round p v h e f = record {
  tasks = ground arith;
  fewer = ground arith;
  active = ground arith;
  threads = ground arith;
  no_more = ground arith;
  sizes = ground arith;
}

wake-Round :
    (timed_out : Bool) (p : ThreadPool)
    → Ready p waiting
    → Round p waiting (wake timed_out p).0 (wake timed_out p).1
unfolding wake
wake-Round timed_out p h =
    if_split (λ (r : ThreadPool × Worker). Round p waiting r.0 r.1)
      (timed_out && ltb p.min_threads p.thread_count) _ _
      (λ late. record {
        tasks = h.0;
        fewer = omega arith;
        active = refl;
        threads = ground arith;
        no_more = ground arith;
        sizes = (refl, refl);
      })
      (λ other. enter-Round p waiting h refl refl)

pub worker_thread-Round :
    (timed_out : Bool) (p : ThreadPool) (v : Worker)
    → Ready p v
    → Round p v (worker_thread timed_out p v).0 (worker_thread timed_out p v).1
unfolding worker_thread test_running finish
worker_thread-Round timed_out p ready h =
    unchanged-Round p ready (if p.running then entering else left) h (ground arith) (ground arith)
worker_thread-Round timed_out p entering h = enter-Round p entering h refl refl
worker_thread-Round timed_out p waiting h = wake-Round timed_out p h
worker_thread-Round timed_out p (busy t) h = record {
  tasks = h.0;
  fewer = omega arith;
  active = omega arith;
  threads = refl;
  no_more = omega arith;
  sizes = (refl, refl);
}
worker_thread-Round timed_out p gone h = unchanged-Round p gone gone h refl refl
worker_thread-Round timed_out p left h = unchanged-Round p left left h refl refl
