-- ===== src/ThreadPool/Invariant.antt =====
-- What the counters of the pool of infra/infra_sync.c count, in every reachable state.
use ai_ppdb.Base.{
  ℕ, zero, suc, ◌+◌, ◌≤◌, ◌<◌, ◌≡◌, refl, Bool, true, false, not, List, [], ◌∷◌, ◌++◌, arith,
  get_or, length, length-append, if_split, ltb, leb, ◌&&◌, ◌==◌,
}
use ai_ppdb.Base.Words.{word, add64}
use ai_ppdb.Error.{not_ready}
use ai_ppdb.ThreadPool.{
  Task, ThreadPool, Worker, ready, gone, worker_thread, Submitted, waits, returns, grow, submit,
  close, all_returned,
}
use ai_ppdb.ThreadPool.Steps.{
  Plant, worker_at, work, offered, offer, begin_destroy, poll, Step, works, offers, begins, polls,
  Reach, here, next,
}
use ai_ppdb.ThreadPool.Counts.{
  one, count, is_busy, is_counted, count-set, count-append, count-imp, busy-counted,
}
use ai_ppdb.ThreadPool.Round.{Ready, worker_thread-Round}

-- `task_count` counts the queue, `active_count` the workers at a task, and `thread_count` the
-- workers that did not return from inside their loop; queue and threads stay within their bounds.
pub record Inv (s : Plant) : Type 0 where
  pub tasks : s.pool.task_count ≡ length s.pool.tasks
  pub active : s.pool.active_count ≡ count is_busy s.workers
  pub threads : s.pool.thread_count ≡ count is_counted s.workers
  pub room : s.pool.task_count ≤ s.pool.queue_size
  pub bound : s.pool.thread_count ≤ s.pool.max_threads
  pub fits : (s.pool.queue_size < word) × (s.pool.max_threads + 1 < word)

count-place :
    (f : Worker → Bool) (ws : List Worker) (i : ℕ)
    → i < length ws
    → one (f (get_or ws i gone)) ≤ count f ws
count-place f [] i h = absurd (omega arith)
count-place f (v ∷ ws) zero h = omega arith
count-place f (v ∷ ws) (suc i) h = omega (arith, count-place f ws i (omega arith))

busy-le-counted : (s : Plant) → Inv s → s.pool.active_count ≤ s.pool.thread_count
busy-le-counted s v =
    omega (arith, count-imp is_busy is_counted s.workers busy-counted, v.active, v.threads)

Inv-Ready : (s : Plant) (i : ℕ) → Inv s → i < length s.workers → Ready s.pool (worker_at i s)
Inv-Ready s i v h = (
  v.tasks,
  omega (arith, v.active, count-place is_busy s.workers i h),
  omega (arith, v.threads, count-place is_counted s.workers i h),
  omega (arith, busy-le-counted s v, v.bound, v.fits),
  omega (arith, v.bound, v.fits),
  omega (arith, v.room, v.fits),
)

work-Inv :
    (s : Plant) (i : ℕ) (timed_out : Bool) → Inv s → i < length s.workers → Inv (work i timed_out s)
unfolding work
work-Inv s i timed_out v h =
    let w = (worker_thread timed_out s.pool (worker_at i s)).1 in
    let r = worker_thread-Round timed_out s.pool (worker_at i s) (Inv-Ready s i v h) in
    record {
      tasks = r.tasks;
      active = omega (arith, r.active, v.active, count-set is_busy s.workers i w h);
      threads = omega (arith, r.threads, v.threads, count-set is_counted s.workers i w h);
      room = omega (arith, r.fewer, r.sizes, v.room);
      bound = omega (arith, r.no_more, r.sizes, v.bound);
      fits = omega (arith, r.sizes, v.fits);
    }

pub work-no_more :
    (s : Plant) (i : ℕ) (timed_out : Bool)
    → Inv s
    → i < length s.workers
    → (work i timed_out s).pool.thread_count ≤ s.pool.thread_count
unfolding work
work-no_more s i timed_out v h =
    (worker_thread-Round timed_out s.pool (worker_at i s) (Inv-Ready s i v h)).no_more

-- What a submission leaves: a worker more in the count where one was made.
abbrev Offered : ThreadPool → Submitted → Type 0
Offered p waits = Unit {0}
Offered p (returns err q grown) =
    (q.task_count ≡ length q.tasks)
    × (q.active_count ≡ p.active_count)
    × (q.thread_count ≡ p.thread_count + one grown)
    × (q.task_count ≤ q.queue_size)
    × (q.thread_count ≤ q.max_threads)
    × (q.queue_size ≡ p.queue_size)
    × (q.max_threads ≡ p.max_threads)

grow-Offered :
    (created : Bool) (p q : ThreadPool)
    → q.task_count ≡ length q.tasks
    → q.active_count ≡ p.active_count
    → q.thread_count ≡ p.thread_count
    → q.task_count ≤ q.queue_size
    → q.thread_count ≤ q.max_threads
    → q.queue_size ≡ p.queue_size
    → q.max_threads ≡ p.max_threads
    → q.max_threads < word
    → Offered p (grow created q)
unfolding grow
grow-Offered created p q a b c d e f g h =
    if_split (Offered p)
      (ltb q.thread_count q.max_threads && q.active_count == q.thread_count && created) _ _
      (λ more. (a, b, ground arith, d, ground arith, f, g))
      (λ same. (a, b, omega arith, d, e, f, g))

submit-Offered :
    (task : Task) (allocated created : Bool) (s : Plant)
    → Inv s
    → Offered s.pool (submit task allocated created s.pool)
unfolding submit
submit-Offered task allocated created s v =
    let p = s.pool in
    let as_before : Offered p (returns not_ready p false) =
      (v.tasks, refl, omega arith, v.room, v.bound, refl, refl) in
    if_split (Offered p) p.shutting_down _ _ (λ closing. as_before)
      (λ open_still.
        if_split (Offered p) (leb p.queue_size p.task_count) _ _ (λ full. tt)
          (λ room.
            if_split (Offered p) (not allocated) _ _ (λ refused. as_before)
              (λ given.
                grow-Offered created p
                  (record p { tasks = p.tasks ++ task ∷ []; task_count = add64 p.task_count 1 })
                  (ground (arith, length-append p.tasks (task ∷ []), v.tasks, v.room, v.fits)) refl
                  refl (ground (arith, v.room, v.fits)) v.bound refl refl (omega (arith, v.fits)))))

offered-Inv :
    (task : Task) (r : Submitted) (s : Plant) → Inv s → Offered s.pool r → Inv (offered task r s)
offered-Inv task waits s v h = v
offered-Inv task (returns err q true) s v h = record {
  tasks = h.0;
  active = omega (arith, h.1, v.active, count-append is_busy s.workers ready);
  threads = omega (arith, h.2, v.threads, count-append is_counted s.workers ready);
  room = h.3;
  bound = h.4;
  fits = omega (arith, h, v.fits);
}
offered-Inv task (returns err q false) s v h = record {
  tasks = h.0;
  active = omega (arith, h.1, v.active);
  threads = omega (arith, h.2, v.threads);
  room = h.3;
  bound = h.4;
  fits = omega (arith, h, v.fits);
}

pub Step-Inv : {s t : Plant} → Step s t → Inv s → Inv t
unfolding offer begin_destroy poll close
Step-Inv {s} (works i timed_out h) v = work-Inv s i timed_out v h
Step-Inv {s} (offers task allocated created) v =
    offered-Inv task (submit task allocated created s.pool) s v
      (submit-Offered task allocated created s v)
Step-Inv (begins e) v = record {
  tasks = v.tasks;
  active = v.active;
  threads = v.threads;
  room = v.room;
  bound = v.bound;
  fits = v.fits;
}
Step-Inv {s} (polls e) v =
    if_split Inv (all_returned s.pool) _ _
      (λ done. record {
        tasks = v.tasks;
        active = v.active;
        threads = v.threads;
        room = v.room;
        bound = v.bound;
        fits = v.fits;
      })
      (λ more. v)

pub Reach-Inv : {s t : Plant} → Reach s t → Inv s → Inv t
Reach-Inv here v = v
Reach-Inv (next r st) v = Step-Inv st (Reach-Inv r v)
