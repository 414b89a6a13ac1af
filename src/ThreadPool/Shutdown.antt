-- ===== src/ThreadPool/Shutdown.antt =====
-- How `infra_thread_pool_destroy` of infra/infra_sync.c ends, and when it never does.
use ai_ppdb.Base.{ℕ, ◌≤◌, ◌<◌, ◌≡◌, refl, ◌∙◌, Bool, true, false, arith, length, if_split}
use ai_ppdb.Error.{not_ready}
use ai_ppdb.ThreadPool.{
  Task, ThreadPool, Worker, ready, entering, waiting, busy, gone, left, test_running, serve, enter,
  wake, finish, worker_thread, returns, submit, close, all_returned,
}
use ai_ppdb.ThreadPool.Steps.{
  Plant, worker_at, work, offer, begin_destroy, poll, Step, works, offers, begins, polls, Reach,
  here, next,
}
use ai_ppdb.ThreadPool.Counts.{
  one, count, is_counted, is_outside, count-set, count-imp, outside-counted,
}
use ai_ppdb.ThreadPool.Invariant.{Inv, Reach-Inv}

-- What a round of a worker leaves of the flags.
worker_thread-flags :
    (timed_out : Bool) (p : ThreadPool) (v : Worker)
    → ((worker_thread timed_out p v).0.shutting_down ≡ p.shutting_down)
      × ((worker_thread timed_out p v).0.running ≡ p.running)
unfolding worker_thread test_running finish wake enter serve
worker_thread-flags timed_out p ready = (refl, refl)
worker_thread-flags timed_out p entering = ground arith
worker_thread-flags timed_out p waiting = ground arith
worker_thread-flags timed_out p (busy t) = (refl, refl)
worker_thread-flags timed_out p gone = (refl, refl)
worker_thread-flags timed_out p left = (refl, refl)

-- A worker outside of the inner loop stays there when `running` is false.
worker_thread-outside :
    (timed_out : Bool) (p : ThreadPool) (v : Worker)
    → p.running ≡ false
    → one (is_outside v) ≤ one (is_outside (worker_thread timed_out p v).1)
unfolding worker_thread test_running finish
worker_thread-outside timed_out p ready h = ground arith
worker_thread-outside timed_out p entering h = omega arith
worker_thread-outside timed_out p waiting h = omega arith
worker_thread-outside timed_out p (busy t) h = omega arith
worker_thread-outside timed_out p gone h = omega arith
worker_thread-outside timed_out p left h = omega arith

work-outside :
    (s : Plant) (i : ℕ) (timed_out : Bool)
    → s.pool.running ≡ false
    → i < length s.workers
    → count is_outside s.workers ≤ count is_outside (work i timed_out s).workers
unfolding work
work-outside s i timed_out r h = omega (
  arith,
  count-set is_outside s.workers i (worker_thread timed_out s.pool (worker_at i s)).1 h,
  worker_thread-outside timed_out s.pool (worker_at i s) r,
)

-- `running` is false, `shutting_down` true, and so many workers are outside.
abbrev pub Stuck : ℕ → Plant → Type 0
Stuck n s =
    (s.pool.running ≡ false) × (s.pool.shutting_down ≡ true) × (n ≤ count is_outside s.workers)

submit-closed :
    (task : Task) (allocated created : Bool) (p : ThreadPool)
    → p.shutting_down ≡ true
    → submit task allocated created p ≡ returns not_ready p false
unfolding submit
submit-closed task allocated created p h = rw h refl

pub offer-closed :
    (task : Task) (allocated created : Bool) (s : Plant)
    → s.pool.shutting_down ≡ true
    → offer task allocated created s ≡ s
unfolding offer
offer-closed task allocated created s h = rw (submit-closed task allocated created s.pool h) refl

pub work-flags :
    (s : Plant) (i : ℕ) (timed_out : Bool)
    → ((work i timed_out s).pool.shutting_down ≡ s.pool.shutting_down)
      × ((work i timed_out s).pool.running ≡ s.pool.running)
unfolding work
work-flags s i timed_out = worker_thread-flags timed_out s.pool (worker_at i s)

Step-Stuck : {s t : Plant} (n : ℕ) → Step s t → Stuck n s → Stuck n t
unfolding begin_destroy poll close
Step-Stuck {s} n (works i timed_out h) k = (
  (work-flags s i timed_out).1 ∙ k.0,
  (work-flags s i timed_out).0 ∙ k.1,
  omega (arith, k.2, work-outside s i timed_out k.0 h),
)
Step-Stuck {s} n (offers task allocated created) k =
    rw (offer-closed task allocated created s k.1) k
Step-Stuck n (begins e) k = (refl, refl, k.2)
Step-Stuck {s} n (polls e) k = if_split (Stuck n) (all_returned s.pool) _ _ (λ done. k) (λ more. k)

Reach-Stuck : {s t : Plant} (n : ℕ) → Reach s t → Stuck n s → Stuck n t
Reach-Stuck n here k = k
Reach-Stuck n (next r st) k = Step-Stuck n st (Reach-Stuck n r k)

-- From a state that satisfies the invariant with running false and shutting_down true, in which
-- a worker is about to test running, at a task, or has left the loop by the test, no state is
-- reached in which the loop of infra_thread_pool_destroy finds no thread counted.
pub destroy-never_ends :
    {s t : Plant}
    → Inv s
    → s.pool.running ≡ false
    → s.pool.shutting_down ≡ true
    → 1 ≤ count is_outside s.workers
    → Reach s t
    → all_returned t.pool ≡ false
unfolding all_returned
destroy-never_ends {s} {t} v a b c r =
    let k = Reach-Stuck 1 r (a, b, c) in
    let u = Reach-Inv r v in
    ground (arith, k.2, u.threads, count-imp is_outside is_counted t.workers outside-counted)
