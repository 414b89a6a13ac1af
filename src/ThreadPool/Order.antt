-- ===== src/ThreadPool/Order.antt =====
-- The order in which the workers of the pool of infra/infra_sync.c take the tasks.
use ai_ppdb.Base.{
  ℕ, ◌≡◌, refl, sym, ap, ◌∙◌, Bool, List, [], ◌∷◌, ◌++◌, arith, if_split, not, ◌&&◌, ltb, leb, ◌==◌,
  if◌then◌else◌,
}
use ai_ppdb.Base.Words.{add64}
use ai_ppdb.Error.{InfraError, ok, is_error}
use ai_ppdb.ThreadPool.{
  Task, ThreadPool, Worker, ready, entering, waiting, busy, gone, left, test_running, serve, enter,
  wake, finish, worker_thread, Submitted, waits, returns, grow, submit, close, all_returned,
}
use ai_ppdb.ThreadPool.Steps.{
  Plant, worker_at, taken, work, offered, offer, begin_destroy, poll, Step, works, offers, begins,
  polls, Reach, here, next,
}
use mathlib.Core.List.{append_assoc}

abbrev Takes : ThreadPool → Worker → ThreadPool × Worker → Type 0
Takes p v r = p.tasks ≡ taken v r.1 ++ r.0.tasks

test_running-Takes : (p : ThreadPool) → Takes p ready (p, test_running p)
unfolding test_running
test_running-Takes p =
    if_split (λ (w : Worker). Takes p ready (p, w)) p.running entering left (λ e. refl) (λ e. refl)

enter-Takes : (p : ThreadPool) → Takes p entering (enter p)
unfolding enter serve
enter-Takes p = ground arith

wake-Takes : (timed_out : Bool) (p : ThreadPool) → Takes p waiting (wake timed_out p)
unfolding wake enter serve
wake-Takes timed_out p = ground arith

worker_thread-Takes :
    (timed_out : Bool) (p : ThreadPool) (v : Worker) → Takes p v (worker_thread timed_out p v)
unfolding worker_thread finish
worker_thread-Takes timed_out p ready = test_running-Takes p
worker_thread-Takes timed_out p entering = enter-Takes p
worker_thread-Takes timed_out p waiting = wake-Takes timed_out p
worker_thread-Takes timed_out p (busy t) = refl
worker_thread-Takes timed_out p gone = refl
worker_thread-Takes timed_out p left = refl

-- Every accepted task was taken by a worker or is still in the queue, in the order of acceptance.
abbrev pub Ordered : Plant → Type 0
Ordered s = s.submitted ≡ s.started ++ s.pool.tasks

work-Ordered : (s : Plant) (i : ℕ) (timed_out : Bool) → Ordered s → Ordered (work i timed_out s)
unfolding work
work-Ordered s i timed_out o =
    let r = worker_thread timed_out s.pool (worker_at i s) in
    o
    ∙ ap (λ q. s.started ++ q) (worker_thread-Takes timed_out s.pool (worker_at i s))
    ∙ sym (append_assoc s.started (taken (worker_at i s) r.1) r.0.tasks)

-- An accepted task stands at the end of the queue; else the queue is as it was.
abbrev Adds : Task → ThreadPool → Submitted → Type 0
Adds task p waits = Unit {0}
Adds task p (returns err q grown) =
    q.tasks ≡ (if is_error err then p.tasks else p.tasks ++ task ∷ [])

grow-Adds :
    (created : Bool) (task : Task) (p q : ThreadPool)
    → q.tasks ≡ p.tasks ++ task ∷ []
    → Adds task p (grow created q)
unfolding grow
grow-Adds created task p q e =
    if_split (Adds task p)
      (ltb q.thread_count q.max_threads && q.active_count == q.thread_count && created) _ _
      (λ more. e) (λ same. e)

submit-Adds :
    (task : Task) (allocated created : Bool) (p : ThreadPool)
    → Adds task p (submit task allocated created p)
unfolding submit
submit-Adds task allocated created p =
    if_split (Adds task p) p.shutting_down _ _ (λ closing. refl)
      (λ open_still.
        if_split (Adds task p) (leb p.queue_size p.task_count) _ _ (λ full. tt)
          (λ room.
            if_split (Adds task p) (not allocated) _ _ (λ refused. refl)
              (λ given.
                grow-Adds created task p
                  (record p { tasks = p.tasks ++ task ∷ []; task_count = add64 p.task_count 1 })
                  refl)))

accepted-Ordered :
    (task : Task) (err : InfraError) (q : List Task) (s : Plant)
    → Ordered s
    → q ≡ (if is_error err then s.pool.tasks else s.pool.tasks ++ task ∷ [])
    → (if is_error err then s.submitted else s.submitted ++ task ∷ []) ≡ s.started ++ q
accepted-Ordered task ok q s o e =
    ap (λ l. l ++ task ∷ []) o
    ∙ append_assoc s.started s.pool.tasks (task ∷ [])
    ∙ ap (λ l. s.started ++ l) (sym e)
accepted-Ordered task err q s o e = o ∙ ap (λ l. s.started ++ l) (sym e)

offered-Ordered :
    (task : Task) (r : Submitted) (s : Plant)
    → Ordered s
    → Adds task s.pool r
    → Ordered (offered task r s)
offered-Ordered task waits s o a = o
offered-Ordered task (returns err q grown) s o a = accepted-Ordered task err q.tasks s o a

Step-Ordered : {s t : Plant} → Step s t → Ordered s → Ordered t
unfolding offer begin_destroy poll close
Step-Ordered {s} (works i timed_out h) o = work-Ordered s i timed_out o
Step-Ordered {s} (offers task allocated created) o =
    offered-Ordered task (submit task allocated created s.pool) s o
      (submit-Adds task allocated created s.pool)
Step-Ordered (begins e) o = o
Step-Ordered {s} (polls e) o = if_split Ordered (all_returned s.pool) _ _ (λ done. o) (λ more. o)

-- The order is kept along all steps.
pub Reach-Ordered : {s t : Plant} → Reach s t → Ordered s → Ordered t
Reach-Ordered here o = o
Reach-Ordered (next r st) o = Step-Ordered st (Reach-Ordered r o)
