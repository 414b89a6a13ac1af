-- ===== src/Tests/Threads.antt =====
-- The thread pool at concrete inputs: a pool of two threads, at most three, with room for two tasks.
use ai_ppdb.Base.{ℕ, zero, suc, ◌<◌, ◌≡◌, refl, ◌⊎◌, true, false, [], ◌∷◌, some, arith}
use ai_ppdb.Error.{ok}
use ai_ppdb.ThreadPool.{
  Task, PoolConfig, ThreadPool, ThreadCalls, busy, gone, test_running, serve, enter, wake,
  worker_thread, grow, submit, close, all_returned, config_rejected, new_pool, made, start_threads,
  init_pool, infra_thread_pool_create,
}
use ai_ppdb.ThreadPool.Steps.{
  Plant, past, work, offer, begin_destroy, poll, works, offers, begins, polls, Reach, here, next,
  start, worker_at,
}
use ai_ppdb.ThreadPool.Counts.{is_outside}
use ai_ppdb.ThreadPool.Invariant.{Inv}
use ai_ppdb.ThreadPool.Order.{Ordered}
use ai_ppdb.ThreadPool.Shutdown.{destroy-never_ends}
use ai_ppdb.ThreadPool.Ending.{Closing, destroy-ends, run}
use ai_ppdb.ThreadPool.Creation.{created-Inv, created-Ordered, created-past}
use ai_ppdb.Tests.Machine.{Desk, machine}

abbrev calls : ThreadCalls machine
calls = record {
  mutex_create = λ s. (ok, s);
  mutex_destroy = λ s. s;
  cond_init = λ s. (ok, s);
  cond_destroy = λ s. s;
  thread_create = λ s. (ok, s);
}

abbrev two_threads : PoolConfig
two_threads = record { min_threads = 2; max_threads = 3; queue_size = 2; idle_timeout = 10 }

abbrev desk : Desk
desk = record { next = 1; held = λ p. false; files = λ d. false }

abbrev pool : ThreadPool
pool = record (new_pool two_threads) { thread_count = 2 }

abbrev errand : Task
errand = record { func = 7; arg = 1 }

pool_made : (infra_thread_pool_create machine calls (some two_threads) true desk).0 ≡ made pool
unfolding infra_thread_pool_create init_pool start_threads config_rejected
pool_made = refl

-- A task comes, and the first worker takes it.
abbrev served : Plant
served = work 0 false (work 0 false (offer errand true true (start pool)))

Reach-served : Reach (start pool) served
unfolding offer submit grow work worker_thread test_running enter serve
Reach-served =
    next (next (next here (offers errand true true)) (works 0 false (omega arith)))
      (works 0 false (omega arith))

first_worker_busy : worker_at 0 served ≡ busy errand
unfolding offer submit grow work worker_thread test_running enter serve
first_worker_busy = refl

-- Both workers wait, and the pool is destroyed.
abbrev idle : Plant
idle = work 1 false (work 1 false (work 0 false (work 0 false (start pool))))

Reach-idle : Reach (start pool) idle
unfolding work worker_thread test_running enter
Reach-idle =
    next
      (next (next (next here (works 0 false (omega arith))) (works 0 false (omega arith)))
        (works 1 false (omega arith)))
      (works 1 false (omega arith))

abbrev ended : Plant
ended = poll (work 1 true (work 0 false (begin_destroy idle)))

Reach-ended : Reach (start pool) ended
unfolding work worker_thread test_running enter serve wake begin_destroy close
Reach-ended =
    next
      (next (next (next Reach-idle (begins refl)) (works 0 false (omega arith)))
        (works 1 true (omega arith)))
      (polls refl)

ended_past : ended.closer ≡ past
unfolding work worker_thread test_running enter serve wake begin_destroy close poll all_returned
ended_past = refl

created-Inv_example : Inv served
created-Inv_example =
    created-Inv machine calls two_threads true pool desk served (omega arith) (omega arith)
      pool_made Reach-served

created-Ordered_example : Ordered served
created-Ordered_example =
    created-Ordered machine calls two_threads true pool desk served (omega arith) pool_made
      Reach-served

created-past_example : worker_at 1 ended ≡ gone
created-past_example =
    created-past machine calls two_threads true pool desk ended (omega arith) (omega arith)
      pool_made Reach-ended ended_past 1

-- A pool that is destroyed before its workers have tested `running`.
abbrev early : Plant
early = begin_destroy (start pool)

early-Inv : Inv early
early-Inv =
    created-Inv machine calls two_threads true pool desk early (omega arith) (omega arith) pool_made
      (next here (begins refl))

destroy-never_ends_example : all_returned (work 1 false (work 0 false early)).pool ≡ false
unfolding begin_destroy close work worker_thread test_running
destroy-never_ends_example =
    destroy-never_ends early-Inv refl refl (omega arith)
      (next (next here (works 0 false (omega arith))) (works 1 false (omega arith)))

closing-Inv : Inv (begin_destroy idle)
unfolding work
closing-Inv =
    created-Inv machine calls two_threads true pool desk (begin_destroy idle) (omega arith)
      (omega arith) pool_made (next Reach-idle (begins refl))

two_inside : (j : ℕ) → is_outside (worker_at j (begin_destroy idle)) ≡ false
unfolding begin_destroy close work worker_thread test_running enter
two_inside zero = refl
two_inside (suc zero) = refl
two_inside (suc (suc j)) = refl

idle-Closing : Closing (begin_destroy idle)
unfolding begin_destroy close work worker_thread test_running enter
idle-Closing = record { empty = refl; closed = refl; inside = two_inside }

both_named : (j : ℕ) → j < 2 → (0 ≡ j) ⊎ ((1 ≡ j) ⊎ ⊥)
both_named j h = ground arith

destroy-ends_example :
    all_returned (run ((0, false) ∷ (1, true) ∷ []) (begin_destroy idle)).pool ≡ true
unfolding begin_destroy close work worker_thread test_running enter
destroy-ends_example =
    destroy-ends (begin_destroy idle) ((0, false) ∷ (1, true) ∷ []) closing-Inv idle-Closing
      (omega arith, (omega arith, tt)) both_named
