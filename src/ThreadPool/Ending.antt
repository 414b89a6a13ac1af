-- ===== src/ThreadPool/Ending.antt =====
-- How `infra_thread_pool_destroy` of infra/infra_sync.c ends.
use ai_ppdb.Base.{
  ℕ, ◌<◌, ◌≡◌, refl, sym, ◌∙◌, ◌⊎◌, inl, inr, Bool, true, false, List, [], ◌∷◌, arith, length,
  length-set, if_split, ◌==◌, if◌then◌else◌, get_or-set, Has, All, map,
}
use ai_ppdb.ThreadPool.{
  Task, ThreadPool, Worker, ready, entering, waiting, busy, gone, left, serve, enter, wake,
  worker_thread, Submitted, waits, returns, submit, close, all_returned,
}
use ai_ppdb.ThreadPool.Steps.{
  open_pool, polling, past, Plant, worker_at, work, offered, offer, begin_destroy, poll, Step,
  works, offers, begins, polls, Reach, here, next,
}
use ai_ppdb.ThreadPool.Counts.{is_outside, count-none, all_gone-count}
use ai_ppdb.ThreadPool.Invariant.{Inv, Reach-Inv, work-no_more}
use ai_ppdb.ThreadPool.Shutdown.{work-flags, offer-closed}

-- The flags, by how far the destruction is; past its loop no thread is counted.
abbrev pub Flags : Plant → Type 0
Flags s =
    (s.closer ≡ open_pool)
    ⊎ ((s.pool.shutting_down ≡ true)
        × (s.pool.running ≡ false)
        × ((s.closer ≡ past) → s.pool.thread_count ≡ 0))

work-Flags :
    (s : Plant) (i : ℕ) (timed_out : Bool)
    → Inv s
    → i < length s.workers
    → Flags s
    → Flags (work i timed_out s)
unfolding work
work-Flags s i timed_out v h (inl o) = inl o
work-Flags s i timed_out v h (inr f) = inr (
  (work-flags s i timed_out).0 ∙ f.0,
  (work-flags s i timed_out).1 ∙ f.1,
  λ e. omega (arith, f.2 e, work-no_more s i timed_out v h),
)

offered-closer : (task : Task) (r : Submitted) (s : Plant) → (offered task r s).closer ≡ s.closer
offered-closer task waits s = refl
offered-closer task (returns err q grown) s = refl

poll-Flags : (s : Plant) → s.closer ≡ polling → Flags s → Flags (poll s)
unfolding poll all_returned
poll-Flags s e (inl o) = cc
poll-Flags s e (inr f) =
    if_split Flags (s.pool.thread_count == 0) _ _ (λ done. inr (f.0, f.1, λ q. ground arith))
      (λ more. inr f)

Step-Flags : {s t : Plant} → Step s t → Inv s → Flags s → Flags t
unfolding offer begin_destroy close
Step-Flags {s} (works i timed_out h) v f = work-Flags s i timed_out v h f
Step-Flags {s} (offers task allocated created) v (inl o) =
    inl (offered-closer task (submit task allocated created s.pool) s ∙ o)
Step-Flags {s} (offers task allocated created) v (inr f) =
    rw (offer-closed task allocated created s f.0) (inr f)
Step-Flags (begins e) v f = inr (refl, refl, λ q. cc)
Step-Flags {s} (polls e) v f = poll-Flags s e f

Reach-Flags : {s t : Plant} → Reach s t → Inv s → Flags s → Flags t
Reach-Flags here v f = f
Reach-Flags (next r st) v f = Step-Flags st (Reach-Inv r v) (Reach-Flags r v f)

-- Past the loop of the destruction every worker has returned.
pub past-all_gone :
    {s t : Plant}
    → Inv s
    → s.closer ≡ open_pool
    → Reach s t
    → t.closer ≡ past
    → (j : ℕ) → worker_at j t ≡ gone
past-all_gone {s} {t} v o r e = elim (Reach-Flags r v (inl o)) [
  | inl p ↦ cc
  | inr f ↦ count-none t.workers (sym (Reach-Inv r v).threads ∙ f.2 e)
]

-- A worker that is inside of the inner loop, or has returned from there, is gone after its round.
worker_thread-gone :
    (timed_out : Bool) (p : ThreadPool) (v : Worker)
    → p.tasks ≡ []
    → p.shutting_down ≡ true
    → is_outside v ≡ false
    → ((worker_thread timed_out p v).1 ≡ gone) × ((worker_thread timed_out p v).0.tasks ≡ [])
unfolding worker_thread wake enter serve
worker_thread-gone timed_out p entering e f g = rw (e, f) (refl, refl)
worker_thread-gone timed_out p waiting e f g = ground arith
worker_thread-gone timed_out p gone e f g = (refl, e)
worker_thread-gone timed_out p ready e f g = cc
worker_thread-gone timed_out p (busy t) e f g = cc
worker_thread-gone timed_out p left e f g = cc

-- The pool is being destroyed, its queue is empty, and every worker is inside or gone.
pub record Closing (s : Plant) : Type 0 where
  pub empty : s.pool.tasks ≡ []
  pub closed : s.pool.shutting_down ≡ true
  pub inside : (j : ℕ) → is_outside (worker_at j s) ≡ false

work-gone :
    (s : Plant) (i : ℕ) (timed_out : Bool) (j : ℕ)
    → Closing s
    → i < length s.workers
    → worker_at j (work i timed_out s) ≡ (if i == j then gone else worker_at j s)
unfolding work
work-gone s i timed_out j c h =
    rw (worker_thread-gone timed_out s.pool (worker_at i s) c.empty c.closed (c.inside i)).0
      (get_or-set s.workers i j gone gone h)

work-empty :
    (s : Plant) (i : ℕ) (timed_out : Bool) → Closing s → (work i timed_out s).pool.tasks ≡ []
unfolding work
work-empty s i timed_out c =
    (worker_thread-gone timed_out s.pool (worker_at i s) c.empty c.closed (c.inside i)).1

work-Closing :
    (s : Plant) (i : ℕ) (timed_out : Bool)
    → Closing s
    → i < length s.workers
    → Closing (work i timed_out s)
work-Closing s i timed_out c h = record {
  empty = work-empty s i timed_out c;
  closed = (work-flags s i timed_out).0 ∙ c.closed;
  inside = λ j.
      rw (work-gone s i timed_out j c h) (
        if_split (λ (w : Worker). is_outside w ≡ false) (i == j) _ _ (λ e. refl) (λ e. c.inside j));
}

-- The workers run on in the order of the schedule.
abbrev pub run : List (ℕ × Bool) → Plant → Plant
run [] s = s
run (x ∷ l) s = run l (work x.0 x.1 s)

length-work :
    (s : Plant) (i : ℕ) (timed_out : Bool) → length (work i timed_out s).workers ≡ length s.workers
unfolding work
length-work s i timed_out = length-set s.workers i _

abbrev Within : ℕ → List (ℕ × Bool) → Type 0
Within n l = All (λ (x : ℕ × Bool). x.0 < n) l

-- A worker that is gone, or that the schedule names, is gone at its end.
run-gone :
    (l : List (ℕ × Bool)) (s : Plant) (j : ℕ)
    → Closing s
    → Within (length s.workers) l
    → (worker_at j s ≡ gone) ⊎ Has j (map (λ x. x.0) l)
    → worker_at j (run l s) ≡ gone
run-gone [] s j c h (inl e) = e
run-gone [] s j c h (inr e) = absurd e
run-gone (x ∷ l) s j c h m =
    let g = work-gone s x.0 x.1 j c h.0 in
    run-gone l (work x.0 x.1 s) j (work-Closing s x.0 x.1 c h.0) (rw (length-work s x.0 x.1) h.1)
      (elim m [
        | inl e ↦ inl (g ∙ rw e (ground arith))
        | inr (inl e) ↦ inl (g ∙ ground arith)
        | inr (inr k) ↦ inr k
      ])

run-Reach :
    {s : Plant} (l : List (ℕ × Bool)) (t : Plant)
    → Within (length t.workers) l
    → Reach s t
    → Reach s (run l t)
run-Reach [] t h r = r
run-Reach (x ∷ l) t h r =
    run-Reach l (work x.0 x.1 t) (rw (length-work t x.0 x.1) h.1) (next r (works x.0 x.1 h.0))

length-run : (l : List (ℕ × Bool)) (s : Plant) → length (run l s).workers ≡ length s.workers
length-run [] s = refl
length-run (x ∷ l) s = length-run l (work x.0 x.1 s) ∙ length-work s x.0 x.1

-- From a state that satisfies the invariant, with shutting_down set, an empty queue and every
-- worker inside the loop or gone, every schedule of existing workers that names each of them
-- ends with no thread counted, which ends the loop of infra_thread_pool_destroy.
pub destroy-ends :
    (s : Plant) (l : List (ℕ × Bool))
    → Inv s
    → Closing s
    → Within (length s.workers) l
    → ((j : ℕ) → j < length s.workers → Has j (map (λ x. x.0) l))
    → all_returned (run l s).pool ≡ true
unfolding all_returned
destroy-ends s l v c h m =
    let all_gone =
      all_gone-count (run l s).workers
        (λ j k. run-gone l s j c h (inr (m j (omega (arith, k, length-run l s))))) in
    let threads = (Reach-Inv (run-Reach l s h here) v).threads in ground (arith, threads, all_gone)
