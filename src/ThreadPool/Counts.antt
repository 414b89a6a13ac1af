-- ===== src/ThreadPool/Counts.antt =====
-- Counting the workers of the pool of infra/infra_sync.c.
use ai_ppdb.Base.{
  ℕ, zero, suc, ◌+◌, ◌≤◌, ◌<◌, ◌≡◌, refl, Bool, true, false, List, [], ◌∷◌, ◌++◌, arith, get_or,
  set, length, replicate, if◌then◌else◌,
}
use ai_ppdb.ThreadPool.{Worker, ready, entering, waiting, busy, gone, left}

abbrev pub one : Bool → ℕ
one b = if b then 1 else 0

abbrev pub count : (Worker → Bool) → List Worker → ℕ
count f [] = 0
count f (w ∷ ws) = one (f w) + count f ws

abbrev pub is_busy : Worker → Bool
is_busy (busy t) = true
is_busy _ = false

-- Whether the thread has not returned from inside the loop.
abbrev pub is_counted : Worker → Bool
is_counted gone = false
is_counted _ = true

-- Whether the thread is about to test `running`, or has found it false.
abbrev pub is_outside : Worker → Bool
is_outside ready = true
is_outside (busy t) = true
is_outside left = true
is_outside _ = false

pub count-set :
    (f : Worker → Bool) (ws : List Worker) (i : ℕ) (w : Worker)
    → i < length ws
    → count f (set ws i w) + one (f (get_or ws i gone)) ≡ count f ws + one (f w)
count-set f [] i w h = absurd (omega arith)
count-set f (v ∷ ws) zero w h = omega arith
count-set f (v ∷ ws) (suc i) w h = omega (arith, count-set f ws i w (omega arith))

pub count-append :
    (f : Worker → Bool) (ws : List Worker) (w : Worker)
    → count f (ws ++ w ∷ []) ≡ count f ws + one (f w)
count-append f [] w = omega arith
count-append f (v ∷ ws) w = omega (arith, count-append f ws w)

pub count-replicate :
    (f : Worker → Bool) (n : ℕ) (w : Worker) → count f (replicate n w) ≡ (if f w then n else 0)
count-replicate f zero w = ground arith
count-replicate f (suc n) w = ground (arith, count-replicate f n w)

pub count-imp :
    (f g : Worker → Bool) (ws : List Worker)
    → ((w : Worker) → f w ≡ true → g w ≡ true)
    → count f ws ≤ count g ws
count-imp f g [] h = omega arith
count-imp f g (w ∷ ws) h = ground (arith, count-imp f g ws h, h w)

pub busy-counted : (w : Worker) → is_busy w ≡ true → is_counted w ≡ true
busy-counted (busy t) h = refl
busy-counted ready h = refl
busy-counted entering h = refl
busy-counted waiting h = refl
busy-counted gone h = cc
busy-counted left h = refl

pub outside-counted : (w : Worker) → is_outside w ≡ true → is_counted w ≡ true
outside-counted (busy t) h = refl
outside-counted ready h = refl
outside-counted entering h = refl
outside-counted waiting h = refl
outside-counted gone h = cc
outside-counted left h = refl

pub count-none : (ws : List Worker) → count is_counted ws ≡ 0 → (j : ℕ) → get_or ws j gone ≡ gone
count-none [] h j = refl
count-none (gone ∷ ws) h zero = refl
count-none (gone ∷ ws) h (suc j) = count-none ws (omega arith) j
count-none (ready ∷ ws) h j = absurd (omega arith)
count-none (entering ∷ ws) h j = absurd (omega arith)
count-none (waiting ∷ ws) h j = absurd (omega arith)
count-none (busy t ∷ ws) h j = absurd (omega arith)
count-none (left ∷ ws) h j = absurd (omega arith)

pub all_gone-count :
    (ws : List Worker)
    → ((j : ℕ) → j < length ws → get_or ws j gone ≡ gone)
    → count is_counted ws ≡ 0
all_gone-count [] h = refl
all_gone-count (w ∷ ws) h =
    let rest = all_gone-count ws (λ j l. h (suc j) (omega arith)) in
    rw (h 0 (omega arith)) (omega (arith, rest))
