-- ===== src/Core/Leak.antt =====
-- Which mutexes a start and an end of the layer in infra/infra_core.c leave open.
use ai_ppdb.Base.{
  ℕ, ◌≡◌, refl, ◌⊎◌, inl, inr, Bool, true, false, not, ◌==◌, ◌&&◌, ◌||◌, Option, some, Option-cases,
  arith,
}
use ai_ppdb.Error.{InfraError, ok, system}
use ai_ppdb.Runtime.{Runtime, handle}
use ai_ppdb.Memory.Api.{infra_memory_init, infra_memory_cleanup, start_memory, reset_memory_state}
use ai_ppdb.Memory.{Memory}
use ai_ppdb.Config.{default_config}
use ai_ppdb.Core.{
  create_mutex, Core, init_log_module, init_memory_module, init_others, init_parts,
  infra_init_with_config, infra_init, infra_cleanup,
}

-- Which mutexes are open: `pthread_mutex_init` opens one that was not, `pthread_mutex_destroy` closes
-- the one that it is given.
pub record IsMutexes (rt : Runtime) : Type 0 where
  pub opened : rt.World → ℕ → Bool
  pub init-fresh : (w : rt.World) (h : ℕ) → (rt.mutex_init w).0 ≡ some h → opened w h ≡ false
  pub init-opened :
      (w : rt.World) (h q : ℕ)
      → (rt.mutex_init w).0 ≡ some h
      → opened (rt.mutex_init w).1 q ≡ (q == h || opened w q)
  pub destroy-opened :
      (w : rt.World) (h q : ℕ)
      → opened (rt.mutex_destroy (handle h) w) q ≡ (not (q == h) && opened w q)

module _ (rt : Runtime) (law : IsMutexes rt) where
  open rt use {World}
  open law use {opened}

  -- After a start that returns ok, and then the end: all mutexes are as they were before the start, but
  -- one is open that was not. A start that fails leaves the layer not initialised.
  abbrev pub Leaks : World → InfraError × Core × World → Type 0
  Leaks w (ok, g, w') =
      (h : ℕ) × ((g.log_mutex ≡ some h)
        × (opened w h ≡ false)
        × ((q : ℕ) → opened (infra_cleanup rt g w').1 q ≡ (q == h || opened w q)))
  Leaks w (err, g, w') = g.initialized ≡ false

  create_mutex-cases :
      (old : Option ℕ) (w : World)
      → (create_mutex rt old w ≡ (system, old, (rt.mutex_init w).1))
        ⊎ ((h : ℕ) × (((rt.mutex_init w).0 ≡ some h)
              × (create_mutex rt old w ≡ (ok, some h, (rt.mutex_init w).1))))
  unfolding create_mutex
  create_mutex-cases old w = elim (Option-cases (rt.mutex_init w).0) [
    | inl f ↦ inl (rw (f, create_mutex) refl)
    | inr (h, f) ↦ inr (h, (f, rw (f, create_mutex) refl))
  ]

  -- The memory module with the default configuration: it wants one mutex.
  default_memory-cases :
      (m : Memory) (w : World)
      → m.initialized ≡ false
      → ((infra_memory_init rt (some default_config.memory) m w).0 ≡ system)
        ⊎ ((c : ℕ) × (((rt.mutex_init w).0 ≡ some c)
              × (infra_memory_init rt (some default_config.memory) m w ≡ (
                ok,
                record (reset_memory_state m) {
                  mutex = some c;
                  config = default_config.memory;
                  initialized = true;
                },
                (rt.mutex_init w).1,
              ))))
  unfolding infra_memory_init start_memory
  default_memory-cases m w e = elim (Option-cases (rt.mutex_init w).0) [
    | inl f ↦ inl (rw e (rw (f, start_memory) refl))
    | inr (c, f) ↦ inr (c, (f, rw e (rw (f, start_memory) refl)))
  ]

  -- Starting a layer that is not initialised, nor its memory module, either fails and leaves it
  -- not initialised; or returns ok, and after the end that follows the open mutexes are those
  -- from before the start and one more, that of the log.
  pub infra_init-Leaks :
      (g : Core) (w : World)
      → g.initialized ≡ false
      → g.memory.initialized ≡ false
      → Leaks w (infra_init rt g w)
  unfolding infra_init infra_init_with_config init_parts init_others init_log_module
      init_memory_module infra_cleanup infra_memory_cleanup
  infra_init-Leaks g w e m =
      let w₁ = (rt.mutex_init w).1 in
      let w₂ = (rt.mutex_init w₁).1 in
      let w₃ = (rt.mutex_init w₂).1 in
      elim (create_mutex-cases g.mutex w) [
        | inl f ↦ rw (e, f) refl
        | inr (a, (p, f)) ↦ elim (create_mutex-cases g.log_mutex w₁) [
          | inl f' ↦ rw (e, f) (rw f' refl)
          | inr (b, (q, f')) ↦ elim (default_memory-cases g.memory w₂ m) [
            | inl f'' ↦ rw (e, f) (rw f' (rw f'' refl))
            | inr (c, (r, f'')) ↦
                rw (e, f)
                  (rw f' (
                    rw f'' (
                      b,
                      (
                        refl,
                        ground (arith, law.init-fresh w₁ b q, law.init-opened w a b p),
                        λ x. ground (
                          arith,
                          law.destroy-opened (rt.mutex_destroy (handle c) w₃) a x,
                          law.destroy-opened w₃ c x,
                          law.init-opened w₂ c x r,
                          law.init-opened w₁ b x q,
                          law.init-opened w a x p,
                          law.init-fresh w a p,
                          law.init-fresh w₁ b q,
                          law.init-fresh w₂ c r,
                          law.init-opened w₁ b c q,
                          law.init-opened w a b p,
                          law.init-opened w₁ b a q,
                          law.init-opened w a a p,
                        ),
                      ),
                    )))
          ]
        ]
      ]
