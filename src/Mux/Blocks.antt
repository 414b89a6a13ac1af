-- ===== src/Mux/Blocks.antt =====
-- What the multiplexer of infra/infra_mux_epoll.c holds: its blocks and its descriptor.
use ai_ppdb.Base.{
  ℕ, ◌≡◌, refl, ◌≢◌, inl, inr, Bool, true, false, Option, none, some, Option-cases, arith,
}
use ai_ppdb.Base.Words.{mul64}
use ai_ppdb.Error.{ok}
use ai_ppdb.System.{System, IsSystem, delete}
use ai_ppdb.Mux.{MuxConfig, finish_mux, open_mux, infra_mux_epoll_create, infra_mux_create}

-- Two states with the same blocks and the same descriptors.
abbrev pub SameHeld : (y : System) → y.State → y.State → Type 0
SameHeld y s s' = ((q : ℕ) → y.live s' q ≡ y.live s q) × ((d : ℕ) → y.opened s' d ≡ y.opened s d)

module _ (y : System) (law : IsSystem y) where
  open y use {State, malloc, free, epoll_create, close, live, opened}

  -- On failure the end of create holds neither the two blocks that it was given nor the descriptor.
  finish_mux-error :
      (config : MuxConfig) (a i fd : ℕ) (s : State)
      → (finish_mux y config a i fd s).0 ≢ ok
      → ((q : ℕ) → live (finish_mux y config a i fd s).2 q ≡ delete a (delete i (live s)) q)
        × ((d : ℕ) → opened (finish_mux y config a i fd s).2 d ≡ delete fd (opened s) d)
  unfolding finish_mux
  finish_mux-error config a i fd s bad =
      let n = mul64 12 config.max_events in
      let s' = (malloc n s).1 in
      elim (Option-cases (malloc n s).0) [
        | inl f ↦ (
          λ q. ground (
            arith,
            law.free-live a (free i (close fd s')) q,
            law.free-live i (close fd s') q,
            law.close-live fd s' q,
            law.malloc-fail n s q f,
          ),
          λ d. ground (
            arith,
            law.free-opened a (free i (close fd s')) d,
            law.free-opened i (close fd s') d,
            law.close-opened fd s' d,
            law.malloc-opened n s d,
          ),
        )
        | inr (e, f) ↦ absurd (ground arith)
      ]

  open_mux-error :
      (config : MuxConfig) (a i : ℕ) (s : State)
      → (open_mux y config a i s).0 ≢ ok
      → ((q : ℕ) → live (open_mux y config a i s).2 q ≡ delete a (delete i (live s)) q)
        × ((d : ℕ) → opened (open_mux y config a i s).2 d ≡ opened s d)
  unfolding open_mux
  open_mux-error config a i s bad =
      let s' = (epoll_create s).1 in
      elim (Option-cases (epoll_create s).0) [
        | inl f ↦
            rw (f, open_mux)
              (
                λ q. ground (
                  arith,
                  law.free-live a (free i s') q,
                  law.free-live i s' q,
                  law.epoll-live s q,
                ),
                λ d. ground (
                  arith,
                  law.free-opened a (free i s') d,
                  law.free-opened i s' d,
                  law.epoll-fail s d f,
                ),
              )
        | inr (fd, f) ↦
            let failed : (finish_mux y config a i fd s').0 ≢ ok = ground arith in
            let held = finish_mux-error config a i fd s' failed in
            rw (f, open_mux)
              (
                λ q. ground (arith, held.0 q, law.epoll-live s q),
                λ d. ground (arith, held.1 d, law.epoll-opened s fd d f, law.epoll-fresh s fd f),
              )
      ]

  epoll_create-error :
      (config : MuxConfig) (s : State)
      → (infra_mux_epoll_create y (some config) true s).0 ≢ ok
      → SameHeld y s (infra_mux_epoll_create y (some config) true s).2
  unfolding infra_mux_epoll_create
  epoll_create-error config s bad =
      let s₁ = (malloc 16 s).1 in
      let s₂ = (malloc 24 s₁).1 in
      elim (Option-cases (malloc 16 s).0) [
        | inl f ↦
            rw (f, infra_mux_epoll_create)
              (λ q. law.malloc-fail 16 s q f, λ d. law.malloc-opened 16 s d)
        | inr (a, f) ↦ elim (Option-cases (malloc 24 s₁).0) [
          | inl g ↦
              rw (f, infra_mux_epoll_create)
                (rw g (
                  λ q. ground (
                    arith,
                    law.free-live a s₂ q,
                    law.malloc-fail 24 s₁ q g,
                    law.malloc-live 16 s a q f,
                    law.malloc-fresh 16 s a f,
                  ),
                  λ d. ground (
                    arith,
                    law.free-opened a s₂ d,
                    law.malloc-opened 24 s₁ d,
                    law.malloc-opened 16 s d,
                  ),
                ))
          | inr (i, g) ↦
              let failed : (open_mux y config a i s₂).0 ≢ ok = ground arith in
              let held = open_mux-error config a i s₂ failed in
              rw (f, infra_mux_epoll_create)
                (rw g (
                  λ q. ground (
                    arith,
                    held.0 q,
                    law.malloc-live 24 s₁ i q g,
                    law.malloc-fresh 24 s₁ i g,
                    law.malloc-live 16 s a q f,
                    law.malloc-live 16 s a i f,
                    law.malloc-fresh 16 s a f,
                  ),
                  λ d.
                      ground (arith, held.1 d, law.malloc-opened 24 s₁ d, law.malloc-opened 16 s d),
                ))
        ]
      ]

  -- Whatever infra_mux_create is given, if it does not return ok it leaves the allocated blocks
  -- and the open descriptors as they were.
  pub infra_mux_create-error :
      (config : Option MuxConfig) (given : Bool) (s : State)
      → (infra_mux_create y config given s).0 ≢ ok
      → SameHeld y s (infra_mux_create y config given s).2
  unfolding infra_mux_create
  infra_mux_create-error none given s bad = (λ q. refl, λ d. refl)
  infra_mux_create-error (some config) false s bad = (λ q. refl, λ d. refl)
  infra_mux_create-error (some config) true s bad = epoll_create-error config s bad
