-- ===== src/Mux/RoundTrip.antt =====
-- Create and destroy of the multiplexer of infra/infra_mux_epoll.c undo each other.
use ai_ppdb.Base.{ℕ, ◌≡◌, inl, inr, Bool, true, false, Option, none, some, Option-cases, arith}
use ai_ppdb.Base.Words.{mul64}
use ai_ppdb.System.{System, IsSystem, insert}
use ai_ppdb.Mux.{
  MuxConfig, Mux, finish_mux, open_mux, infra_mux_epoll_create, infra_mux_create,
  infra_mux_epoll_destroy,
}
use ai_ppdb.Mux.Blocks.{SameHeld}

module _ (y : System) (law : IsSystem y) where
  open y use {State, malloc, free, epoll_create, close, live, opened}

  -- The state after create holds the three blocks and the descriptor of `m` beyond that before it.
  record Holds (m : Mux) (s s' : State) : Type 0 where
    pub blocks :
        (q : ℕ) → live s' q ≡ insert m.events (insert m.impl_addr (insert m.addr (live s))) q
    pub descriptor : (d : ℕ) → opened s' d ≡ insert m.epoll_fd (opened s) d
    pub new_addr : live s m.addr ≡ false
    pub new_impl : live s m.impl_addr ≡ false
    pub new_events : live s m.events ≡ false
    pub new_fd : opened s m.epoll_fd ≡ false

  destroy-Holds :
      (m : Mux) (s s' : State)
      → Holds m s s'
      → SameHeld y s (infra_mux_epoll_destroy y (some m) s').1
  unfolding infra_mux_epoll_destroy
  destroy-Holds m s s' h =
      let s₁ = free m.events s' in
      let s₂ = close m.epoll_fd s₁ in
      let s₃ = free m.impl_addr s₂ in
      (
        λ q. ground (
          arith,
          law.free-live m.addr s₃ q,
          law.free-live m.impl_addr s₂ q,
          law.close-live m.epoll_fd s₁ q,
          law.free-live m.events s' q,
          h.blocks q,
          h.new_addr,
          h.new_impl,
          h.new_events,
        ),
        λ d. ground (
          arith,
          law.free-opened m.addr s₃ d,
          law.free-opened m.impl_addr s₂ d,
          law.close-opened m.epoll_fd s₁ d,
          law.free-opened m.events s' d,
          h.descriptor d,
          h.new_fd,
        ),
      )

  open_mux-ok :
      (config : MuxConfig) (a i : ℕ) (s : State) (m : Mux)
      → (open_mux y config a i s).1 ≡ some m
      → (m.addr ≡ a)
        × (m.impl_addr ≡ i)
        × (live s m.events ≡ false)
        × (opened s m.epoll_fd ≡ false)
        × ((q : ℕ) → live (open_mux y config a i s).2 q ≡ insert m.events (live s) q)
        × ((d : ℕ) → opened (open_mux y config a i s).2 d ≡ insert m.epoll_fd (opened s) d)
  unfolding open_mux finish_mux
  open_mux-ok config a i s m made =
      let s₁ = (epoll_create s).1 in
      let n = mul64 12 config.max_events in
      elim (Option-cases (epoll_create s).0) [
        | inl f ↦ absurd (ground arith)
        | inr (fd, f) ↦ elim (Option-cases (malloc n s₁).0) [
          | inl g ↦ absurd (ground arith)
          | inr (e, g) ↦
              let same_events : m.events ≡ e = ground arith in
              let same_fd : m.epoll_fd ≡ fd = ground arith in
              (
                ground arith,
                ground arith,
                ground (arith, law.malloc-fresh n s₁ e g, law.epoll-live s e),
                ground (arith, law.epoll-fresh s fd f),
                λ q. ground (arith, law.malloc-live n s₁ e q g, law.epoll-live s q),
                λ d. ground (arith, law.malloc-opened n s₁ d, law.epoll-opened s fd d f),
              )
        ]
      ]

  create-Holds :
      (config : MuxConfig) (s : State) (m : Mux)
      → (infra_mux_epoll_create y (some config) true s).1 ≡ some m
      → Holds m s (infra_mux_epoll_create y (some config) true s).2
  unfolding infra_mux_epoll_create
  create-Holds config s m made =
      let s₁ = (malloc 16 s).1 in
      let s₂ = (malloc 24 s₁).1 in
      elim (Option-cases (malloc 16 s).0) [
        | inl f ↦ absurd (ground arith)
        | inr (a, f) ↦ elim (Option-cases (malloc 24 s₁).0) [
          | inl g ↦ absurd (ground arith)
          | inr (i, g) ↦
              let opening : (open_mux y config a i s₂).1 ≡ some m = ground arith in
              let (at_a, at_i, e_new, fd_new, blocks, descriptor) =
                open_mux-ok config a i s₂ m opening in
              rw (f, infra_mux_epoll_create)
                (rw g (record {
                  blocks = λ q. ground (
                    arith,
                    at_a,
                    at_i,
                    blocks q,
                    law.malloc-live 24 s₁ i q g,
                    law.malloc-live 16 s a q f,
                  );
                  descriptor = λ d.
                      ground
                        (arith, descriptor d, law.malloc-opened 24 s₁ d, law.malloc-opened 16 s d);
                  new_addr = ground (arith, at_a, law.malloc-fresh 16 s a f);
                  new_impl =
                      ground (arith, at_i, law.malloc-fresh 24 s₁ i g, law.malloc-live 16 s a i f);
                  new_events = ground (
                    arith,
                    e_new,
                    law.malloc-live 24 s₁ i m.events g,
                    law.malloc-live 16 s a m.events f,
                  );
                  new_fd = ground (
                    arith,
                    fd_new,
                    law.malloc-opened 24 s₁ m.epoll_fd,
                    law.malloc-opened 16 s m.epoll_fd,
                  );
                }))
        ]
      ]

  -- Destroying a multiplexer right after infra_mux_create made it gives back exactly the blocks
  -- and the descriptor that making it took.
  pub create-destroy :
      (config : Option MuxConfig) (given : Bool) (s : State) (m : Mux)
      → (infra_mux_create y config given s).1 ≡ some m
      → SameHeld y s (infra_mux_epoll_destroy y (some m) (infra_mux_create y config given s).2).1
  unfolding infra_mux_create
  create-destroy none given s m made = absurd (ground arith)
  create-destroy (some config) false s m made = absurd (ground arith)
  create-destroy (some config) true s m made =
      destroy-Holds m s (infra_mux_epoll_create y (some config) true s).2
        (create-Holds config s m made)
