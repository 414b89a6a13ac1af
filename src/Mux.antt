-- ===== src/Mux.antt =====
-- The event multiplexer of infra/infra_mux.c and infra/infra_mux_epoll.c (in ppdb/src/internal):
-- how one is made and destroyed; Events is about its use.
pub mod Blocks
pub mod RoundTrip
pub mod Events
pub mod Delivery
use ai_ppdb.Base.{ℕ, ◌==◌, ◌||◌, Bool, true, false, not, Option, none, some, if◌then◌else◌}
use ai_ppdb.Base.Words.{mul64}
use ai_ppdb.Error.{InfraError, ok, invalid_param, no_memory, system}
use ai_ppdb.System.{System}

-- The part `mux` of `infra_config_t`.
pub record MuxConfig : Type 0 where
  pub max_events : ℕ
  pub edge_trigger : Bool

-- `infra_mux_t` with its `infra_mux_epoll_impl_t`, and the addresses of both.
pub record Mux : Type 0 where
  pub addr : ℕ
  pub impl_addr : ℕ
  pub events : ℕ
  pub epoll_fd : ℕ
  pub edge_trigger : Bool
  pub max_events : ℕ

module _ (y : System) where
  open y use {State, malloc, free, epoll_create, close}

  -- From the allocation of the event buffer on.
  unfoldable pub finish_mux : MuxConfig → ℕ → ℕ → ℕ → State → InfraError × Option Mux × State
  finish_mux config a i fd s =
      let (buffer, s') = malloc (mul64 12 config.max_events) s in
      elim buffer [
        | none ↦ (no_memory, none, free a (free i (close fd s')))
        | some e ↦ (
          ok,
          some (record {
            addr = a;
            impl_addr = i;
            events = e;
            epoll_fd = fd;
            edge_trigger = config.edge_trigger;
            max_events = config.max_events;
          }),
          s',
        )
      ]

  -- From the creation of the epoll descriptor on.
  unfoldable pub open_mux : MuxConfig → ℕ → ℕ → State → InfraError × Option Mux × State
  open_mux config a i s =
      let (descriptor, s') = epoll_create s in
      elim descriptor [
        | none ↦ (system, none, free a (free i s'))
        | some fd ↦ finish_mux config a i fd s'
      ]

  -- `*mux` is written only on success. `mux == NULL` is `given ≡ false`.
  unfoldable pub infra_mux_epoll_create :
      Option MuxConfig → Bool → State → InfraError × Option Mux × State
  infra_mux_epoll_create none given s = (invalid_param, none, s)
  infra_mux_epoll_create (some config) false s = (invalid_param, none, s)
  infra_mux_epoll_create (some config) true s =
      let (new_mux, s₁) = malloc 16 s in
      let (impl, s₂) = malloc 24 s₁ in
      elim new_mux [
        | none ↦ (no_memory, none, s₁)
        | some a ↦ elim impl [
          | none ↦ (no_memory, none, free a s₂)
          | some i ↦ open_mux config a i s₂
        ]
      ]

  unfoldable pub infra_mux_create :
      Option MuxConfig → Bool → State → InfraError × Option Mux × State
  infra_mux_create none given s = (invalid_param, none, s)
  infra_mux_create (some config) false s = (invalid_param, none, s)
  infra_mux_create (some config) true s = infra_mux_epoll_create (some config) true s

  unfoldable pub infra_mux_epoll_destroy : Option Mux → State → InfraError × State
  infra_mux_epoll_destroy none s = (invalid_param, s)
  infra_mux_epoll_destroy (some m) s =
      (ok, free m.addr (free m.impl_addr (close m.epoll_fd (free m.events s))))
