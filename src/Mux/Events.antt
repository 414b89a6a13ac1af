-- ===== src/Mux/Events.antt =====
-- The events of infra/infra_mux_epoll.c, with the wrappers of infra/infra_platform.c that it calls.
use ai_ppdb.Base.{
  ℕ, zero, suc, ◌%◌, ◌^◌, Bool, true, false, ◌==◌, ◌||◌, List, map, Option, none, some, ltb,
  if◌then◌else◌,
}
use ai_ppdb.Base.Int.{ℤ}
use ai_ppdb.Error.{InfraError, ok, invalid_param, system}
use ai_ppdb.System.{System}
use ai_ppdb.Mux.{Mux}

-- The bits of `infra_event_type_t`.
pub record EventSet : Type 0 where
  pub read : Bool
  pub write : Bool
  pub error : Bool

-- `struct epoll_event`: EPOLLIN, EPOLLOUT, EPOLLERR, EPOLLET, and the 64 bits of `data`, whose low 32
-- are `data.fd` and which are `data.ptr` as a whole.
pub record EpollEvent : Type 0 where
  pub input : Bool
  pub output : Bool
  pub error : Bool
  pub edge : Bool
  pub word : ℕ

-- `infra_mux_event_t`
pub record MuxEvent : Type 0 where
  pub fd : ℕ
  pub events : EventSet
  pub user_data : ℕ

-- How `epoll_wait` returns: EINTR, another error, or with events.
pub data Waited : Type 0 where
  interrupted failed : Waited
  ready : List EpollEvent → Waited

-- `epoll_ctl` succeeds or not.
pub record EpollCalls (y : System) : Type 0 where
  pub ctl_add : ℕ → ℕ → EpollEvent → y.State → Bool × y.State
  pub ctl_modify : ℕ → ℕ → EpollEvent → y.State → Bool × y.State
  pub ctl_remove : ℕ → ℕ → y.State → Bool × y.State
  pub wait : ℕ → ℕ → ℤ → y.State → Waited × y.State

-- The event that is asked for; `ev` is zero before `data.fd` is set.
unfoldable pub epoll_event : EventSet → Bool → ℕ → EpollEvent
epoll_event events edge fd = record {
  input = events.read;
  output = events.write;
  error = events.error;
  edge = edge;
  word = fd;
}

-- The event that is reported.
unfoldable pub mux_event : EpollEvent → MuxEvent
mux_event ev = record {
  fd = ev.word % 2 ^ 32;
  events = record { read = ev.input; write = ev.output; error = ev.error };
  user_data = ev.word;
}

-- What a wait comes to: out of rounds, an error, or the events.
pub data Waiting (S : Type 0) : Type 0 where
  spent : Waiting S
  refused : InfraError → S → Waiting S
  reports : List MuxEvent → S → Waiting S

-- The round after `epoll_wait`.
unfoldable pub wait_answer : {S : Type 0} → (S → Waiting S) → Waited × S → Waiting S
unfolding mux_event
wait_answer go (interrupted, s) = go s
wait_answer go (failed, s) = refused system s
wait_answer go (ready events, s) = reports (map mux_event events) s

module _ (y : System) (calls : EpollCalls y) where
  open y use {State}
  open calls use {ctl_add, ctl_modify, ctl_remove, wait}

  abbrev pub ctl_result : Bool × State → InfraError × State
  ctl_result (true, s) = (ok, s)
  ctl_result (false, s) = (system, s)

  -- A negative descriptor is `none`; `user_data` is not used.
  unfoldable pub infra_mux_epoll_add :
      Option Mux → Option ℕ → EventSet → ℕ → State → InfraError × State
  unfolding epoll_event
  infra_mux_epoll_add none fd events user_data s = (invalid_param, s)
  infra_mux_epoll_add (some m) none events user_data s = (invalid_param, s)
  infra_mux_epoll_add (some m) (some fd) events user_data s =
      ctl_result (ctl_add m.epoll_fd fd (epoll_event events m.edge_trigger fd) s)

  unfoldable pub infra_mux_epoll_remove : Option Mux → Option ℕ → State → InfraError × State
  infra_mux_epoll_remove none fd s = (invalid_param, s)
  infra_mux_epoll_remove (some m) none s = (invalid_param, s)
  infra_mux_epoll_remove (some m) (some fd) s = ctl_result (ctl_remove m.epoll_fd fd s)

  unfoldable pub infra_mux_epoll_modify :
      Option Mux → Option ℕ → EventSet → State → InfraError × State
  unfolding epoll_event
  infra_mux_epoll_modify none fd events s = (invalid_param, s)
  infra_mux_epoll_modify (some m) none events s = (invalid_param, s)
  infra_mux_epoll_modify (some m) (some fd) events s =
      ctl_result (ctl_modify m.epoll_fd fd (epoll_event events m.edge_trigger fd) s)

  -- The loop of `infra_platform_epoll_wait`.
  unfoldable pub wait_loop : ℕ → ℕ → ℕ → ℤ → State → Waiting State
  unfolding wait_answer
  wait_loop zero fd size timeout s = spent
  wait_loop (suc rounds) fd size timeout s =
      wait_answer (wait_loop rounds fd size timeout) (wait fd size timeout s)

  -- `given` is whether `events` is not NULL. No room in the multiplexer's own buffer is refused by the
  -- wrapper.
  unfoldable pub infra_mux_epoll_wait : ℕ → Option Mux → Bool → ℕ → ℤ → State → Waiting State
  unfolding wait_loop
  infra_mux_epoll_wait rounds none given size timeout s = refused invalid_param s
  infra_mux_epoll_wait rounds (some m) false size timeout s = refused invalid_param s
  infra_mux_epoll_wait rounds (some m) true size timeout s =
      let room = if ltb size m.max_events then size else m.max_events in
      if size == 0 || room == 0
      then refused invalid_param s
      else wait_loop rounds m.epoll_fd room timeout s
