-- ===== src/Net/Exchange.antt =====
-- Accepting, sending and receiving in infra/infra_net.c.
use ai_ppdb.Base.{ℕ, Bool, true, false, ◌==◌, List, Option, none, some, if◌then◌else◌}
use ai_ppdb.Error.{InfraError, ok, invalid, no_memory, system, would_block, timeout, closed}
use ai_ppdb.System.{System}
use ai_ppdb.Net.{Socket, Address, SocketCalls, has_bit}

-- How `accept` returns: EAGAIN or EWOULDBLOCK, another error, or with a descriptor.
pub data Incoming : Type 0 where
  nothing_pending accept_failed : Incoming
  incoming : ℕ → Incoming

-- How `send` and `recv` return: EAGAIN or EWOULDBLOCK, ETIMEDOUT, another error, or with a count.
pub data Moved : Type 0 where
  again timed_out failed : Moved
  moved : ℕ → Moved

-- `printed` is whether `inet_ntop` succeeds on the address of the descriptor.
pub record ExchangeCalls (y : System) : Type 0 where
  pub accept : ℕ → y.State → Incoming × y.State
  pub printed : ℕ → y.State → Bool
  pub send : ℕ → List ℕ → y.State → Moved × y.State
  pub recv : ℕ → ℕ → y.State → Moved × y.State
  pub send_to : ℕ → List ℕ → ℕ → ℕ → y.State → Moved × y.State

module _ (y : System) (calls : SocketCalls y) (more : ExchangeCalls y) where
  open y use {State, malloc, free, close}
  open calls use {get_flags, set_flags, nonblock_bit, pton}
  open more use {accept, printed, send, recv, send_to}

  -- The result, `*client`, the block of the client's address where one is wanted, and the state.
  abbrev pub Accepted : Type 0
  Accepted = InfraError × Option Socket × Option ℕ × State

  abbrev pub drop_client : InfraError → Socket → State → Accepted
  drop_client err k s = (err, none, none, free k.addr (close k.fd s))

  -- The end of `infra_net_accept`. INET_ADDRSTRLEN is 16.
  unfoldable pub name_client : Bool → Socket → State → Accepted
  name_client false k s = (ok, some k, none, s)
  name_client true k s =
      let (block, s') = malloc 16 s in
      elim block [
        | none ↦ drop_client no_memory k s'
        | some p ↦
            if printed k.fd s' then (ok, some k, some p, s') else drop_client system k (free p s')
      ]

  -- The client does not block if the listening socket does not.
  unfoldable pub inherit_flags : Bool → ℕ → Socket → State → Accepted
  unfolding name_client
  inherit_flags wanted listener k s =
      let (flags, s₁) = get_flags listener s in
      elim flags [
        | none ↦ name_client wanted k s₁
        | some f ↦
            let (set, s₂) = set_flags k.fd f s₁ in
            if has_bit f nonblock_bit
            then (if set then name_client wanted k s₂ else drop_client system k s₂)
            else name_client wanted k s₁
      ]

  unfoldable pub accept_answer : Bool → ℕ → ℕ → Incoming × State → Accepted
  unfolding inherit_flags
  accept_answer wanted listener a (nothing_pending, s) = (would_block, none, none, free a s)
  accept_answer wanted listener a (accept_failed, s) = (system, none, none, free a s)
  accept_answer wanted listener a (incoming d, s) =
      inherit_flags wanted listener (record { addr = a; fd = d; is_udp = false }) s

  -- `given` is whether `client` is not NULL, `wanted` whether `client_addr` is not.
  unfoldable pub infra_net_accept : Option Socket → Bool → Bool → State → Accepted
  unfolding accept_answer
  infra_net_accept none given wanted s = (invalid, none, none, s)
  infra_net_accept (some k) false wanted s = (invalid, none, none, s)
  infra_net_accept (some k) true wanted s =
      let (block, s') = malloc 24 s in
      elim block [
        | none ↦ (no_memory, none, none, s')
        | some a ↦ accept_answer wanted k.fd a (accept k.fd s')
      ]

  -- The count is `none` where `*sent` or `*received` is left as it was.
  abbrev pub Count : Type 0
  Count = InfraError × Option ℕ × State

  unfoldable pub sent_answer : Moved × State → Count
  sent_answer (again, s) = (would_block, some 0, s)
  sent_answer (timed_out, s) = (timeout, none, s)
  sent_answer (failed, s) = (system, none, s)
  sent_answer (moved n, s) = (ok, some n, s)

  unfoldable pub infra_net_send : Option Socket → Bool → List ℕ → State → Count
  unfolding sent_answer
  infra_net_send none given bytes s = (invalid, none, s)
  infra_net_send (some k) false bytes s = (invalid, none, s)
  infra_net_send (some k) true bytes s = sent_answer (send k.fd bytes s)

  unfoldable pub received_answer : Moved × State → Count
  received_answer (again, s) = (timeout, some 0, s)
  received_answer (timed_out, s) = (timeout, some 0, s)
  received_answer (failed, s) = (system, none, s)
  received_answer (moved n, s) = if n == 0 then (closed, none, s) else (ok, some n, s)

  unfoldable pub infra_net_recv : Option Socket → Bool → ℕ → State → Count
  unfolding received_answer
  infra_net_recv none given size s = (invalid, none, s)
  infra_net_recv (some k) false size s = (invalid, none, s)
  infra_net_recv (some k) true size s = received_answer (recv k.fd size s)

  unfoldable pub infra_net_sendto : Option Socket → Bool → List ℕ → Option Address → State → Count
  unfolding sent_answer
  infra_net_sendto none given bytes a s = (invalid, none, s)
  infra_net_sendto (some k) false bytes a s = (invalid, none, s)
  infra_net_sendto (some k) true bytes none s = (invalid, none, s)
  infra_net_sendto (some k) true bytes (some a) s = elim (pton a.host) [
    | none ↦ (invalid, none, s)
    | some host ↦ sent_answer (send_to k.fd bytes host a.port s)
  ]
