-- ===== src/Net.antt =====
-- The sockets of infra/infra_net.c (in ppdb/src/internal), over the calls of the kernel.
pub mod Connect
pub mod Balance
pub mod Exchange
pub mod Clients
use ai_ppdb.Base.{
  ℕ, ◌-◌, ◌^◌, ◌/◌, ◌%◌, ◌*◌, Bool, true, false, not, ◌==◌, ◌&&◌, ◌||◌, List, [], ◌∷◌, Option, none,
  some, ltb, if◌then◌else◌, bytes_eq,
}
use ai_ppdb.Error.{
  InfraError, ok, invalid, invalid_param, invalid_operation, no_memory, system, is_error,
}
use ai_ppdb.System.{System}
use ai_ppdb.Config.{Config}
use Prim.Native.Nat.{bit_and, bit_or}

-- `struct infra_socket`, with its own address.
pub record Socket : Type 0 where
  pub addr : ℕ
  pub fd : ℕ
  pub is_udp : Bool

-- `infra_net_addr_t`
pub record Address : Type 0 where
  pub host : List ℕ
  pub port : ℕ

-- The options that are set with `setsockopt`; timeouts are in milliseconds.
pub data SocketOption : Type 0 where
  reuse_address keep_alive no_delay : Bool → SocketOption
  receive_timeout send_timeout : ℕ → SocketOption

-- How `connect` returns: done, EINPROGRESS or EWOULDBLOCK, another error.
pub data Connecting : Type 0 where
  connected pending refused : Connecting

-- The calls; a Boolean result is success, `none` is -1. `select` gives whether the descriptor can be
-- written in time, `socket_error` what SO_ERROR holds, `pton` an IPv4 address.
pub record SocketCalls (y : System) : Type 0 where
  pub socket : Bool → y.State → Option ℕ × y.State
  pub get_flags : ℕ → y.State → Option ℕ × y.State
  pub set_flags : ℕ → ℕ → y.State → Bool × y.State
  pub set_option : SocketOption → ℕ → y.State → Bool × y.State
  pub bind : ℕ → ℕ → ℕ → y.State → Bool × y.State
  pub listen : ℕ → y.State → Bool × y.State
  pub connect : ℕ → ℕ → ℕ → y.State → Connecting × y.State
  pub select : ℕ → ℕ → y.State → Option Bool × y.State
  pub socket_error : ℕ → y.State → Option ℕ × y.State
  pub pton : List ℕ → Option ℕ
  -- O_NONBLOCK
  pub nonblock_bit : ℕ

-- A flag of a configuration.
abbrev pub has_bit : ℕ → ℕ → Bool
has_bit flags bit = not (bit_and flags bit == 0)

-- INADDR_LOOPBACK and INADDR_ANY
abbrev pub loopback : ℕ
loopback = 2130706433

abbrev pub any_address : ℕ
any_address = 0

-- "127.0.0.1"
abbrev pub localhost : List ℕ
localhost = 49 ∷ 50 ∷ 55 ∷ 46 ∷ 48 ∷ 46 ∷ 48 ∷ 46 ∷ 49 ∷ []

module _ (y : System) (calls : SocketCalls y) where
  open y use {State, malloc, free, close}
  open calls use {
    socket, get_flags, set_flags, set_option, bind, listen, connect, select, socket_error, pton,
    nonblock_bit,
  }

  -- A function's result, what it leaves in `*sock`, and the state.
  abbrev pub Result : Type 0
  Result = InfraError × Option Socket × State

  unfoldable pub infra_net_close : Option Socket → State → InfraError × State
  infra_net_close none s = (invalid, s)
  infra_net_close (some k) s = (ok, free k.addr (close k.fd s))

  -- `close`, `infra_free` and `*sock = NULL`.
  abbrev pub drop_socket : InfraError → Socket → State → Result
  drop_socket err k s = (err, none, free k.addr (close k.fd s))

  -- Whether to go on with the socket, or to drop it.
  abbrev pub guard : InfraError → Socket → Bool × State → Result
  guard err k (true, s) = (ok, some k, s)
  guard err k (false, s) = drop_socket err k s

  -- After a step that returned ok the next one runs.
  abbrev pub chain : Result → (Socket → State → Result) → Result
  chain (ok, some k, s) f = f k s
  chain (ok, none, s) f = (ok, none, s)
  chain (err, k, s) f = (err, k, s)

  -- The part of `create_socket` that sets O_NONBLOCK.
  unfoldable pub set_nonblocking : Socket → State → Result
  set_nonblocking k s =
      let (flags, s') = get_flags k.fd s in
      elim flags [
        | none ↦ drop_socket system k s'
        | some f ↦ guard system k (set_flags k.fd (bit_or f nonblock_bit) s')
      ]

  -- The part from `socket` on, for the block at `a`.
  unfoldable pub open_socket : Bool → Bool → ℕ → State → Result
  unfolding set_nonblocking
  open_socket udp nonblocking a s =
      let (fd, s') = socket udp s in
      elim fd [
        | none ↦ (system, none, free a s')
        | some d ↦
            let k : Socket = record { addr = a; fd = d; is_udp = udp } in
            if nonblocking then set_nonblocking k s' else (ok, some k, s')
      ]

  -- `sizeof(struct infra_socket)` is 24. Its callers have tested both pointers.
  unfoldable pub create_socket : Bool → Bool → State → Result
  unfolding open_socket
  create_socket udp nonblocking s =
      let (block, s') = malloc 24 s in
      elim block [ none ↦ (no_memory, none, s') | some a ↦ open_socket udp nonblocking a s' ]

  -- `*sock` before the call is `old`; `false` stands for a NULL `sock`.
  unfoldable pub infra_net_create : Bool → Bool → Option Config → Option Socket → State → Result
  infra_net_create false udp c old s = (invalid_param, old, s)
  infra_net_create true udp none old s = (invalid_param, old, s)
  infra_net_create true udp (some c) old s = create_socket udp (has_bit c.net.flags 1) s

  unfoldable pub infra_net_udp_socket : Bool → Option Config → Option Socket → State → Result
  infra_net_udp_socket false c old s = (invalid, old, s)
  infra_net_udp_socket true none old s = (invalid, old, s)
  infra_net_udp_socket true (some c) old s = create_socket true false s

  -- A test of success, for the functions that leave the socket as it is.
  abbrev pub checked : Bool × State → InfraError × State
  checked (true, s) = (ok, s)
  checked (false, s) = (system, s)

  unfoldable pub infra_net_bind : Option Socket → Option Address → State → InfraError × State
  infra_net_bind none a s = (invalid_param, s)
  infra_net_bind (some k) none s = (invalid_param, s)
  infra_net_bind (some k) (some a) s =
      let (reused, s') = set_option (reuse_address true) k.fd s in
      let host = if bytes_eq a.host localhost then loopback else any_address in
      if reused then checked (bind k.fd host a.port s') else (system, s')

  unfoldable pub infra_net_listen : Option Socket → State → InfraError × State
  infra_net_listen none s = (invalid_param, s)
  infra_net_listen (some k) s =
      let r = checked (listen k.fd s) in if k.is_udp then (invalid_operation, s) else r

  unfoldable pub infra_net_set_nonblock : Option Socket → Bool → State → InfraError × State
  infra_net_set_nonblock none enable s = (invalid, s)
  infra_net_set_nonblock (some k) enable s =
      let (flags, s') = get_flags k.fd s in
      elim flags [
        | none ↦ (system, s')
        | some f ↦ checked (
            set_flags k.fd
              (if enable then bit_or f nonblock_bit else bit_and f (2 ^ 32 - 1 - nonblock_bit)) s')
      ]

  unfoldable pub infra_net_set_keepalive : Option Socket → Bool → State → InfraError × State
  infra_net_set_keepalive none enable s = (invalid, s)
  infra_net_set_keepalive (some k) enable s = checked (set_option (keep_alive enable) k.fd s)

  unfoldable pub infra_net_set_reuseaddr : Option Socket → Bool → State → InfraError × State
  infra_net_set_reuseaddr none enable s = (invalid, s)
  infra_net_set_reuseaddr (some k) enable s = checked (set_option (reuse_address enable) k.fd s)

  unfoldable pub infra_net_set_nodelay : Option Socket → Bool → State → InfraError × State
  infra_net_set_nodelay none enable s = (invalid, s)
  infra_net_set_nodelay (some k) enable s = checked (set_option (no_delay enable) k.fd s)

  unfoldable pub infra_net_set_timeout : Option Socket → ℕ → State → InfraError × State
  infra_net_set_timeout none timeout s = (invalid, s)
  infra_net_set_timeout (some k) timeout s =
      let (received, s') = set_option (receive_timeout timeout) k.fd s in
      if received then checked (set_option (send_timeout timeout) k.fd s') else (system, s')

  -- The end of `infra_net_udp_bind`: where it fails, `*sock` keeps the socket that was closed.
  unfoldable pub bind_udp : Address → Socket → State → Result
  bind_udp a k s = elim (pton a.host) [
    | none ↦ (invalid, some k, free k.addr (close k.fd s))
    | some host ↦
        let (bound, s') = bind k.fd host a.port s in
        if bound then (ok, some k, s') else (system, some k, free k.addr (close k.fd s'))
  ]

  unfoldable pub infra_net_udp_bind :
      Option Address → Bool → Option Config → Option Socket → State → Result
  unfolding bind_udp create_socket
  infra_net_udp_bind none given c old s = (invalid, old, s)
  infra_net_udp_bind (some a) false c old s = (invalid, old, s)
  infra_net_udp_bind (some a) true none old s = (invalid, old, s)
  infra_net_udp_bind (some a) true (some c) old s = chain (create_socket true false s) (bind_udp a)

-- -1 is `none`.
unfoldable pub infra_net_get_fd : Option Socket → Option ℕ
infra_net_get_fd none = none
infra_net_get_fd (some k) = some k.fd
