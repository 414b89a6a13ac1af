-- ===== src/Net/Connect.antt =====
-- `infra_net_connect` of infra/infra_net.c.
use ai_ppdb.Base.{ℕ, Bool, true, false, ◌==◌, Option, none, some, ltb, if◌then◌else◌}
use ai_ppdb.Error.{ok, invalid, timeout, would_block, system}
use ai_ppdb.System.{System}
use ai_ppdb.Config.{Config}
use ai_ppdb.Net.{
  Socket, Address, SocketOption, keep_alive, no_delay, receive_timeout, send_timeout, Connecting,
  connected, pending, refused, SocketCalls, has_bit, Result, drop_socket, guard, chain,
  create_socket,
}

module _ (y : System) (calls : SocketCalls y) where
  open y use {State}
  open calls use {set_option, connect, select, socket_error, pton}

  -- After `select` and `getsockopt` in the wait for a connection.
  abbrev pub verdict : Socket → Option ℕ × State → Result y calls
  verdict k (none, s) = drop_socket y calls system k s
  verdict k (some e, s) = guard y calls system k (e == 0, s)

  abbrev pub selected : Socket → Option Bool × State → Result y calls
  selected k (none, s) = drop_socket y calls system k s
  selected k (some false, s) = drop_socket y calls timeout k s
  selected k (some true, s) = verdict k (socket_error k.fd s)

  -- What follows `connect`, with the configuration's flag for sockets that do not block.
  unfoldable pub connect_answer : Bool → ℕ → Socket → Connecting × State → Result y calls
  connect_answer nonblocking wait k (connected, s) = (ok, some k, s)
  connect_answer true wait k (pending, s) = (would_block, some k, s)
  connect_answer false wait k (pending, s) = selected k (select k.fd wait s)
  connect_answer nonblocking wait k (refused, s) = drop_socket y calls system k s

  unfoldable pub connect_to : Config → Address → Socket → State → Result y calls
  unfolding connect_answer
  connect_to c a k s =
      let wait = if ltb 0 c.net.connect_timeout_ms then c.net.connect_timeout_ms else 1000 in
      elim (pton a.host) [
        | none ↦ drop_socket y calls invalid k s
        | some host ↦ connect_answer (has_bit c.net.flags 1) wait k (connect k.fd host a.port s)
      ]

  -- An option that is set if the configuration asks for it.
  abbrev pub option_if : Bool → SocketOption → Socket → State → Result y calls
  option_if wanted o k s =
      if wanted then guard y calls system k (set_option o k.fd s) else (ok, some k, s)

  -- The socket to connect: the one that `*sock` holds, or a new one.
  abbrev pub existing_or_new : Config → Option Socket → State → Result y calls
  existing_or_new c (some k) s = (ok, some k, s)
  existing_or_new c none s = create_socket y calls false (has_bit c.net.flags 1) s

  unfoldable pub set_options : Config → Socket → State → Result y calls
  set_options c k s =
      chain y calls (option_if (has_bit c.net.flags 2) (no_delay true) k s) (λ k₁ s₁.
        chain y calls (option_if (has_bit c.net.flags 4) (keep_alive true) k₁ s₁) (λ k₂ s₂.
          chain y calls
            (option_if (ltb 0 c.net.read_timeout_ms) (receive_timeout c.net.read_timeout_ms) k₂ s₂)
            (option_if (ltb 0 c.net.write_timeout_ms) (send_timeout c.net.write_timeout_ms))))

  unfoldable pub infra_net_connect :
      Option Address → Bool → Option Config → Option Socket → State → Result y calls
  unfolding connect_to set_options
  infra_net_connect none given c old s = (invalid, old, s)
  infra_net_connect (some a) false c old s = (invalid, old, s)
  infra_net_connect (some a) true none old s = (invalid, old, s)
  infra_net_connect (some a) true (some c) old s =
      chain y calls (existing_or_new c old s)
        (λ k s₁. chain y calls (connect_to c a k s₁) (set_options c))
