-- ===== src/Net/Balance.antt =====
-- Which blocks and descriptors the functions of infra/infra_net.c take and give back.
use ai_ppdb.Base.{
  ℕ, ◌≡◌, refl, ◌∙◌, ◌⊎◌, inl, inr, Bool, true, false, ◌==◌, ◌||◌, Option, none, some, Option-cases,
  arith, if_split, ltb,
}
use ai_ppdb.Error.{InfraError, ok, would_block, is_error, system, invalid, timeout}
use ai_ppdb.System.{System, IsSystem}
use ai_ppdb.Config.{Config}
use ai_ppdb.Net.{
  Socket, Address, SocketOption, keep_alive, no_delay, receive_timeout, send_timeout, Connecting,
  connected, pending, refused, SocketCalls, has_bit, Result, drop_socket, guard, chain,
  set_nonblocking, open_socket, create_socket,
}
use ai_ppdb.Net.Connect.{
  verdict, selected, connect_answer, connect_to, option_if, set_options, infra_net_connect,
}

-- The same blocks are allocated and the same descriptors open.
abbrev pub Same : (y : System) → y.State → y.State → Type 0
Same y s t = (q : ℕ) → (y.live t q ≡ y.live s q) × (y.opened t q ≡ y.opened s q)

-- `socket` opens a descriptor that was not open, or fails; the other calls open and close none.
pub record IsSockets (y : System) (calls : SocketCalls y) : Type 0 where
  pub socket-fresh :
      (udp : Bool) (s : y.State) (d : ℕ) → (calls.socket udp s).0 ≡ some d → y.opened s d ≡ false
  pub socket-opened :
      (udp : Bool) (s : y.State) (d q : ℕ)
      → (calls.socket udp s).0 ≡ some d
      → (y.live (calls.socket udp s).1 q ≡ y.live s q)
        × (y.opened (calls.socket udp s).1 q ≡ (q == d || y.opened s q))
  pub socket-fail :
      (udp : Bool) (s : y.State) → (calls.socket udp s).0 ≡ none → Same y s (calls.socket udp s).1
  pub get_flags-Same : (d : ℕ) (s : y.State) → Same y s (calls.get_flags d s).1
  pub set_flags-Same : (d f : ℕ) (s : y.State) → Same y s (calls.set_flags d f s).1
  pub set_option-Same :
      (o : SocketOption) (d : ℕ) (s : y.State) → Same y s (calls.set_option o d s).1
  pub connect-Same : (d h p : ℕ) (s : y.State) → Same y s (calls.connect d h p s).1
  pub select-Same : (d w : ℕ) (s : y.State) → Same y s (calls.select d w s).1
  pub socket_error-Same : (d : ℕ) (s : y.State) → Same y s (calls.socket_error d s).1

module _ (y : System) (calls : SocketCalls y) (law : IsSystem y) (net : IsSockets y calls) where
  open y use {State, malloc, free, close, live, opened}

  -- In `t` the block and the descriptor of the socket are there, besides what was there in `s`.
  abbrev pub Owns : State → Socket → State → Type 0
  Owns s k t =
      (live s k.addr ≡ false)
      × (opened s k.fd ≡ false)
      × ((q : ℕ)
          → (live t q ≡ (q == k.addr || live s q)) × (opened t q ≡ (q == k.fd || opened s q)))

  -- The socket is there if, and only if, it is returned: with ok, or while it connects.
  abbrev pub Tally : State → Result y calls → Type 0
  Tally s (err, none, t) = (is_error err ≡ true) × Same y s t
  Tally s (err, some k, t) = ((err ≡ ok) ⊎ (err ≡ would_block)) × Owns s k t

  Owns-Same : (s : State) (k : Socket) (t u : State) → Owns s k t → Same y t u → Owns s k u
  Owns-Same s k t u h e = (h.0, h.1, λ q. ((e q).0 ∙ (h.2 q).0, (e q).1 ∙ (h.2 q).1))

  drop_socket-Tally :
      (s : State) (err : InfraError) (k : Socket) (t : State)
      → is_error err ≡ true
      → Owns s k t
      → Tally s (drop_socket y calls err k t)
  drop_socket-Tally s err k t e h = (
    e,
    λ q. (
      ground
          (arith, law.free-live k.addr (close k.fd t) q, law.close-live k.fd t q, (h.2 q).0, h.0),
      ground (
        arith,
        law.free-opened k.addr (close k.fd t) q,
        law.close-opened k.fd t q,
        (h.2 q).1,
        h.1,
      ),
    ),
  )

  guard-Tally :
      (s : State) (k : Socket) (t : State) (r : Bool × State)
      → Owns s k t
      → Same y t r.1
      → Tally s (guard y calls system k r)
  guard-Tally s k t (true, u) h e = (inl refl, Owns-Same s k t u h e)
  guard-Tally s k t (false, u) h e = drop_socket-Tally s system k u refl (Owns-Same s k t u h e)

  chain-Tally :
      (s : State) (r : Result y calls) (f : Socket → State → Result y calls)
      → Tally s r
      → ((k : Socket) (t : State) → Owns s k t → Tally s (f k t))
      → Tally s (chain y calls r f)
  chain-Tally s (ok, some k, t) f h g = g k t h.1
  chain-Tally s (ok, none, t) f h g = h
  chain-Tally s (err, k, t) f h g = h

  set_nonblocking-Tally :
      (s : State) (k : Socket) (t : State) → Owns s k t → Tally s (set_nonblocking y calls k t)
  unfolding set_nonblocking
  set_nonblocking-Tally s k t h =
      let u = (calls.get_flags k.fd t).1 in
      let h' = Owns-Same s k t u h (net.get_flags-Same k.fd t) in
      elim (Option-cases (calls.get_flags k.fd t).0) [
        | inl f ↦ rw (f, set_nonblocking) (drop_socket-Tally s system k u refl h')
        | inr (flags, f) ↦
            rw (f, set_nonblocking) (guard-Tally s k u _ h' (net.set_flags-Same k.fd _ u))
      ]

  create_socket-Tally :
      (udp nonblocking : Bool) (s : State) → Tally s (create_socket y calls udp nonblocking s)
  unfolding create_socket open_socket
  create_socket-Tally udp nonblocking s =
      let s₁ = (malloc 24 s).1 in
      let s₂ = (calls.socket udp s₁).1 in
      elim (Option-cases (malloc 24 s).0) [
        | inl f ↦
            rw (f, create_socket) (refl, λ q. (law.malloc-fail 24 s q f, law.malloc-opened 24 s q))
        | inr (a, f) ↦ elim (Option-cases (calls.socket udp s₁).0) [
          | inl g ↦
              rw (f, create_socket)
                (rw (g, open_socket)
                  (
                    refl,
                    λ q. (
                      ground (
                        arith,
                        law.free-live a s₂ q,
                        (net.socket-fail udp s₁ g q).0,
                        law.malloc-live 24 s a q f,
                        law.malloc-fresh 24 s a f,
                      ),
                      ground (
                        arith,
                        law.free-opened a s₂ q,
                        (net.socket-fail udp s₁ g q).1,
                        law.malloc-opened 24 s q,
                      ),
                    ),
                  ))
          | inr (d, g) ↦
              let k : Socket = record { addr = a; fd = d; is_udp = udp } in
              let h : Owns s k s₂ = (
                law.malloc-fresh 24 s a f,
                ground (arith, net.socket-fresh udp s₁ d g, law.malloc-opened 24 s d),
                λ q. (
                  ground (arith, (net.socket-opened udp s₁ d q g).0, law.malloc-live 24 s a q f),
                  ground (arith, (net.socket-opened udp s₁ d q g).1, law.malloc-opened 24 s q),
                ),
              ) in
              rw (f, create_socket)
                (rw (g, open_socket)
                  (if_split (Tally s) nonblocking _ _ (λ e. set_nonblocking-Tally s k s₂ h)
                    (λ e. (inl refl, h))))
        ]
      ]

  verdict-Tally :
      (s : State) (k : Socket) (t : State) (r : Option ℕ × State)
      → Owns s k t
      → Same y t r.1
      → Tally s (verdict y calls k r)
  verdict-Tally s k t (none, u) h e = drop_socket-Tally s system k u refl (Owns-Same s k t u h e)
  verdict-Tally s k t (some n, u) h e =
      guard-Tally s k u (n == 0, u) (Owns-Same s k t u h e) (λ q. (refl, refl))

  selected-Tally :
      (s : State) (k : Socket) (t : State) (r : Option Bool × State)
      → Owns s k t
      → Same y t r.1
      → Tally s (selected y calls k r)
  selected-Tally s k t (none, u) h e = drop_socket-Tally s system k u refl (Owns-Same s k t u h e)
  selected-Tally s k t (some false, u) h e =
      drop_socket-Tally s timeout k u refl (Owns-Same s k t u h e)
  selected-Tally s k t (some true, u) h e =
      let h' = Owns-Same s k t u h e in
      verdict-Tally s k u (calls.socket_error k.fd u) h' (net.socket_error-Same k.fd u)

  connect_answer-Tally :
      (nonblocking : Bool) (wait : ℕ) (s : State) (k : Socket) (t : State) (r : Connecting × State)
      → Owns s k t
      → Same y t r.1
      → Tally s (connect_answer y calls nonblocking wait k r)
  unfolding connect_answer
  connect_answer-Tally b w s k t (connected, u) h e = (inl refl, Owns-Same s k t u h e)
  connect_answer-Tally true w s k t (pending, u) h e = (inr refl, Owns-Same s k t u h e)
  connect_answer-Tally false w s k t (pending, u) h e =
      selected-Tally s k u (calls.select k.fd w u) (Owns-Same s k t u h e)
        (net.select-Same k.fd w u)
  connect_answer-Tally b w s k t (refused, u) h e =
      drop_socket-Tally s system k u refl (Owns-Same s k t u h e)

  connect_to-Tally :
      (c : Config) (a : Address) (s : State) (k : Socket) (t : State)
      → Owns s k t
      → Tally s (connect_to y calls c a k t)
  unfolding connect_to
  connect_to-Tally c a s k t h = elim (Option-cases (calls.pton a.host)) [
    | inl f ↦ rw (f, connect_to) (drop_socket-Tally s invalid k t refl h)
    | inr (host, f) ↦
        rw (f, connect_to)
          (connect_answer-Tally (has_bit c.net.flags 1) _ s k t (calls.connect k.fd host a.port t) h
            (net.connect-Same k.fd host a.port t))
  ]

  option_if-Tally :
      (wanted : Bool) (o : SocketOption) (s : State) (k : Socket) (t : State)
      → Owns s k t
      → Tally s (option_if y calls wanted o k t)
  option_if-Tally wanted o s k t h =
      if_split (Tally s) wanted _ _
        (λ e. guard-Tally s k t (calls.set_option o k.fd t) h (net.set_option-Same o k.fd t))
        (λ e. (inl refl, h))

  set_options-Tally :
      (c : Config) (s : State) (k : Socket) (t : State)
      → Owns s k t
      → Tally s (set_options y calls c k t)
  unfolding set_options
  set_options-Tally c s k t h =
      chain-Tally s _ _ (option_if-Tally (has_bit c.net.flags 2) (no_delay true) s k t h)
        (λ k₁ t₁ h₁.
          chain-Tally s _ _ (option_if-Tally (has_bit c.net.flags 4) (keep_alive true) s k₁ t₁ h₁)
            (λ k₂ t₂ h₂.
              chain-Tally s _ _
                (option_if-Tally (ltb 0 c.net.read_timeout_ms)
                  (receive_timeout c.net.read_timeout_ms) s k₂ t₂ h₂)
                (option_if-Tally (ltb 0 c.net.write_timeout_ms)
                  (send_timeout c.net.write_timeout_ms) s)))

  -- Connecting without a socket of the caller either returns ok or would_block with a new
  -- socket, whose block and descriptor are then the only ones besides those from before; or it
  -- returns an error without a socket, and the blocks and descriptors are as before.
  pub infra_net_connect-Tally :
      (a : Address) (c : Config) (s : State)
      → Tally s (infra_net_connect y calls (some a) true (some c) none s)
  unfolding infra_net_connect
  infra_net_connect-Tally a c s =
      chain-Tally s _ _ (create_socket-Tally false (has_bit c.net.flags 1) s)
        (λ k t h. chain-Tally s _ _ (connect_to-Tally c a s k t h) (set_options-Tally c s))
