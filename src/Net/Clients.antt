-- ===== src/Net/Clients.antt =====
-- Which blocks and descriptors `infra_net_accept` of infra/infra_net.c takes.
use ai_ppdb.Base.{
  ℕ, ◌≡◌, refl, sym, ◌∙◌, inl, inr, Bool, true, false, not, is_null, ◌==◌, ◌||◌, Option, none, some,
  Option-cases, arith, if_split,
}
use ai_ppdb.Error.{InfraError, ok, is_error, no_memory, system}
use ai_ppdb.System.{System, IsSystem}
use ai_ppdb.Net.{Socket, SocketCalls, has_bit}
use ai_ppdb.Net.Balance.{Same, IsSockets}
use ai_ppdb.Net.Exchange.{
  Incoming, nothing_pending, accept_failed, incoming, ExchangeCalls, Accepted, drop_client,
  name_client, inherit_flags, accept_answer, infra_net_accept,
}

-- An answer of `accept` with a descriptor opens it; the others open none.
abbrev pub AcceptLaw : (y : System) → y.State → Incoming × y.State → Type 0
AcceptLaw y s (incoming d, t) =
    (y.opened s d ≡ false)
    × ((q : ℕ) → (y.live t q ≡ y.live s q) × (y.opened t q ≡ (q == d || y.opened s q)))
AcceptLaw y s (other, t) = Same y s t

abbrev is_host : Option ℕ → ℕ → Bool
is_host none q = false
is_host (some p) q = q == p

module _ (y : System) (calls : SocketCalls y) (more : ExchangeCalls y) (law : IsSystem y)
    (net : IsSockets y calls)
    (accepts : (d : ℕ) (s : y.State) → AcceptLaw y s (more.accept d s)) where
  open y use {State, malloc, free, close, live, opened}

  -- The client's block and descriptor, and the block of its address exactly where one is wanted,
  -- are there besides what was there; or with an error nothing is.
  abbrev pub Accounts : Bool → State → Accepted y calls more → Type 0
  Accounts wanted s (err, none, none, t) = (is_error err ≡ true) × Same y s t
  Accounts wanted s (err, none, some p, t) = ⊥
  Accounts wanted s (err, some k, host, t) =
      (err ≡ ok)
      × (is_null host ≡ not wanted)
      × ((q : ℕ)
          → (live t q ≡ (is_host host q || (q == k.addr || live s q)))
            × (opened t q ≡ (q == k.fd || opened s q)))

  -- The client, in a state between.
  abbrev Client : State → Socket → State → Type 0
  Client s k t =
      (live s k.addr ≡ false)
      × (opened s k.fd ≡ false)
      × ((q : ℕ)
          → (live t q ≡ (q == k.addr || live s q)) × (opened t q ≡ (q == k.fd || opened s q)))

  Client-Same : (s : State) (k : Socket) (t u : State) → Client s k t → Same y t u → Client s k u
  Client-Same s k t u h e = (h.0, h.1, λ q. ((e q).0 ∙ (h.2 q).0, (e q).1 ∙ (h.2 q).1))

  drop_client-Accounts :
      (wanted : Bool) (s : State) (err : InfraError) (k : Socket) (t : State)
      → is_error err ≡ true
      → Client s k t
      → Accounts wanted s (drop_client y calls more err k t)
  drop_client-Accounts wanted s err k t e h = (
    e,
    λ q. (
      ground
          (arith, law.free-live k.addr (close k.fd t) q, law.close-live k.fd t q, (h.2 q).0, h.0),
      ground (
        arith,
        law.free-opened k.addr (close k.fd t) q,
        law.close-opened k.fd t q,
        (h.2 q).1,
        h.1,
      ),
    ),
  )

  name_client-Accounts :
      (wanted : Bool) (s : State) (k : Socket) (t : State)
      → Client s k t
      → Accounts wanted s (name_client y calls more wanted k t)
  unfolding name_client
  name_client-Accounts false s k t h = (refl, refl, h.2)
  name_client-Accounts true s k t h =
      let u = (malloc 16 t).1 in
      elim (Option-cases (malloc 16 t).0) [
        | inl f ↦
            rw (f, name_client)
              (drop_client-Accounts true s no_memory k u refl
                (Client-Same s k t u h (λ q. (law.malloc-fail 16 t q f, law.malloc-opened 16 t q))))
        | inr (p, f) ↦
            rw (f, name_client)
              (if_split (Accounts true s) (more.printed k.fd u) _ _
                (λ e. (
                  refl,
                  refl,
                  λ q. (
                    ground (arith, law.malloc-live 16 t p q f, (h.2 q).0),
                    law.malloc-opened 16 t q ∙ (h.2 q).1,
                  ),
                ))
                (λ e. drop_client-Accounts true s system k (free p u) refl (
                  Client-Same s k t (free p u) h (λ q. (
                    ground (
                      arith,
                      law.free-live p u q,
                      law.malloc-live 16 t p q f,
                      law.malloc-fresh 16 t p f,
                    ),
                    law.free-opened p u q ∙ law.malloc-opened 16 t q,
                  )))))
      ]

  inherit_flags-Accounts :
      (wanted : Bool) (listener : ℕ) (s : State) (k : Socket) (t : State)
      → Client s k t
      → Accounts wanted s (inherit_flags y calls more wanted listener k t)
  unfolding inherit_flags
  inherit_flags-Accounts wanted listener s k t h =
      let t₁ = (calls.get_flags listener t).1 in
      let h₁ = Client-Same s k t t₁ h (net.get_flags-Same listener t) in
      elim (Option-cases (calls.get_flags listener t).0) [
        | inl f ↦ rw (f, inherit_flags) (name_client-Accounts wanted s k t₁ h₁)
        | inr (g, f) ↦
            let t₂ = (calls.set_flags k.fd g t₁).1 in
            let h₂ = Client-Same s k t₁ t₂ h₁ (net.set_flags-Same k.fd g t₁) in
            rw (f, inherit_flags)
              (if_split (Accounts wanted s) (has_bit g calls.nonblock_bit) _ _
                (λ e.
                  if_split (Accounts wanted s) (calls.set_flags k.fd g t₁).0 _ _
                    (λ e'. name_client-Accounts wanted s k t₂ h₂)
                    (λ e'. drop_client-Accounts wanted s system k t₂ refl h₂))
                (λ e. name_client-Accounts wanted s k t₁ h₁))
      ]

  -- The block for the client is new in `t`.
  abbrev Taken : ℕ → State → State → Type 0
  Taken a s t =
      (live s a ≡ false) × ((q : ℕ) → (live t q ≡ (q == a || live s q)) × (opened t q ≡ opened s q))

  given_back : (a : ℕ) (s t u : State) → Taken a s t → Same y t u → Same y s (free a u)
  given_back a s t u b h = λ q. (
    ground (arith, law.free-live a u q, (h q).0, (b.1 q).0, b.0),
    law.free-opened a u q ∙ (h q).1 ∙ (b.1 q).1,
  )

  accept_answer-Accounts :
      (wanted : Bool) (listener a : ℕ) (s t : State) (r : Incoming × State)
      → Taken a s t
      → AcceptLaw y t r
      → Accounts wanted s (accept_answer y calls more wanted listener a r)
  unfolding accept_answer
  accept_answer-Accounts wanted listener a s t (nothing_pending, u) b h =
      (refl, given_back a s t u b h)
  accept_answer-Accounts wanted listener a s t (accept_failed, u) b h =
      (refl, given_back a s t u b h)
  accept_answer-Accounts wanted listener a s t (incoming d, u) b h =
      inherit_flags-Accounts wanted listener s (record { addr = a; fd = d; is_udp = false }) u
        (
          b.0,
          sym (b.1 d).1 ∙ h.0,
          λ q. ((h.1 q).0 ∙ (b.1 q).0, ground (arith, (h.1 q).1, (b.1 q).1)),
        )

  -- Accepting on a socket either returns ok with a client, and with a block for its address
  -- exactly if one is wanted, and then these blocks and the descriptor of the client are the
  -- only ones besides those from before; or it returns an error without a client or a block,
  -- and the blocks and descriptors are as before.
  pub infra_net_accept-Accounts :
      (listener : Socket) (wanted : Bool) (s : State)
      → Accounts wanted s (infra_net_accept y calls more (some listener) true wanted s)
  unfolding infra_net_accept
  infra_net_accept-Accounts listener wanted s =
      let t = (malloc 24 s).1 in
      elim (Option-cases (malloc 24 s).0) [
        | inl f ↦
            rw (f, infra_net_accept)
              (refl, λ q. (law.malloc-fail 24 s q f, law.malloc-opened 24 s q))
        | inr (a, f) ↦
            rw (f, infra_net_accept)
              (accept_answer-Accounts wanted listener.fd a s t (more.accept listener.fd t)
                (
                  law.malloc-fresh 24 s a f,
                  λ q. (ground (arith, law.malloc-live 24 s a q f), law.malloc-opened 24 s q),
                )
                (accepts listener.fd t))
      ]
