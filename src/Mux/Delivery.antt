-- ===== src/Mux/Delivery.antt =====
-- What a wait on the multiplexer of infra/infra_mux_epoll.c reports of the descriptors that were
-- added.
use ai_ppdb.Base.{
  ℕ, zero, suc, ◌<◌, ◌≡◌, refl, sym, ◌∙◌, Bool, true, false, ◌==◌, ◌||◌, List, [], ◌∷◌, map, All,
  Option, some, inl, inr, Bool-cases, if_split, ltb, if◌then◌else◌, arith, ◌^◌, ◌%◌,
}
use ai_ppdb.Base.Int.{ℤ}
use ai_ppdb.Error.{system}
use ai_ppdb.System.{System}
use ai_ppdb.Mux.{Mux}
use ai_ppdb.Mux.Events.{
  EventSet, EpollEvent, MuxEvent, Waited, interrupted, failed, ready, EpollCalls, epoll_event,
  mux_event, Waiting, spent, refused, reports, wait_answer, wait_loop, ctl_result,
  infra_mux_epoll_add, infra_mux_epoll_wait,
}

-- What the kernel keeps: the word that each descriptor was added with, by epoll instance.
abbrev pub Ledger : System → Type 0
Ledger y = y.State → ℕ → ℕ → Option ℕ

module _ (y : System) (registered : Ledger y) (patience : y.State → ℕ) where
  open y use {State}

  -- `EPOLL_CTL_ADD` keeps the word of the event for the descriptor if it succeeds.
  abbrev pub AddLaw : ℕ → ℕ → EpollEvent → State → Bool × State → Type 0
  AddLaw ep fd ev s (true, t) =
      (q : ℕ) → registered t ep q ≡ (if q == fd then some ev.word else registered s ep q)
  AddLaw ep fd ev s (false, t) = (q : ℕ) → registered t ep q ≡ registered s ep q

  -- `epoll_wait` gives back words that were kept; a signal comes only so often, and changes none.
  abbrev pub WaitLaw : ℕ → State → Waited × State → Type 0
  WaitLaw ep s (interrupted, t) =
      (patience t < patience s) × ((q : ℕ) → registered t ep q ≡ registered s ep q)
  WaitLaw ep s (failed, t) = Unit
  WaitLaw ep s (ready events, t) =
      All (λ (ev : EpollEvent). (fd : ℕ) × (registered s ep fd ≡ some ev.word)) events

  -- Every descriptor was added with itself as the word.
  abbrev pub OwnWords : ℕ → State → Type 0
  OwnWords ep s = (fd w : ℕ) → registered s ep fd ≡ some w → (w ≡ fd) × (fd < 2 ^ 32)

  -- An event and the report of it.
  abbrev pub Report : ℕ → State → EpollEvent → MuxEvent → Type 0
  Report ep s ev e =
      (registered s ep e.fd ≡ some ev.word)
      × (e.user_data ≡ e.fd)
      × (e.events.read ≡ ev.input)
      × (e.events.write ≡ ev.output)
      × (e.events.error ≡ ev.error)

  abbrev pub Reports : ℕ → State → List EpollEvent → List MuxEvent → Type 0
  Reports ep s [] [] = Unit
  Reports ep s [] (e ∷ es) = ⊥
  Reports ep s (ev ∷ l) [] = ⊥
  Reports ep s (ev ∷ l) (e ∷ es) = Report ep s ev e × Reports ep s l es

  report :
      (ep : ℕ) (s : State) (ev : EpollEvent) (fd : ℕ)
      → OwnWords ep s
      → registered s ep fd ≡ some ev.word
      → Report ep s ev (mux_event ev)
  unfolding mux_event
  report ep s ev fd own e =
      let (same, small) = own fd ev.word e in
      let low : ev.word % 2 ^ 32 ≡ fd = omega (arith, same, small) in
      (rw low e, omega (arith, low, same), refl, refl, refl)

  map-Reports :
      (ep : ℕ) (s : State) (l : List EpollEvent)
      → OwnWords ep s
      → All (λ (ev : EpollEvent). (fd : ℕ) × (registered s ep fd ≡ some ev.word)) l
      → Reports ep s l (map mux_event l)
  map-Reports ep s [] own h = tt
  map-Reports ep s (ev ∷ l) own h = (report ep s ev h.0.0 own h.0.1, map-Reports ep s l own h.1)

  Reports-kept :
      (ep : ℕ) (s t : State) (l : List EpollEvent) (es : List MuxEvent)
      → ((q : ℕ) → registered t ep q ≡ registered s ep q)
      → Reports ep t l es
      → Reports ep s l es
  Reports-kept ep s t [] [] same h = tt
  Reports-kept ep s t [] (e ∷ es) same h = absurd h
  Reports-kept ep s t (ev ∷ l) [] same h = absurd h
  Reports-kept ep s t (ev ∷ l) (e ∷ es) same h =
      let (there, own, input, output, error) = h.0 in
      ((sym (same e.fd) ∙ there, own, input, output, error), Reports-kept ep s t l es same h.1)

  module _ (calls : EpollCalls y)
      (adds : (ep fd : ℕ) (ev : EpollEvent) (s : y.State)
        → AddLaw ep fd ev s (calls.ctl_add ep fd ev s))
      (waits : (ep size : ℕ) (timeout : ℤ) (s : y.State)
        → WaitLaw ep s (calls.wait ep size timeout s)) where
    -- From a state on, epoll_wait comes to an answer, asked again after each signal.
    pub data Settles (ep size : ℕ) (timeout : ℤ) : State → Waited × State → Type 0 where
      answered :
          (s : State) (r : Waited × State)
          → calls.wait ep size timeout s ≡ r
          → Settles ep size timeout s r
      asked_again :
          (s t : State) (r : Waited × State)
          → calls.wait ep size timeout s ≡ (interrupted, t)
          → Settles ep size timeout t r
          → Settles ep size timeout s r

    -- The wait has ended, with an error if epoll_wait came to one, or else with one report for each
    -- event, in order.
    abbrev pub Delivered : ℕ → ℕ → ℤ → State → Waiting State → Type 0
    Delivered ep size timeout s spent = ⊥
    Delivered ep size timeout s (refused err t) =
        (err ≡ system) × Settles ep size timeout s (failed, t)
    Delivered ep size timeout s (reports es t) =
        (l : List EpollEvent) × Settles ep size timeout s (ready l, t) × Reports ep s l es

    retry-Delivered :
        (ep size : ℕ) (timeout : ℤ) (s t : State) (r : Waiting State)
        → calls.wait ep size timeout s ≡ (interrupted, t)
        → ((q : ℕ) → registered t ep q ≡ registered s ep q)
        → Delivered ep size timeout t r
        → Delivered ep size timeout s r
    retry-Delivered ep size timeout s t spent e same h = h
    retry-Delivered ep size timeout s t (refused err u) e same h =
        (h.0, asked_again s t (failed, u) e h.1)
    retry-Delivered ep size timeout s t (reports es u) e same (l, settles, told) =
        (l, asked_again s t (ready l, u) e settles, Reports-kept ep s t l es same told)

    wait_answer-Delivered :
        (ep size : ℕ) (timeout : ℤ) (rounds : ℕ) (go : State → Waiting State) (s : State)
        (r : Waited × State)
        → calls.wait ep size timeout s ≡ r
        → ((t : State) → OwnWords ep t → patience t < rounds → Delivered ep size timeout t (go t))
        → OwnWords ep s
        → patience s < suc rounds
        → WaitLaw ep s r
        → Delivered ep size timeout s (wait_answer go r)
    unfolding wait_answer
    wait_answer-Delivered ep size timeout rounds go s (interrupted, t) e h own p w =
        retry-Delivered ep size timeout s t (go t) e w.1
          (h t (λ fd word f. own fd word (sym (w.1 fd) ∙ f)) (omega (arith, w.0)))
    wait_answer-Delivered ep size timeout rounds go s (failed, t) e h own p w =
        (refl, answered s (failed, t) e)
    wait_answer-Delivered ep size timeout rounds go s (ready events, t) e h own p w =
        (events, answered s (ready events, t) e, map-Reports ep s events own w)

    wait_loop-Delivered :
        (rounds ep size : ℕ) (timeout : ℤ) (s : State)
        → OwnWords ep s
        → patience s < rounds
        → Delivered ep size timeout s (wait_loop y calls rounds ep size timeout s)
    unfolding wait_loop
    wait_loop-Delivered zero ep size timeout s own p = absurd (omega arith)
    wait_loop-Delivered (suc rounds) ep size timeout s own p =
        wait_answer-Delivered ep size timeout rounds (wait_loop y calls rounds ep size timeout) s
          (calls.wait ep size timeout s) refl (wait_loop-Delivered rounds ep size timeout) own p
          (waits ep size timeout s)

    ctl_add-OwnWords :
        (ep fd : ℕ) (ev : EpollEvent) (s : State) (r : Bool × State)
        → ev.word ≡ fd
        → fd < 2 ^ 31
        → OwnWords ep s
        → AddLaw ep fd ev s r
        → OwnWords ep (ctl_result y calls r).1
    ctl_add-OwnWords ep fd ev s (false, t) e small own law q w f = own q w (sym (law q) ∙ f)
    ctl_add-OwnWords ep fd ev s (true, t) e small own law q w f = elim (Bool-cases (q == fd)) [
      | inl same ↦ ground (arith, law q, f, e, small)
      | inr other ↦
          let before : registered s ep q ≡ some w = ground (arith, law q, other, f) in
          own q w before
    ]

    -- An add keeps every word its descriptor, whatever user data it is given.
    pub infra_mux_epoll_add-OwnWords :
        (m : Mux) (fd : ℕ) (asked : EventSet) (user_data : ℕ) (s : State)
        → fd < 2 ^ 31
        → OwnWords m.epoll_fd s
        → OwnWords m.epoll_fd (infra_mux_epoll_add y calls (some m) (some fd) asked user_data s).1
    unfolding infra_mux_epoll_add epoll_event
    infra_mux_epoll_add-OwnWords m fd asked user_data s small own =
        let ev = epoll_event asked m.edge_trigger fd in
        ctl_add-OwnWords m.epoll_fd fd ev s (calls.ctl_add m.epoll_fd fd ev s) refl small own
          (adds m.epoll_fd fd ev s)

    -- Where every descriptor of an epoll instance was added with itself as the word, after one
    -- more descriptor below 2^31 is added to it, with whatever user data, a wait that has room
    -- for an event and more rounds than the signals that may come ends: with a system error, if
    -- epoll_wait comes to one after the signals, or else with one report for each event that
    -- epoll_wait comes to, in order, with the flags of the event and with a descriptor that was
    -- added with that word, which is also its user data.
    pub infra_mux_epoll_wait-Delivered :
        (rounds : ℕ) (m : Mux) (fd : ℕ) (asked : EventSet) (user_data size : ℕ) (timeout : ℤ)
        (s : State)
        → OwnWords m.epoll_fd s
        → fd < 2 ^ 31
        → 0 < size
        → 0 < m.max_events
        → patience (infra_mux_epoll_add y calls (some m) (some fd) asked user_data s).1 < rounds
        → Delivered m.epoll_fd
            (if ltb size m.max_events then size else m.max_events)
            timeout
            (infra_mux_epoll_add y calls (some m) (some fd) asked user_data s).1
            (infra_mux_epoll_wait y calls rounds
              (some m)
              true
              size
              timeout
              (infra_mux_epoll_add y calls (some m) (some fd) asked user_data s).1)
    unfolding infra_mux_epoll_wait
    infra_mux_epoll_wait-Delivered rounds m fd asked user_data size timeout s own small some_room
          buffer p =
        let room = if ltb size m.max_events then size else m.max_events in
        let t = (infra_mux_epoll_add y calls (some m) (some fd) asked user_data s).1 in
        if_split (Delivered m.epoll_fd room timeout t) (size == 0 || room == 0) _ _
          (λ e. absurd (ground arith))
          (λ e.
            wait_loop-Delivered rounds m.epoll_fd room timeout t
              (infra_mux_epoll_add-OwnWords m fd asked user_data s small own) p)
