-- ===== src/Rinetd/Sessions.antt =====
-- The forwarding sessions of peer/peer_rinetd.c as the main thread ends them: `cleanup_session_list`
-- and the part of `stop_service` on the sessions. The threads that listen and forward are not followed.
use ai_ppdb.Base.{
  ℕ, zero, suc, false, not, Option, none, some, get_or, set, replicate, ◌==◌, if◌then◌else◌,
}
use ai_ppdb.System.{System}
use ai_ppdb.Rinetd.{Session, Context, zero_session, SessionSlots, sessions_of, with_sessions, Calls}

abbrev pub slot : ℕ → SessionSlots → Session
slot i (ss, n) = get_or ss i zero_session

abbrev pub change : ℕ → (Session → Session) → SessionSlots → SessionSlots
change i f (ss, n) = (set ss i (f (get_or ss i zero_session)), n)

module _ (y : System) (calls : Calls y) where
  open y use {State}
  open calls use {mutex_lock, mutex_unlock, thread_join, net_close}

  -- `infra_mutex_lock(g_context.mutex)`: NULL is an error, which no caller looks at.
  abbrev pub infra_mutex_lock : Context → State → Option (Context × State)
  infra_mutex_lock c w = elim c.mutex [
    | none ↦ some (c, w)
    | some m ↦ elim (mutex_lock m (sessions_of c) w) [
      | none ↦ none
      | some (ss, w') ↦ some (with_sessions c ss, w')
    ]
  ]

  abbrev pub infra_mutex_unlock : Context → State → State
  infra_mutex_unlock c w = elim c.mutex [ none ↦ w | some m ↦ mutex_unlock m w ]

  -- A session that is not NULL: the call locks `&g_context.mutex`, the address of a field that holds
  -- a pointer and is no mutex, which is undefined.
  unfoldable pub cleanup_forward_session : Option ℕ → Context → State → Option (Context × State)
  cleanup_forward_session none c w = some (c, w)
  cleanup_forward_session (some i) c w = none

  -- The end of `cleanup_session_list`.
  abbrev pub clear_sessions : Context → State → Option (Context × State)
  clear_sessions c w =
      some (record c { active_sessions = replicate 32 zero_session; session_count = 0 }, w)

  -- The first round of the loop, while sessions were counted; there is no second one, since cleaning
  -- up a session does not come back.
  unfoldable pub cleanup_round : Context → State → Option (Context × State)
  cleanup_round c w = elim (infra_mutex_lock c w) [
    | none ↦ none
    | some (c', w') ↦
        if c'.session_count == 0
        then clear_sessions c' (infra_mutex_unlock c' w')
        else cleanup_forward_session (some 0) c' (infra_mutex_unlock c' w')
  ]

  unfoldable pub cleanup_session_list : Context → State → Option (Context × State)
  cleanup_session_list c w = elim (infra_mutex_lock c w) [
    | none ↦ none
    | some (c', w') ↦
        if c'.session_count == 0
        then clear_sessions c' (infra_mutex_unlock c' w')
        else cleanup_round c' (infra_mutex_unlock c' w')
  ]

  -- `if (sock) infra_net_close(sock)`, and the same for the join of a thread.
  abbrev pub close_if : Option ℕ → State → State
  close_if none w = w
  close_if (some a) w = net_close a w

  abbrev pub join_if : Option ℕ → SessionSlots → State → Option (SessionSlots × State)
  join_if none ss w = some (ss, w)
  join_if (some t) ss w = thread_join t ss w

  -- `stop_service` from the second join on, for the session of slot `i`.
  unfoldable pub stop_backward : ℕ → SessionSlots → State → Option (SessionSlots × State)
  stop_backward i ss w =
      let left = change i (λ s. record s { forward_thread = none }) ss in
      elim (join_if (slot i left).backward_thread left w) [
        | none ↦ none
        | some (ss', w') ↦
            let s = slot i ss' in
            some (
              change i
                  (λ s. record s { backward_thread = none; client_sock = none; server_sock = none })
                  ss',
              close_if s.server_sock (close_if s.client_sock w'),
            )
      ]

  unfoldable pub stop_session : ℕ → SessionSlots → State → Option (SessionSlots × State)
  stop_session i ss w =
      if not (slot i ss).active
      then some (ss, w)
      else elim (join_if (slot i ss).forward_thread (change i (λ s. record s { active = false }) ss)
          w) [ none ↦ none | some (ss', w') ↦ stop_backward i ss' w' ]

  -- The loop over `n` slots from slot `i` on.
  unfoldable pub stop_sessions : ℕ → ℕ → SessionSlots → State → Option (SessionSlots × State)
  stop_sessions i zero ss w = some (ss, w)
  stop_sessions i (suc n) ss w = elim (stop_session i ss w) [
    | none ↦ none
    | some (ss', w') ↦ stop_sessions (suc i) n ss' w'
  ]
