-- ===== src/Rinetd/Service.antt =====
-- The service of peer/peer_rinetd.c: its start-up and its end, its listeners, and its commands.
use ai_ppdb.Base.{
  ℕ, zero, suc, true, false, not, List, [], ◌∷◌, Option, none, some, set, bytes_eq, ◌==◌, ◌||◌,
  if◌then◌else◌, is_null,
}
use ai_ppdb.Error.{InfraError, ok, invalid_param, busy, already_exists, not_supported, is_error}
use ai_ppdb.System.{System}
use ai_ppdb.Mux.{Mux, infra_mux_create, infra_mux_epoll_destroy}
use ai_ppdb.Rinetd.{
  Rule, Context, zero_context, SessionSlots, sessions_of, with_sessions, Calls, Outcome,
  rinetd_load_config,
}
use ai_ppdb.Rinetd.Sessions.{
  infra_mutex_lock, infra_mutex_unlock, cleanup_session_list, stop_sessions,
}

-- The command words, in bytes.
abbrev pub start_word : List ℕ
start_word = 45 ∷ 45 ∷ 115 ∷ 116 ∷ 97 ∷ 114 ∷ 116 ∷ []

abbrev pub stop_word : List ℕ
stop_word = 45 ∷ 45 ∷ 115 ∷ 116 ∷ 111 ∷ 112 ∷ []

abbrev pub status_word : List ℕ
status_word = 45 ∷ 45 ∷ 115 ∷ 116 ∷ 97 ∷ 116 ∷ 117 ∷ 115 ∷ []

abbrev pub config_word : List ℕ
config_word = 45 ∷ 45 ∷ 99 ∷ 111 ∷ 110 ∷ 102 ∷ 105 ∷ 103 ∷ []

-- The first slot without a thread.
unfoldable pub free_listener : List (Option ℕ) → Option ℕ
free_listener [] = none
free_listener (none ∷ ts) = some 0
free_listener (some t ∷ ts) = elim (free_listener ts) [ none ↦ none | some i ↦ some (suc i) ]

-- `stop_service` over the listeners: the slots, the sessions and the state after the joins.
abbrev Joined : System → Type 0
Joined y = Option (List (Option ℕ) × SessionSlots × y.State)

module _ (y : System) (calls : Calls y) where
  open y use {State}
  open calls use {mutex_create, mutex_destroy, thread_create, thread_join}

  -- On failure of the multiplexer `infra_mutex_destroy` is given `&g_context.mutex` and so destroys
  -- and frees a static field, which is undefined.
  unfoldable pub rinetd_init : Context → State → Outcome y
  rinetd_init c w =
      let (err, m, w₁) = mutex_create w in
      let (err', x, w₂) = infra_mux_create y none true w₁ in
      if not (is_null c.mutex)
      then some (already_exists, c, w)
      else if is_error err
      then some (err, zero_context, w₁)
      else if is_error err'
      then none
      else some (ok, record zero_context { mutex = m; mux = x }, w₂)

  -- `if (mux != NULL) infra_mux_destroy(mux)`, and the same for the mutex.
  abbrev pub destroy_mux : Option Mux → State → State
  destroy_mux none w = w
  destroy_mux (some m) w = (infra_mux_epoll_destroy y (some m) w).1

  abbrev pub destroy_mutex : Option ℕ → State → State
  destroy_mutex none w = w
  destroy_mutex (some m) w = mutex_destroy m w

  unfoldable pub rinetd_cleanup : Context → State → Outcome y
  rinetd_cleanup c w =
      if c.running then some (busy, c, w) else elim (cleanup_session_list y calls c w) [
        | none ↦ none
        | some (c', w') ↦ some (ok, zero_context, destroy_mutex c'.mutex (destroy_mux c'.mux w'))
      ]

  -- With no free slot there is no listener, and still no error. The slot says that a thread was made,
  -- not that it still runs: one that reads `running` before `start_service` sets it leaves at once.
  unfoldable pub create_listener : ℕ → Context → State → InfraError × Context × State
  create_listener rule c w = elim (free_listener c.listener_threads) [
    | none ↦ (ok, c, w)
    | some i ↦
        let (err, thread, ss, w') = thread_create rule (sessions_of c) w in
        let c' = with_sessions c ss in
        if is_error err
        then (err, c', w')
        else (ok, record c' { listener_threads = set c.listener_threads i (some thread) }, w')
  ]

  -- The loop of `stop_service` over the listeners.
  unfoldable pub join_listeners : List (Option ℕ) → SessionSlots → State → Joined y
  join_listeners [] ss w = some ([], ss, w)
  join_listeners (none ∷ ts) ss w = elim (join_listeners ts ss w) [
    | none ↦ none
    | some (ts', ss', w') ↦ some (none ∷ ts', ss', w')
  ]
  join_listeners (some t ∷ ts) ss w = elim (thread_join t ss w) [
    | none ↦ none
    | some (ss₁, w₁) ↦ elim (join_listeners ts ss₁ w₁) [
      | none ↦ none
      | some (ts', ss', w') ↦ some (none ∷ ts', ss', w')
    ]
  ]

  -- `stop_service` once the listeners are joined.
  abbrev pub end_sessions : Context → List (Option ℕ) → SessionSlots → State → Outcome y
  end_sessions c threads ss w = elim (stop_sessions y calls 0 32 ss w) [
    | none ↦ none
    | some (ss', w') ↦ some (
      ok,
      record c {
        running = false;
        listener_threads = threads;
        active_sessions = ss'.0;
        session_count = 0;
      },
      w',
    )
  ]

  unfoldable pub stop_service : Context → State → Outcome y
  stop_service c w =
      if is_null c.mutex || not c.running
      then some (not_supported, c, w)
      else elim (join_listeners c.listener_threads (sessions_of c) w) [
        | none ↦ none
        | some (threads, ss, w') ↦ end_sessions c threads ss w'
      ]

  -- The loop of `start_service` over the first `n` of the rules, the first of which has index `i`.
  unfoldable pub start_listeners :
      List Rule → ℕ → ℕ → Context → State → InfraError × Context × State
  start_listeners rules i zero c w = (ok, c, w)
  start_listeners [] i (suc n) c w = (ok, c, w)
  start_listeners (r ∷ rules) i (suc n) c w =
      let skipped = start_listeners rules (suc i) n c w in
      let (err, c', w') = create_listener i c w in
      let next = start_listeners rules (suc i) n c' w' in
      if not r.enabled then skipped else if is_error err then (err, c', w') else next

  -- `stop_service(); return err;`, before `running` was set.
  abbrev pub give_up : InfraError → Context → State → Outcome y
  give_up err c w = elim (stop_service c w) [ none ↦ none | some (e, c', w') ↦ some (err, c', w') ]

  unfoldable pub start_service : Context → State → Outcome y
  start_service c w =
      let (err, c', w') = start_listeners c.rules 0 c.rule_count c w in
      if is_null c.mutex
      then some (not_supported, c, w)
      else if c.running
      then some (already_exists, c, w)
      else if c.rule_count == 0
      then some (invalid_param, c, w)
      else if is_error err
      then give_up err c' w'
      else some (ok, record c' { running = true }, w')

  abbrev pub on_state : InfraError × Context → State → Outcome y
  on_state (err, c) w = some (err, c, w)

  unfoldable pub parse_config_file : Option (List ℕ) → Context → State → Outcome y
  parse_config_file none c w = some (invalid_param, c, w)
  parse_config_file (some path) c w = elim (infra_mutex_lock y calls c w) [
    | none ↦ none
    | some (c', w') ↦
        let w'' = infra_mutex_unlock y calls c' w' in
        if c'.running
        then some (busy, c', w'')
        else on_state (rinetd_load_config (some path) c') w''
  ]

  -- What is printed is left out.
  unfoldable pub show_status : Context → State → Outcome y
  show_status c w = elim (infra_mutex_lock y calls c w) [
    | none ↦ none
    | some (c', w') ↦ some (ok, c', infra_mutex_unlock y calls c' w')
  ]

  -- The command `--config`, with the arguments after it.
  unfoldable pub config_command : List (List ℕ) → Context → State → Outcome y
  config_command [] c w = some (invalid_param, c, w)
  config_command (path ∷ more) c w = parse_config_file (some path) c w

  -- `argv[0]` is the program.
  unfoldable pub rinetd_cmd_handler : List (List ℕ) → Context → State → Outcome y
  rinetd_cmd_handler [] c w = some (invalid_param, c, w)
  rinetd_cmd_handler (program ∷ []) c w = some (invalid_param, c, w)
  rinetd_cmd_handler (program ∷ cmd ∷ rest) c w =
      if bytes_eq cmd start_word
      then start_service c w
      else if bytes_eq cmd stop_word
      then stop_service c w
      else if bytes_eq cmd status_word
      then show_status c w
      else if bytes_eq cmd config_word
      then config_command rest c w
      else some (invalid_param, c, w)
