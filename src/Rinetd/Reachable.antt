-- ===== src/Rinetd/Reachable.antt =====
-- The contexts that the public functions of peer/peer_rinetd.c reach from the zeroed one, by calls
-- that come back. No thread is ever started on the way, so that nothing runs between two calls.
use ai_ppdb.Base.{
  ℕ, ◌≡◌, refl, sym, subst, false, not, List, [], ◌∷◌, Option, none, some, arith, is_null, if_split,
  bytes_eq,
}
use ai_ppdb.Base.Int.{ℤ, pos, negsuc}
use ai_ppdb.Error.{InfraError, ok, not_supported, is_error}
use ai_ppdb.System.{System}
use ai_ppdb.Mux.{infra_mux_create}
use ai_ppdb.Rinetd.Sessions.{cleanup_session_list}
use ai_ppdb.Rinetd.{
  Rule, Context, zero_context, Calls, Outcome, rinetd_add_rule, rinetd_remove_rule,
  rinetd_load_config,
}
use ai_ppdb.Rinetd.Rules.{RulesValid, rinetd_add_rule-RulesValid, rinetd_remove_rule-RulesValid}
use ai_ppdb.Rinetd.Service.{
  destroy_mutex, destroy_mux, rinetd_init, rinetd_cleanup, rinetd_cmd_handler, show_status,
  start_service, stop_service, parse_config_file, on_state, config_command, start_word, stop_word,
  status_word, config_word,
}

-- A call of a public function.
pub data Call : Type 0 where
  init cleanup : Call
  load_config : Option (List ℕ) → Call
  add_rule : Option Rule → Call
  remove_rule : ℤ → Call
  command : List (List ℕ) → Call

module _ (y : System) (calls : Calls y) where
  open y use {State}
  open calls use {mutex_create}

  unfoldable pub run : Call → Context → State → Outcome y
  run init c w = rinetd_init y calls c w
  run cleanup c w = rinetd_cleanup y calls c w
  run (load_config path) c w = on_state y calls (rinetd_load_config path c) w
  run (add_rule rule) c w = on_state y calls (rinetd_add_rule rule c) w
  run (remove_rule index) c w = on_state y calls (rinetd_remove_rule index c) w
  run (command argv) c w = rinetd_cmd_handler y calls argv c w

  pub data Reachable : Context → State → Type 0 where
    loaded : (w : State) → Reachable zero_context w
    called :
        (k : Call) (c : Context) (w : State) (err : InfraError) (c' : Context) (w' : State)
        → Reachable c w
        → run k c w ≡ some (err, c', w')
        → Reachable c' w'

  -- What holds of every reachable context.
  pub record Idle (c : Context) : Type 0 where
    pub no_mutex : c.mutex ≡ none
    pub stopped : c.running ≡ false
    pub rules_valid : RulesValid c

  zero-Idle : Idle zero_context
  zero-Idle = record {
    no_mutex = refl;
    stopped = refl;
    rules_valid = record { width = refl; bound = omega arith; unique = tt };
  }

  -- Without a mutex start and stop refuse, and the initialisation that gets one is undefined.
  pub start_service-without_mutex :
      (c : Context) (w : State)
      → c.mutex ≡ none
      → start_service y calls c w ≡ some (not_supported, c, w)
  unfolding start_service
  start_service-without_mutex c w e = ground arith

  stop_service-without_mutex :
      (c : Context) (w : State)
      → c.mutex ≡ none
      → stop_service y calls c w ≡ some (not_supported, c, w)
  unfolding stop_service
  stop_service-without_mutex c w e = ground arith

  rinetd_init-without_mutex :
      (c : Context) (w : State)
      → c.mutex ≡ none
      → is_error (mutex_create w).0 ≡ false
      → rinetd_init y calls c w ≡ none
  unfolding rinetd_init infra_mux_create
  rinetd_init-without_mutex c w e made = ground arith

  -- A call that comes back leaves an idle context.
  abbrev After : Outcome y → Type 0
  After none = Unit
  After (some (err, c, w)) = Idle c

  init-Idle : (c : Context) (w : State) → Idle c → After (rinetd_init y calls c w)
  unfolding rinetd_init infra_mux_create
  init-Idle c w v =
      if_split After (not (is_null c.mutex)) _ _ (λ made. v)
        (λ new.
          if_split After (is_error (mutex_create w).0) _ _ (λ failed. zero-Idle) (λ locked. tt))

  cleanup-Idle : (c : Context) (w : State) → Idle c → After (rinetd_cleanup y calls c w)
  unfolding rinetd_cleanup
  cleanup-Idle c w v =
      if_split After c.running _ _ (λ on. v)
        (λ off.
          elim (cleanup_session_list y calls c w)
            as (λ r. After (elim r [
              | none ↦ none
              | some (c', w') ↦
                  some (
                    ok,
                    zero_context,
                    destroy_mutex y calls c'.mutex (destroy_mux y calls c'.mux w'),
                  )
            ])) [ none ↦ tt | some (c', w') ↦ zero-Idle ])

  load_config-Idle :
      (path : Option (List ℕ)) (c : Context) → Idle c → Idle (rinetd_load_config path c).1
  unfolding rinetd_load_config
  load_config-Idle none c v = v
  load_config-Idle (some path) c v =
      let same : rinetd_load_config (some path) c ≡ (not_supported, c) =
        ground (arith, v.no_mutex) in
      subst (λ (r : InfraError × Context). Idle r.1) (sym same) v

  add_rule-Idle : (rule : Option Rule) (c : Context) → Idle c → Idle (rinetd_add_rule rule c).1
  unfolding rinetd_add_rule
  add_rule-Idle none c v = v
  add_rule-Idle (some rule) c v = record {
    no_mutex = ground (arith, v.no_mutex);
    stopped = ground (arith, v.stopped);
    rules_valid = rinetd_add_rule-RulesValid (some rule) c v.rules_valid;
  }

  remove_rule-Idle : (index : ℤ) (c : Context) → Idle c → Idle (rinetd_remove_rule index c).1
  unfolding rinetd_remove_rule
  remove_rule-Idle (negsuc n) c v = v
  remove_rule-Idle (pos n) c v = record {
    no_mutex = ground (arith, v.no_mutex);
    stopped = ground (arith, v.stopped);
    rules_valid = rinetd_remove_rule-RulesValid (pos n) c v.rules_valid;
  }

  parse_config_file-Idle :
      (path : List ℕ) (c : Context) (w : State)
      → Idle c
      → After (parse_config_file y calls (some path) c w)
  unfolding parse_config_file
  parse_config_file-Idle path c w v =
      rw (v.no_mutex, parse_config_file)
        (if_split After c.running _ _ (λ on. v) (λ off. load_config-Idle (some path) c v))

  config-Idle :
      (rest : List (List ℕ)) (c : Context) (w : State)
      → Idle c
      → After (config_command y calls rest c w)
  unfolding config_command
  config-Idle [] c w v = v
  config-Idle (path ∷ more) c w v = parse_config_file-Idle path c w v

  show_status-Idle : (c : Context) (w : State) → Idle c → After (show_status y calls c w)
  unfolding show_status
  show_status-Idle c w v = rw (v.no_mutex, show_status) v

  command-Idle :
      (argv : List (List ℕ)) (c : Context) (w : State)
      → Idle c
      → After (rinetd_cmd_handler y calls argv c w)
  unfolding rinetd_cmd_handler
  command-Idle [] c w v = v
  command-Idle (program ∷ []) c w v = v
  command-Idle (program ∷ cmd ∷ rest) c w v =
      if_split After (bytes_eq cmd start_word) _ _
        (λ start. subst After (sym (start_service-without_mutex c w v.no_mutex)) v)
        (λ not_start.
          if_split After (bytes_eq cmd stop_word) _ _
            (λ stop. subst After (sym (stop_service-without_mutex c w v.no_mutex)) v)
            (λ not_stop.
              if_split After (bytes_eq cmd status_word) _ _ (λ status. show_status-Idle c w v)
                (λ not_status.
                  if_split After (bytes_eq cmd config_word) _ _ (λ config. config-Idle rest c w v)
                    (λ unknown. v))))

  run-Idle : (k : Call) (c : Context) (w : State) → Idle c → After (run k c w)
  unfolding run
  run-Idle init c w v = init-Idle c w v
  run-Idle cleanup c w v = cleanup-Idle c w v
  run-Idle (load_config path) c w v = load_config-Idle path c v
  run-Idle (add_rule rule) c w v = add_rule-Idle rule c v
  run-Idle (remove_rule index) c w v = remove_rule-Idle index c v
  run-Idle (command argv) c w v = command-Idle argv c w v

  -- After any sequence of public calls that come back, from the zeroed context and whatever the
  -- system does, there is no mutex, the service is not running, and the rules are valid: at
  -- most 32, without two enabled ones of one source.
  pub Reachable-Idle : {c : Context} {w : State} → Reachable c w → Idle c
  Reachable-Idle (loaded w) = zero-Idle
  Reachable-Idle (called k c w err c' w' r e) = subst After e (run-Idle k c w (Reachable-Idle r))

  -- After any sequence of public calls that come back, from the zeroed context and whatever the
  -- system does, starting the service is refused as not supported and changes nothing.
  pub Reachable-start_service :
      {c : Context} {w : State}
      → Reachable c w
      → start_service y calls c w ≡ some (not_supported, c, w)
  Reachable-start_service {c = c} {w = w} r =
      start_service-without_mutex c w (Reachable-Idle r).no_mutex

  -- After any sequence of public calls that come back, from the zeroed context and whatever the
  -- system does, an initialisation that is given a mutex has no defined end.
  pub Reachable-rinetd_init :
      {c : Context} {w : State}
      → Reachable c w
      → is_error (mutex_create w).0 ≡ false
      → rinetd_init y calls c w ≡ none
  Reachable-rinetd_init {c = c} {w = w} r made =
      rinetd_init-without_mutex c w (Reachable-Idle r).no_mutex made
