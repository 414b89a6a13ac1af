-- ===== src/Tests/Services.antt =====
-- The theorems on peer/peer_rinetd.c at concrete contexts.
use ai_ppdb.Base.{◌≡◌, refl, true, [], ◌∷◌, none, some, arith, replicate, bytes_eq, bytes_eq_iff}
use ai_ppdb.Base.Int.{pos}
use ai_ppdb.Error.{ok, not_supported}
use ai_ppdb.Tests.Machine.{machine, empty_desk}
use ai_ppdb.Rinetd.{Rule, Context, zero_context, zero_rule, Calls, has_source, rinetd_add_rule}
use ai_ppdb.Rinetd.Rules.{RulesValid}
use ai_ppdb.Rinetd.Service.{
  free_listener, create_listener, start_listeners, start_service, rinetd_init, rinetd_cleanup,
  rinetd_cmd_handler, start_word,
}
use ai_ppdb.Rinetd.Sessions.{cleanup_session_list}
use ai_ppdb.Rinetd.Reachable.{
  add_rule, cleanup, command, Reachable, loaded, called, run, Idle, Reachable-Idle,
  Reachable-start_service, Reachable-rinetd_init,
}

-- Mutexes and threads that are all made, and joins that return.
abbrev calls : Calls machine
calls = record {
  mutex_create = λ w. (ok, some 1, w);
  mutex_destroy = λ m w. w;
  mutex_lock = λ m ss w. some (ss, w);
  mutex_unlock = λ m w. w;
  thread_create = λ rule ss w. (ok, 7, ss, w);
  thread_join = λ t ss w. some (ss, w);
  net_close = λ sock w. w;
}

-- Port 80 to port 8080.
abbrev web : Rule
web = record {
  src_addr = [];
  src_port = pos 80;
  dst_addr = [];
  dst_port = pos 8080;
  enabled = true;
}

zero-RulesValid : RulesValid zero_context
zero-RulesValid = record { width = refl; bound = omega arith; unique = tt }

abbrev with_web : Context
with_web = record zero_context { rules = web ∷ replicate 31 zero_rule; rule_count = 1 }

web_added : (rinetd_add_rule (some web) zero_context).0 ≡ ok
unfolding rinetd_add_rule has_source
web_added = refl

with_web-RulesValid : RulesValid with_web
unfolding has_source
with_web-RulesValid = record { width = refl; bound = omega arith; unique = (λ on. refl, tt) }

-- A rule is added, and the start command refused.
web_reached : Reachable machine calls with_web empty_desk
unfolding run rinetd_add_rule has_source
web_reached = called (add_rule (some web)) zero_context empty_desk ok _ _ (loaded empty_desk) refl

start_refused :
    run machine calls (command ([] ∷ start_word ∷ [])) with_web empty_desk
    ≡ some (not_supported, with_web, empty_desk)
unfolding run rinetd_cmd_handler start_service
start_refused =
    let said : bytes_eq start_word start_word ≡ true =
      (bytes_eq_iff start_word start_word).1 refl in
    rw said refl

start_reached : Reachable machine calls with_web empty_desk
start_reached =
    called (command ([] ∷ start_word ∷ [])) with_web empty_desk not_supported with_web empty_desk
      web_reached start_refused

Reachable-Idle_example : Idle machine calls with_web
Reachable-Idle_example = Reachable-Idle machine calls start_reached

Reachable-start_service_example :
    start_service machine calls with_web empty_desk ≡ some (not_supported, with_web, empty_desk)
Reachable-start_service_example = Reachable-start_service machine calls start_reached

-- The end of the forwarder clears the rules.
cleaned_reached : Reachable machine calls zero_context empty_desk
unfolding run rinetd_cleanup cleanup_session_list
cleaned_reached = called cleanup with_web empty_desk ok zero_context empty_desk start_reached refl

Reachable-rinetd_init_example : rinetd_init machine calls zero_context empty_desk ≡ none
Reachable-rinetd_init_example = Reachable-rinetd_init machine calls cleaned_reached refl

-- A service that was given a mutex starts.
service_started :
    start_service machine calls (record with_web { mutex = some 1 }) empty_desk
    ≡ some (
      ok,
      record with_web {
        mutex = some 1;
        listener_threads = some 7 ∷ replicate 31 none;
        running = true;
      },
      empty_desk,
    )
unfolding start_service start_listeners create_listener free_listener
service_started = refl
