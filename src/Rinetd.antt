-- ===== src/Rinetd.antt =====
-- The port forwarder of peer/peer_rinetd.c (in ppdb/src/internal): its context, its rules, and how
-- it starts up and ends. Commands run one after another on the main thread; the other threads are
-- the system's. An array has 32 slots, a string ends before its zero byte.
pub mod Rules
pub mod Sessions
pub mod Service
pub mod Reachable
use ai_ppdb.Base.{
  ℕ, zero, suc, ◌+◌, ◌-◌, Bool, true, false, not, ◌&&◌, ◌||◌, List, [], ◌∷◌, Option, none, some,
  get_or, set, take, replicate, bytes_eq, ltb, leb, ◌==◌, if◌then◌else◌, is_null,
}
use ai_ppdb.Base.Int.{ℤ, pos, negsuc, eqb_ℤ}
use ai_ppdb.Error.{
  InfraError, ok, invalid_param, no_memory, exists, busy, already_exists, not_supported,
}
use ai_ppdb.System.{System}
use ai_ppdb.Mux.{Mux}

-- `RINETD_MAX_RULES`
abbrev pub max_rules : ℕ
max_rules = 32

-- `rinetd_rule_t`
pub record Rule : Type 0 where
  pub src_addr : List ℕ
  pub src_port : ℤ
  pub dst_addr : List ℕ
  pub dst_port : ℤ
  pub enabled : Bool

-- `rinetd_session_t`. A socket or a thread is a pointer, NULL is `none`; `rule` is an index.
pub record Session : Type 0 where
  pub client_sock : Option ℕ
  pub server_sock : Option ℕ
  pub rule : Option ℕ
  pub forward_thread : Option ℕ
  pub backward_thread : Option ℕ
  pub active : Bool

-- `rinetd_context_t`
pub record Context : Type 0 where
  pub running : Bool
  pub config_path : List ℕ
  pub rules : List Rule
  pub rule_count : ℕ
  pub mux : Option Mux
  pub mutex : Option ℕ
  pub listener_threads : List (Option ℕ)
  pub active_sessions : List Session
  pub session_count : ℕ

abbrev pub zero_rule : Rule
zero_rule = record {
  src_addr = [];
  src_port = pos 0;
  dst_addr = [];
  dst_port = pos 0;
  enabled = false;
}

abbrev pub zero_session : Session
zero_session = record {
  client_sock = none;
  server_sock = none;
  rule = none;
  forward_thread = none;
  backward_thread = none;
  active = false;
}

-- `static rinetd_context_t g_context = {0}`, and `memset(&g_context, 0, sizeof(g_context))`.
abbrev pub zero_context : Context
zero_context = record {
  running = false;
  config_path = [];
  rules = replicate 32 zero_rule;
  rule_count = 0;
  mux = none;
  mutex = none;
  listener_threads = replicate 32 none;
  active_sessions = replicate 32 zero_session;
  session_count = 0;
}

-- What the threads of the forwarder change of the context: its sessions and their number.
abbrev pub SessionSlots : Type 0
SessionSlots = List Session × ℕ

abbrev pub sessions_of : Context → SessionSlots
sessions_of c = (c.active_sessions, c.session_count)

abbrev pub with_sessions : Context → SessionSlots → Context
with_sessions c (ss, n) = record c { active_sessions = ss; session_count = n }

-- The calls of infra/infra_sync.h and infra/infra_net.h that the forwarder makes on a handle: each
-- may fail and change the state of the system as it pleases, the threads included. While a call
-- is on its way the other threads run and change the sessions; a started thread may do all it does,
-- or nothing, before the call returns. A lock or a join that never returns is `none`.
pub record Calls (y : System) : Type 0 where
  pub mutex_create : y.State → InfraError × Option ℕ × y.State
  pub mutex_destroy : ℕ → y.State → y.State
  pub mutex_lock : ℕ → SessionSlots → y.State → Option (SessionSlots × y.State)
  pub mutex_unlock : ℕ → y.State → y.State
  -- `listener_thread` on the rule of this index.
  pub thread_create : ℕ → SessionSlots → y.State → InfraError × ℕ × SessionSlots × y.State
  pub thread_join : ℕ → SessionSlots → y.State → Option (SessionSlots × y.State)
  pub net_close : ℕ → y.State → y.State

-- How a public function ends: with its result and the context and state after it. `none` is a call
-- that does not return, or one that the C standard leaves undefined.
abbrev pub Outcome : System → Type 0
Outcome y = Option (InfraError × Context × y.State)

-- The loop of `rinetd_add_rule` over the first slots: an enabled rule with this source.
unfoldable pub has_source : Rule → List Rule → ℕ → Bool
has_source rule rules zero = false
has_source rule [] (suc n) = false
has_source rule (r ∷ rules) (suc n) =
    (r.enabled && eqb_ℤ r.src_port rule.src_port && bytes_eq r.src_addr rule.src_addr)
    || has_source rule rules n

unfoldable pub rinetd_add_rule : Option Rule → Context → InfraError × Context
rinetd_add_rule none c = (invalid_param, c)
rinetd_add_rule (some rule) c =
    if leb max_rules c.rule_count
    then (no_memory, c)
    else if has_source rule c.rules c.rule_count
    then (exists, c)
    else (ok, record c { rules = set c.rules c.rule_count rule; rule_count = c.rule_count + 1 })

-- `g_context.rules[index].enabled = false`
abbrev pub disable : ℕ → List Rule → List Rule
disable i rules = set rules i (record (get_or rules i zero_rule) { enabled = false })

unfoldable pub rinetd_remove_rule : ℤ → Context → InfraError × Context
rinetd_remove_rule (negsuc n) c = (invalid_param, c)
rinetd_remove_rule (pos index) c =
    if leb c.rule_count index then (invalid_param, c) else if c.running then (busy, c) else (
      ok,
      record c {
        rules = disable index c.rules;
        rule_count = if index == c.rule_count - 1 then c.rule_count - 1 else c.rule_count;
      },
    )

-- `strncpy` of 255 bytes and the zero byte after them.
unfoldable pub rinetd_load_config : Option (List ℕ) → Context → InfraError × Context
rinetd_load_config none c = (invalid_param, c)
rinetd_load_config (some path) c =
    if is_null c.mutex then (not_supported, c) else (ok, record c { config_path = take 255 path })

unfoldable pub rinetd_is_running : Context → Bool
rinetd_is_running c = c.running
