-- ===== src/Core.antt =====
-- The start and the end of the layer, its status and its log filter in infra/infra_core.c (in
-- ppdb/src/internal). The memory module is that of Memory.
pub mod Leak
use ai_ppdb.Base.{
  ℕ, ◌-◌, ◌^◌, Bool, true, false, not, ◌==◌, ◌&&◌, ◌||◌, Option, none, some, ltb, if◌then◌else◌,
  is_null,
}
use ai_ppdb.Base.Int.{ℤ, pos, negsuc}
use ai_ppdb.Error.{InfraError, ok, invalid_param, system, is_error}
use ai_ppdb.Memory.{Memory, Stats, zero_stats}
use ai_ppdb.Memory.Api.{infra_memory_init, infra_memory_cleanup, infra_memory_get_stats}
use ai_ppdb.Config.{Config, default_config, level_rejected}
use ai_ppdb.Runtime.{Runtime, MutexRef, handle}
use Prim.Native.Nat.{bit_and}
use Prim.Native.String.{String}

-- `g_infra`, with `g_memory`. A mutex is a handle or NULL; the callback is the number of a function.
pub record Core : Type 0 where
  pub initialized : Bool
  pub active_flags : ℕ
  pub mutex : Option ℕ
  pub log_level : ℤ
  pub log_file : Option ℕ
  pub log_callback : Option ℕ
  pub log_mutex : Option ℕ
  pub memory : Memory

abbrev pub init_memory : ℕ
init_memory = 1

abbrev pub init_log : ℕ
init_log = 2

abbrev pub init_ds : ℕ
init_ds = 4

abbrev pub init_all : ℕ
init_all = 4294967295

-- `flags & flag`, as a test, and `flags &= ~flag`, on 32 bits.
abbrev pub has_flag : ℕ → ℕ → Bool
has_flag flags flag = not (bit_and flags flag == 0)

abbrev pub clear_flag : ℕ → ℕ → ℕ
clear_flag flags flag = bit_and flags (2 ^ 32 - 1 - flag)

module _ (rt : Runtime) where
  open rt use {World}

  -- `infra_mutex_create` into a field that holds `old`.
  unfoldable pub create_mutex : Option ℕ → World → InfraError × Option ℕ × World
  create_mutex old w =
      let (made, w') = rt.mutex_init w in
      elim made [ none ↦ (system, old, w') | some h ↦ (ok, some h, w') ]

  -- `init_module` for INFRA_INIT_LOG and for INFRA_INIT_MEMORY.
  unfoldable pub init_log_module : Config → Core → World → InfraError × Core × World
  unfolding create_mutex
  init_log_module c g w =
      let (err, h, w') = create_mutex g.log_mutex w in
      (
        err,
        record g {
          log_level = c.log_level;
          log_file = c.log_file;
          log_callback = none;
          log_mutex = h;
        },
        w',
      )

  unfoldable pub init_memory_module : Config → Core → World → InfraError × Core × World
  init_memory_module c g w =
      let (err, m, w') = infra_memory_init rt (some c.memory) g.memory w in
      (err, record g { memory = m }, w')

  -- The end of `infra_init_with_config`, after the log module.
  unfoldable pub init_others : ℕ → Config → Core → World → InfraError × Core × World
  unfolding init_memory_module
  init_others flags c g w =
      let (err, g', w') = init_memory_module c g w in
      if has_flag flags init_memory
      then (if is_error err
          then (err, g', w')
          else (ok, record g' { initialized = true; active_flags = flags }, w'))
      else (ok, record g { initialized = true; active_flags = flags }, w)

  unfoldable pub init_parts : ℕ → Config → Core → World → InfraError × Core × World
  unfolding init_log_module init_others
  init_parts flags c g w =
      let (err, g', w') = init_log_module c g w in
      if is_error err then (err, g', w') else init_others flags c g' w'

  unfoldable pub infra_init_with_config : ℕ → Config → Core → World → InfraError × Core × World
  unfolding create_mutex init_parts
  infra_init_with_config flags c g w =
      let (err, h, w') = create_mutex g.mutex w in
      if g.initialized
      then (ok, g, w)
      else if is_error err
      then (err, g, w')
      else init_parts flags c (record g { mutex = h }) w'

  unfoldable pub infra_init : Core → World → InfraError × Core × World
  unfolding infra_init_with_config
  infra_init g w =
      if g.initialized then (ok, g, w) else infra_init_with_config init_all default_config g w

  -- `infra_mutex_destroy(g_infra.mutex)`; NULL is refused there.
  abbrev pub destroy_mutex : Option ℕ → World → World
  destroy_mutex none w = w
  destroy_mutex (some h) w = rt.mutex_destroy (handle h) w

  unfoldable pub infra_cleanup : Core → World → Core × World
  infra_cleanup g w =
      let f₁ =
        if has_flag g.active_flags init_ds
        then clear_flag g.active_flags init_ds
        else g.active_flags in
      let f₂ = if has_flag f₁ init_log then clear_flag f₁ init_log else f₁ in
      let (m, w₁) = infra_memory_cleanup rt g.memory w in
      let ended : Core = record g { initialized = false; active_flags = 0 } in
      if not g.initialized
      then (g, w)
      else if has_flag f₂ init_memory
      then (record ended { memory = m }, destroy_mutex g.mutex w₁)
      else (ended, destroy_mutex g.mutex w)

unfoldable pub infra_is_initialized : ℕ → Core → Bool
infra_is_initialized flag g = g.initialized && bit_and g.active_flags flag == flag

-- What `infra_get_status` writes; its log counts are always 0, and `none` is memory left as it was.
pub record Status : Type 0 where
  pub initialized : Bool
  pub active_flags : ℕ
  pub memory : Option Stats
  pub log_entries : ℕ
  pub dropped_entries : ℕ

unfoldable pub infra_get_status : Bool → Core → InfraError × Option Status
unfolding infra_memory_get_stats
infra_get_status false g = (invalid_param, none)
infra_get_status true g = (
  ok,
  some (record {
    initialized = g.initialized;
    active_flags = g.active_flags;
    memory =
        if has_flag g.active_flags init_memory
        then (infra_memory_get_stats true g.memory).1
        else some zero_stats;
    log_entries = 0;
    dropped_entries = 0;
  }),
)

-- Whether a message of this level passes: `level > g_infra.log.level`, and the test of `format`.
abbrev pub above : ℤ → ℤ → Bool
above (pos a) (pos b) = ltb b a
above (pos a) (negsuc b) = true
above (negsuc a) (pos b) = false
above (negsuc a) (negsuc b) = ltb a b

-- The word that stands for a level.
abbrev pub level_text : ℤ → String
level_text (negsuc n) = "UNKNOWN"
level_text (pos n) =
    if n == 1
    then "ERROR"
    else if n == 2
    then "WARN"
    else if n == 3
    then "INFO"
    else if n == 4
    then "DEBUG"
    else if n == 5
    then "TRACE"
    else "UNKNOWN"

unfoldable pub infra_log_set_level : ℤ → Core → Core
infra_log_set_level level g = if level_rejected level then g else record g { log_level = level }

unfoldable pub infra_log_set_callback : Option ℕ → Core → Core
infra_log_set_callback callback g = record g { log_callback = callback }

-- The word in front of a message that is printed; `none` where the message is dropped.
unfoldable pub infra_log : ℤ → Bool → Core → Option String
infra_log level given g =
    if not g.initialized || above level g.log_level || not given
    then none
    else some (level_text level)
